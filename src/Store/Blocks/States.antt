-- ===== src/Store/Blocks/States.antt =====
-- What `SetBlockState` does with the status of a pending block.
use qday_pool.Store.Tables.{Tables}
