-- ===== src/Store.antt =====
-- internal/store/store.go: shares, PPLNS allocations and payouts over the database.
pub mod Tables
pub mod Sql
pub mod Totals
pub mod Window
pub mod Split
pub mod Shares
pub mod Allocate
pub mod Blocks
pub mod Balances
pub mod Payouts
pub mod PayoutStates
pub mod Statistics
pub mod Ledger
pub mod Examples
