-- ===== src/Web/Examples.antt =====
-- Amounts at a concrete unit.
