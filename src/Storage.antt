-- ===== src/Storage.antt =====
-- The storage package: storage/*.py.
pub mod Orders
pub mod Positions
