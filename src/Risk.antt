-- ===== src/Risk.antt =====
-- The risk package and the ledger of the sleeves: risk/*.py and portfolio/ledger.py.
pub mod Sleeves
pub mod CircuitBreakers
pub mod Ledger
pub mod Capacity
pub mod Freshness
pub mod Sizing
pub mod ManualOverride
pub mod BorrowStress
