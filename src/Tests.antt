-- ===== src/Tests.antt =====
-- Concrete inputs of the program, and the theorems at them.
pub mod Samples
pub mod Router
pub mod Orders
pub mod Stores
pub mod Reconciliation
pub mod Sleeve
pub mod Loops
pub mod Risk
pub mod Signals
pub mod Replay
pub mod Smoke
pub mod Scan
pub mod Binance
