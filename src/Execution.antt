-- ===== src/Execution.antt =====
-- The execution package: execution/*.py.
pub mod Allocator
pub mod AutoLoop
pub mod SafeMode
pub mod OrderState
pub mod OrderIds
pub mod Router
pub mod Diff
pub mod Reconciliation
pub mod PositionReconciliation
pub mod Repair
