-- ===== src/Ops.antt =====
-- The programs that run unattended: ops/*.py, and the runner and the loop of
-- execution/reconciliation_runner.py and execution/periodic_reconciliation.py.
pub mod Alerts
pub mod ReadWriteSmoke
pub mod Loop
pub mod Periodic
pub mod Daemon
pub mod Startup
