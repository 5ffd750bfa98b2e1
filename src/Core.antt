-- ===== src/Core.antt =====
-- The domain model: core/enums.py, core/models.py, core/account.py and core/exchange_order.py.
pub mod Enums
pub mod Models
