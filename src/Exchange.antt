-- ===== src/Exchange.antt =====
-- The exchange package: exchange/*.py.
pub mod Filters
pub mod Interfaces
pub mod Inert
pub mod Factory
pub mod Payloads
pub mod Parsers
pub mod Requests
pub mod BinanceRest
pub mod BinanceOrders
