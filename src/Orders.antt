-- ===== src/Orders.antt =====
-- Orders and their fills: backend/src/orders. Identifiers are texts that are only compared, so they
-- are numbers; an order id is a uuid, never the empty text.
pub mod Types
pub mod Manager
mod Tests
