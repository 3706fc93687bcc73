-- ===== src/Renewal.antt =====
-- The renewal of orders: the part of src/orders/orders.service.ts that src/renew calls.
pub mod Order
pub mod Bulk
pub mod Charges
pub mod Totals
mod Tests
