-- ===== src/Cancel.antt =====
-- The cancellation of an order: magazyn/services/order_cancel.py.
pub mod Order
pub mod Twice
