-- ===== src/ItemEdit.antt =====
-- magazyn/services/order_item_edit.py: another colour or size for a line of an order.
pub mod Variant
pub mod Moves
pub mod Effects
