-- ===== src/OrderStatus.antt =====
-- The order-status service, magazyn/services/order_status.py, with the log of statuses that an
-- order keeps and the record of the e-mails sent for it (services/notification_delivery.py).
pub mod Rows
pub mod Service
pub mod Guard
pub mod History
pub mod Emails
pub mod Reached
