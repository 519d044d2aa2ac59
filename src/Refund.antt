-- ===== src/Refund.antt =====
-- Money back for a return: magazyn/services/return_refunds.py.
pub mod Rows
pub mod Process
pub mod Eligible
pub mod Reaches
pub mod Offered
pub mod Ends
pub mod Flags
pub mod Paid
