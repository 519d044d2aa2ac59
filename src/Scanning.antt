-- ===== src/Scanning.antt =====
-- magazyn/services/scanning.py: packing an order by scanning its label and its products.
pub mod Tracking
pub mod Pack
pub mod Counters
pub mod Kept
pub mod Ready
pub mod Packed
pub mod Complete
pub mod Again
pub mod Once
