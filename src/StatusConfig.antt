-- ===== src/StatusConfig.antt =====
-- The tables of magazyn/status_config.py: the order statuses, their ranks, and the codes of the
-- carriers and of Allegro that stand for them. A Python dict is an association list.
mod Tables
unfoldable pub use Tables.*
pub mod Codes
