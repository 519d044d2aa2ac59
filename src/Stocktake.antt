-- ===== src/Stocktake.antt =====
-- magazyn/blueprints/stocktake.py: counting the stock by scanning.
pub mod Session
pub mod Closing
pub mod Tally
pub mod Undo
pub mod Active
pub mod Apply
pub mod Reapply
pub mod Counted
