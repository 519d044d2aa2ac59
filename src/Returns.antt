-- ===== src/Returns.antt =====
-- Returns: magazyn/services/return_core.py, the handlers of return_stock.py, and the statuses of
-- magazyn/domain/returns.py.
pub mod Rows
pub mod Core
pub mod Restock
pub mod Branches
pub mod Calls
pub mod Once
pub mod Tracked
pub mod Steps
pub mod Runs
