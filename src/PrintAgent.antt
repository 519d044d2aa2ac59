-- ===== src/PrintAgent.antt =====
-- The agent that prints labels (magazyn/services/print_agent_queue.py, print_agent_retry.py).
pub mod Queue
pub mod Retry
pub mod Limit
pub mod Window
pub mod Spread
pub mod Rounds
pub mod Attempts
pub mod Handled
