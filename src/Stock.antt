-- ===== src/Stock.antt =====
-- The warehouse: stock levels with the purchase value of what is in stock (moving weighted
-- average), deliveries, sales, corrections and returns to stock.
pub mod Rows
pub mod Records
pub mod Value
pub mod Selling
pub mod Adjust
pub mod Restore
pub mod Returned
pub mod Adjusted
pub mod Consistent
pub mod Levels
