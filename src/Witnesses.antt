-- ===== src/Witnesses.antt =====
-- The theorems at concrete inputs, and runs of the code that can be followed in the source.
mod Orders
mod Warehouse
mod Printing
mod Returned
mod Cancelling
mod Refunding
mod Packing
mod Counting
mod Limited
mod Editing
