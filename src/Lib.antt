-- ===== src/Lib.antt =====
-- Verification library of the RetrieverShop warehouse suite (package magazyn).
--
-- The suite keeps a warehouse for a shop that sells on Allegro and in its own store. Orders come
-- in from outside, a printing agent prints their labels and takes their pieces out of stock,
-- couriers and the panel report statuses, customers send goods back, and stock comes in by
-- deliveries, corrections and stocktakes. The library models the parts that decide: what a status
-- call may do to an order, what a sale, a correction or a return does to the stock and its value,
-- and the loops and guards around printing and returning.
--
-- A database table is a list of records, and an operation is a function from the tables to the
-- tables and its result. `query.filter(...).first()` is `find_first`. An operation of the source
-- that ends in a commit returns the new tables. Log messages, metrics and texts for people are left
-- out. What is called outside the repository, or in parts that are not modelled (senders of
-- e-mails, the printer, the clock), is an argument.
--
-- Prelude: names of the libraries, Boolean tests, lists, texts and dictionaries, integers.
-- StatusConfig: the tables of magazyn/status_config.py.
-- OrderStatus: magazyn/services/order_status.py, with the record of the e-mails sent of
--   services/notification_delivery.py and the test of services/notification_retry.py. The log is
--   kept newest first. Of rows with one timestamp the one added first is read: the query leaves
--   that open, and SQLite answers so.
-- Decimal: Python's Decimal as the money code uses it. A value is a coefficient at a number of
--   places; products and quotients round to 28 digits, halves to even, and `quantize` to grosze,
--   halves up. The model's value is Python's where sums and differences have at most 28 digits,
--   which the columns Numeric(12, 2) are far from; no amount is negative. The searches for digits
--   run on the number itself as fuel, which is more than its digits.
-- Stock: magazyn/models/products.py, services/stock_records.py, services/stock_adjust.py, and the
--   placing of returned pieces of services/return_stock.py. A column Numeric(12, 2) is a parameter
--   that keeps a nearest amount of grosze.
-- Returns: magazyn/services/return_core.py, the handlers of services/return_stock.py,
--   models/returns.py and the statuses of domain/returns.py, over the tables of Stock and OrderStatus. Times count
--   seconds. A call of the handler that raises rolls its tables back.
-- Cancel: magazyn/services/order_cancel.py. Refunds, the state at Allegro and corrections of invoices
--   are functions of the outside, whose calls are listed.
-- Refund: process_refund, process_bank_transfer_refund and check_refund_eligibility of
--   magazyn/services/return_refunds.py, with is_woo_order of domain/order_platform.py, over the tables
--   of Returns. The services of Allegro and WooCommerce are functions of the outside; the calls by
--   which money goes back are listed.
-- Scanning: check_and_auto_pack of magazyn/services/scanning.py. The session is a record, a value in it
--   is kept as int, float and str read it, and times count whole seconds.
-- Stocktake: the handlers of magazyn/blueprints/stocktake.py that change the tables, with
--   models/stocktakes.py, over the tables of Stock. A timestamp is a number, and the query for the
--   latest one takes the first row of those with the latest.
-- ItemEdit: edit_order_item_variant of magazyn/services/order_item_edit.py, over the tables of Stock and
--   OrderStatus. The texts of a product's family are kept stripped and in lower case.
-- PrintAgent: magazyn/services/print_agent_queue.py and `retry_call` and `enforce_rate_limit` of
--   print_agent_retry.py. The
--   callbacks are calls that may raise, depending on all calls before. The retry loop runs on fuel
--   `max_attempts + 1`, more than the calls it can make.
-- Witnesses: the theorems at concrete inputs, and tests.
--
-- Not modelled: the web pages and blueprints, the clients of the Allegro, InPost, wFirma and
-- WooCommerce interfaces, the scraper, statistics and reports, migrations and operation scripts.
-- These are input and output, translation of foreign data, or display.
-- Of scanning, the matching of a label's barcode to its order is left out.
pub mod Prelude
pub mod StatusConfig
pub mod OrderStatus
pub mod Decimal
pub mod Stock
mod Witnesses
pub mod Returns
pub mod Cancel
pub mod Refund
pub mod Scanning
pub mod Stocktake
pub mod ItemEdit
pub mod PrintAgent
