-- ===== src/Stocktake/Closing.antt =====
-- Finishing a stocktake and applying its counts (magazyn/blueprints/stocktake.py).
use retrievershop_suite.Prelude.{
  ℕ, ◌==◌, String, Option, none, some, List, [], ◌∷◌, not, if◌then◌else◌, is_truthy, find_first,
  select, update_first,
}
use retrievershop_suite.Prelude.Int.{pos}
use retrievershop_suite.Stock.Rows as StockRows
use retrievershop_suite.Stock.Records.{NumericColumn}
use retrievershop_suite.Stock.Adjust.{AdjustResult, adjust_found, adjusted, failed}
use retrievershop_suite.Stocktake.Session.{
  Db, Stocktake, StocktakeItem, has_status, has_stocktake_id, is_item_of,
}

abbrev pub finish_row : ℕ → Option String → Stocktake → Stocktake
finish_row now notes st = record st {
  status = "finished";
  finished_at = some now;
  notes = if is_truthy notes then notes else st.notes;
}

abbrev pub apply_row : Stocktake → Stocktake
apply_row st = record st { status = "applied" }

-- `stocktake_finish`: of the session with the id, whatever its status.
unfoldable pub stocktake_finish : ℕ → ℕ → Option String → Db → Db
stocktake_finish now stocktake_id notes db = record db {
  stocktakes = update_first (has_stocktake_id stocktake_id) (finish_row now notes) db.stocktakes;
}

abbrev pub keep_result : StockRows.Db → AdjustResult (StockRows.Db × ℕ × ℕ) → StockRows.Db
keep_result stock (failed e) = stock
keep_result stock (adjusted result) = result.0

-- An item whose count differs sets the level of its row, where the row is there.
unfoldable pub apply_item : NumericColumn → StockRows.Db → StocktakeItem → StockRows.Db
unfolding adjust_found
apply_item column stock item =
    let ps = find_first (λ row. row.id == item.product_size_id) stock.product_sizes in
    if item.scanned_qty == item.expected_qty
    then stock
    else keep_result stock (adjust_found column stock ps (some (pos item.scanned_qty)) none none)

unfoldable pub apply_items : NumericColumn → StockRows.Db → List StocktakeItem → StockRows.Db
unfolding apply_item
apply_items column stock [] = stock
apply_items column stock (item ∷ items) = apply_items column (apply_item column stock item) items

unfoldable pub stocktake_apply : NumericColumn → ℕ → Db → Db
unfolding apply_items
stocktake_apply column stocktake_id db =
    if not (has_status "finished" (find_first (has_stocktake_id stocktake_id) db.stocktakes))
    then db
    else record db {
      stocktakes = update_first (has_stocktake_id stocktake_id) apply_row db.stocktakes;
      stock = apply_items column db.stock (select (is_item_of stocktake_id) db.items);
    }
