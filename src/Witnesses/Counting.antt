-- ===== src/Witnesses/Counting.antt =====
-- A stocktake of two rows (magazyn/blueprints/stocktake.py).
use retrievershop_suite.Prelude.{◌≡◌, refl, arith, none, some, [], ◌∷◌}
use retrievershop_suite.Stock.Rows as StockRows
use retrievershop_suite.Stocktake.Session.{
  Db, stocktake_new, stocktake_barcode_scan, stocktake_undo, count_found, count_item, undo_item,
  last_scanned,
}
use retrievershop_suite.Stocktake.Closing.{stocktake_finish, stocktake_apply}
use retrievershop_suite.Stocktake.Tally.{tally, TallyStep, scan, undo}
use retrievershop_suite.Stocktake.Undo.{stocktake_barcode_scan-TallyStep, stocktake_undo-TallyStep}
use retrievershop_suite.Stocktake.Active.{IsSound}
use retrievershop_suite.Stocktake.Apply.{
  start, next, begins, undoes, finishes, applies, StocktakeRun-IsSound,
}
use retrievershop_suite.Stocktake.Counted.{quantity_at, stocktake_apply-quantity_at}
use retrievershop_suite.Stocktake.Reapply.{at_once, after, stocktake_apply_once}
use retrievershop_suite.Witnesses.Warehouse.{column}

abbrev scarf_row : StockRows.ProductSize
scarf_row = record {
  id = 1;
  product_id = 1;
  size = "M";
  quantity = 3;
  stock_value = 1000;
  barcode = some "590";
  woo_variation_id = none;
}

abbrev hat_row : StockRows.ProductSize
hat_row = record {
  id = 2;
  product_id = 2;
  size = "M";
  quantity = 1;
  stock_value = 500;
  barcode = some "591";
  woo_variation_id = none;
}

abbrev shelf : Db
shelf = record {
  stocktakes = [];
  items = [];
  stock = record {
    products = [];
    product_sizes = scarf_row ∷ hat_row ∷ [];
    purchase_batches = [];
    sales = [];
    pushes = [];
    alerts = [];
  };
}

abbrev begun : Db
begun = stocktake_new 4 none shelf

-- A scarf, a hat and a scarf are scanned.
abbrev scanned : Db
scanned =
    (stocktake_barcode_scan 12 4 "590"
      (stocktake_barcode_scan 11 4 "591" (stocktake_barcode_scan 10 4 "590" begun).0).0).0

scanned_counts : (tally 4 scanned.items 1 ≡ 2) × (tally 4 scanned.items 2 ≡ 1)
unfolding stocktake_new stocktake_barcode_scan count_found count_item tally
scanned_counts = (refl, refl)

-- Undone twice, both pieces are taken from the scarves, though the scan before the last was a hat.
undone_twice :
    let db = (stocktake_undo 4 (stocktake_undo 4 scanned).0).0 in
    (tally 4 db.items 1 ≡ 0) × (tally 4 db.items 2 ≡ 1)
unfolding stocktake_new stocktake_barcode_scan count_found count_item tally stocktake_undo undo_item
    last_scanned
undone_twice = (refl, refl)

stocktake_barcode_scan-TallyStep_example :
    TallyStep
      (tally 4 begun.items)
      (tally 4 (stocktake_barcode_scan 10 4 "590" begun).0.items)
      scan
      (stocktake_barcode_scan 10 4 "590" begun).1
stocktake_barcode_scan-TallyStep_example = stocktake_barcode_scan-TallyStep 10 4 "590" begun

stocktake_undo-TallyStep_example :
    TallyStep
      (tally 4 scanned.items)
      (tally 4 (stocktake_undo 4 scanned).0.items)
      undo
      (stocktake_undo 4 scanned).1
stocktake_undo-TallyStep_example = stocktake_undo-TallyStep 4 scanned

abbrev closed : Db
closed = stocktake_finish 20 4 none (stocktake_undo 4 begun).0

shelf-IsSound : IsSound shelf
shelf-IsSound = record {
  one_open = omega arith;
  consistent = record { valued = (λ e. cc, (λ e. cc, tt)); returnable = tt };
}

StocktakeRun-IsSound_example : IsSound (stocktake_apply column 4 closed)
StocktakeRun-IsSound_example =
    StocktakeRun-IsSound column shelf (stocktake_apply column 4 closed)
      (next (next (next (next start (begins 4 none)) (undoes 4)) (finishes 20 4 none)) (applies 4))
      shelf-IsSound

abbrev later : Db
later = stocktake_finish 30 5 none (stocktake_new 5 none (stocktake_apply column 4 closed))

stocktake_apply_once_example : stocktake_apply column 4 later ≡ later
stocktake_apply_once_example =
    stocktake_apply_once column column 4 closed later
      (after (after at_once (begins 5 none) refl) (finishes 30 5 none) refl)

-- Of the three scarves one was scanned, of the one hat one.
abbrev recounted : Db
recounted =
    stocktake_finish 20 4 none
      (stocktake_barcode_scan 11 4 "591" (stocktake_barcode_scan 10 4 "590" begun).0).0

stocktake_apply-quantity_at_example :
    quantity_at 1 (stocktake_apply column 4 recounted).stock.product_sizes ≡ some 1
unfolding stocktake_new stocktake_barcode_scan count_found count_item stocktake_finish
stocktake_apply-quantity_at_example =
    stocktake_apply-quantity_at column 4 1 recounted 3 refl ((refl, tt), (tt, tt)) refl
