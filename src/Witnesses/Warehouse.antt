-- ===== src/Witnesses/Warehouse.antt =====
-- The warehouse (magazyn/services/stock_records.py, stock_adjust.py, return_stock.py).
use retrievershop_suite.Prelude.{
  ◌≡◌, ◌≢◌, ◌+◌, ◌*◌, ◌^◌, min, refl, String, none, some, [], ◌∷◌, ◌++◌, arith, ◌≤◌, find_first,
  sum_by, All,
}
use native.Mathlib.Nat.{one-le-pow}
use retrievershop_suite.Decimal.{Decimal, grosze, half_up, div, mul, sub, quantize}
use retrievershop_suite.Decimal.Rounding.{half_up-bounds, quantize-div}
use retrievershop_suite.Stock.Rows.{ProductSize, Db, Sale, PurchaseBatch, is_at}
use retrievershop_suite.Stock.Records.{
  NumericColumn, SaleTerms, purchase_share, take_out, consume_stock, record_purchase,
}
use retrievershop_suite.Stock.Value.{FitsColumns, take_out_conserves}
use retrievershop_suite.Stock.Selling.{IsSale, consume_stock_takes}
use retrievershop_suite.Stock.Adjusted.{IsValued}
use retrievershop_suite.Stock.Restore.{restore_stock_for_return_item}
use retrievershop_suite.Stock.Returned.{
  IsReturnable, open_pieces, restore_stock_for_return_item_lem,
}
use retrievershop_suite.Stock.Consistent.{IsConsistent}
use retrievershop_suite.Stock.Levels.{start, next, bought, sold, StockRun-IsConsistent}

-- A column that rounds halves up.
pub half_up_near :
    (d : Decimal)
    → (2 * (half_up (d.coeff * 100) (10 ^ d.places) * 10 ^ d.places)
        ≤ 2 * (d.coeff * 100) + 10 ^ d.places)
      × (2 * (d.coeff * 100)
          ≤ 2 * (half_up (d.coeff * 100) (10 ^ d.places) * 10 ^ d.places) + 10 ^ d.places)
half_up_near d =
    let (lo, hi) =
      half_up-bounds (d.coeff * 100) (10 ^ d.places) (one-le-pow d.places 10 (omega arith)) in
    (lo, omega arith)

abbrev pub column : NumericColumn
column = record { store = λ d. half_up (d.coeff * 100) (10 ^ d.places); store_near = half_up_near }

-- Three pieces worth 10.00 together.
abbrev row : ProductSize
row = record {
  id = 7;
  product_id = 1;
  size = "M";
  quantity = 3;
  stock_value = 1000;
  barcode = some "5901234123457";
  woo_variation_id = none;
}

abbrev db : Db
db = record {
  products = record { id = 1; name = "Szelki" } ∷ [];
  product_sizes = row ∷ [];
  purchase_batches = [];
  sales = [];
  pushes = [];
  alerts = [];
}

abbrev terms : SaleTerms
terms = record {
  sale_price = grosze 2999;
  shipping_cost = grosze 0;
  commission_fee = grosze 369;
  sale_date = "2026-01-02";
  order_id = some "allegro_1";
}

row-FitsColumns : FitsColumns row
row-FitsColumns = record {
  in_stock = omega arith;
  quantity_fits = omega arith;
  value_fits = omega arith;
}

quantize-div_example : quantize (div (grosze 1000) 3) ≡ half_up 1000 3
quantize-div_example = quantize-div 1000 3 (omega arith) (omega arith) (omega arith)

take_out_conserves_example :
    let cost = quantize (purchase_share row 1) in
    let after = take_out column row 1 in
    (after.quantity + 1 ≡ row.quantity)
    × (row.stock_value ≤ cost + after.stock_value)
    × (cost + after.stock_value ≤ row.stock_value + 1)
    × (1 ≡ row.quantity → (cost ≡ row.stock_value) × (after.stock_value ≡ 0))
take_out_conserves_example = take_out_conserves column row 1 row-FitsColumns (omega arith)

-- One of two pieces worth 0.01 together: the sale is charged 0.01, and 0.01 stays in stock.
grosz_appears :
    let pair = record row { quantity = 2; stock_value = 1 } in
    (quantize (purchase_share pair 1) ≡ 1) × ((take_out column pair 1).stock_value ≡ 1)
unfolding purchase_share take_out quantize div mul sub half_up
grosz_appears = (refl, refl)

consume_stock_takes_example :
    let result = consume_stock column 2 db 1 "M" 2 terms in
    (result.1 ≡ 2)
    × (find_first (is_at 1 "M") result.0.product_sizes ≡ some (take_out column row 2))
    × ((s : Sale) × (result.0.sales ≡ db.sales ++ s ∷ [])
        × IsSale 1 "M" 2 (half_up (row.stock_value * 2) row.quantity) terms s)
consume_stock_takes_example =
    consume_stock_takes column 2 db 1 "M" 2 terms row refl row-FitsColumns (omega arith)

row-IsValued : IsValued row
row-IsValued e = absurd (omega arith)

abbrev sale : Sale
sale = record {
  product_id = 1;
  size = "M";
  quantity = 2;
  sale_date = "2026-01-02";
  purchase_cost = 667;
  sale_price = 2999;
  shipping_cost = 0;
  commission_fee = 369;
  order_id = some "allegro_1";
  quantity_returned = 0;
}

named : ◌≢◌ {A = String} "allegro_1" ""
named e = cc

restore_stock_for_return_item_lem_example :
    let (after, sales', from_sales) =
      restore_stock_for_return_item (some "allegro_1") row 3 (sale ∷ []) in
    (after.quantity ≡ row.quantity + 3)
    × (from_sales ≡ min (open_pieces "allegro_1" row (sale ∷ [])) 3)
    × (sum_by (λ s. s.quantity_returned) sales'
        ≡ sum_by (λ s. s.quantity_returned) (sale ∷ []) + from_sales)
    × (All IsReturnable (sale ∷ []) → All IsReturnable sales')
restore_stock_for_return_item_lem_example =
    restore_stock_for_return_item_lem "allegro_1" row 3 (sale ∷ []) named

abbrev batch : PurchaseBatch
batch = record {
  product_id = 1;
  size = "M";
  quantity = 0;
  price = 0;
  purchase_date = "2026-01-01";
  barcode = none;
  invoice_number = none;
  supplier = none;
  notes = none;
}

db-IsConsistent : IsConsistent db
db-IsConsistent = record { valued = (row-IsValued, tt); returnable = tt }

StockRun-IsConsistent_example :
    IsConsistent
      (consume_stock column 2 (record_purchase db 1 "M" 5 (grosze 350) batch) 1 "M" 8 terms).0
StockRun-IsConsistent_example =
    StockRun-IsConsistent {column = column}
      (next (next start (bought 1 "M" 5 (grosze 350) batch)) (sold 2 1 "M" 8 terms)) db-IsConsistent
