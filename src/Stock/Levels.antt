-- ===== src/Stock/Levels.antt =====
-- What holds of the stock tables between any two operations of magazyn/services/stock_records.py,
-- stock_adjust.py and return_stock.py.
use retrievershop_suite.Prelude.{
  ℕ, ◌==◌, ◌≡◌, refl, sym, Bool, arith, String, List, Option, some, none, find_first, update_first,
  All-find_first, subst,
}
use retrievershop_suite.Prelude.Int.{ℤ, pos, ◌-ℤ◌}
use retrievershop_suite.Decimal.{Decimal}
use retrievershop_suite.Stock.Rows.{ProductSize, Db, Sale, PurchaseBatch, is_at}
use retrievershop_suite.Stock.Records.{NumericColumn, SaleTerms, record_purchase, consume_stock}
use retrievershop_suite.Stock.Adjust.{
  Adjustment, AdjustResult, adjusted, failed, adjust_stock, adjust_found, apply_stock_adjustment,
  store_row, change_stock,
}
use retrievershop_suite.Stock.Adjusted.{IsValued, change_stock-IsValued}
use retrievershop_suite.Stock.Consistent.{
  IsConsistent, replace-IsValued, record_purchase-IsConsistent, consume_row-IsConsistent,
}
use retrievershop_suite.Stock.Restore.{restore_stock_for_return_item}
use retrievershop_suite.Stock.Returned.{restore_stock_for_return_item-safe, restore_nothing}

-- A correction that goes through keeps a row valued.
apply_stock_adjustment-IsValued :
    (column : NumericColumn) (ps : ProductSize) (set_to delta : Option ℤ) (price : Option Decimal)
    (a : Adjustment)
    → apply_stock_adjustment column ps set_to delta price ≡ adjusted a
    → IsValued ps
    → IsValued a.row
unfolding apply_stock_adjustment
apply_stock_adjustment-IsValued column ps none none price a h v = cc h
apply_stock_adjustment-IsValued column ps (some s) (some d) price a h v = cc h
apply_stock_adjustment-IsValued column ps (some s) none price a h v =
    let change = s -ℤ pos ps.quantity in
    let e : change_stock column ps change price ≡ a = cc in
    subst (λ x. IsValued x.row) e (change_stock-IsValued column ps change price v)
apply_stock_adjustment-IsValued column ps none (some d) price a h v =
    let e : change_stock column ps d price ≡ a = cc in
    subst (λ x. IsValued x.row) e (change_stock-IsValued column ps d price v)

store_row-IsConsistent :
    (db : Db) (ps : ProductSize) (a : Adjustment)
    → IsValued a.row
    → IsConsistent db
    → IsConsistent (store_row db ps a)
unfolding store_row
store_row-IsConsistent db ps a v c = record {
  valued = replace-IsValued (λ row. row.id == ps.id) a.row db.product_sizes v c.valued;
  returnable = c.returnable;
}

module _ (column : NumericColumn) (db : Db) (set_to delta : Option ℤ) (price : Option Decimal)
    (db' : Db) (old_qty new_qty : ℕ) (c : IsConsistent db) where
  pub adjust_found-IsConsistent :
      (o : Option ProductSize)
      → ((ps : ProductSize) → o ≡ some ps → IsValued ps)
      → adjust_found column db o set_to delta price ≡ adjusted (db', old_qty, new_qty)
      → IsConsistent db'
  unfolding adjust_found
  adjust_found-IsConsistent none found h = cc h
  adjust_found-IsConsistent (some ps) found h =
      by_result (apply_stock_adjustment column ps set_to delta price) refl h
    where
      by_result :
          (r : AdjustResult Adjustment)
          → apply_stock_adjustment column ps set_to delta price ≡ r
          → elim r as (λ _. AdjustResult (Db × ℕ × ℕ)) [
            | failed e ↦ failed e
            | adjusted a ↦ adjusted (store_row db ps a, a.old_qty, a.new_qty)
          ]
            ≡ adjusted (db', old_qty, new_qty)
          → IsConsistent db'
      by_result (failed e) s h = cc h
      by_result (adjusted a) s h =
          let e : store_row db ps a ≡ db' = cc in
          let v =
            apply_stock_adjustment-IsValued column ps set_to delta price a s (found ps refl) in
          subst IsConsistent e (store_row-IsConsistent db ps a v c)

-- The pieces of an item that come back: the row is found by its id or by its barcode.
unfoldable pub put_back : Db → (ProductSize → Bool) → Option String → ProductSize → ℕ → Db
put_back db p order_id ps quantity =
    let (row, sales', from_sales) = restore_stock_for_return_item order_id ps quantity db.sales in
    record db { product_sizes = update_first p (λ _. row) db.product_sizes; sales = sales' }

restored-IsValued :
    (order_id : Option String) (ps : ProductSize) (quantity : ℕ) (sales : List Sale)
    → IsValued ps
    → IsValued (restore_stock_for_return_item order_id ps quantity sales).0
restored-IsValued order_id ps quantity sales v e =
    let (total, _) = restore_stock_for_return_item-safe order_id ps quantity sales in
    let z : quantity ≡ 0 = omega arith in
    let none_back = restore_nothing order_id ps quantity sales (rw z refl) in
    subst (λ r. r.0.stock_value ≡ 0) (sym none_back) (v (omega arith))

put_back-IsConsistent :
    (db : Db) (p : ProductSize → Bool) (order_id : Option String) (ps : ProductSize) (quantity : ℕ)
    → find_first p db.product_sizes ≡ some ps
    → IsConsistent db
    → IsConsistent (put_back db p order_id ps quantity)
unfolding put_back
put_back-IsConsistent db p order_id ps quantity found c =
    let v = All-find_first IsValued p db.product_sizes ps c.valued found in
    record {
      valued =
          replace-IsValued p _ db.product_sizes (restored-IsValued order_id ps quantity db.sales v)
            c.valued;
      returnable =
          (restore_stock_for_return_item-safe order_id ps quantity db.sales).1 c.returnable;
    }

-- One operation on the stock tables.
pub data StockStep (column : NumericColumn) (db : Db) : Db → Type 0 where
  bought :
      (product_id : ℕ) (size : String) (quantity : ℕ) (price : Decimal) (batch : PurchaseBatch)
      → StockStep column db (record_purchase db product_id size quantity price batch)
  sold :
      (threshold product_id : ℕ) (size : String) (quantity : ℕ) (terms : SaleTerms)
      → StockStep column db (consume_stock column threshold db product_id size quantity terms).0
  corrected :
      (product_id : ℕ) (size : String) (set_to delta : Option ℤ) (price : Option Decimal) (db' : Db)
      (old_qty new_qty : ℕ)
      → adjust_stock column db product_id size set_to delta price ≡ adjusted (db', old_qty, new_qty)
      → StockStep column db db'
  returned :
      (p : ProductSize → Bool) (order_id : Option String) (ps : ProductSize) (quantity : ℕ)
      → find_first p db.product_sizes ≡ some ps
      → StockStep column db (put_back db p order_id ps quantity)

pub data StockRun (column : NumericColumn) (db : Db) : Db → Type 0 where
  start : StockRun column db db
  next : {db₁ db₂ : Db} → StockRun column db db₁ → StockStep column db₁ db₂ → StockRun column db db₂

StockStep-IsConsistent :
    {column : NumericColumn} {db db' : Db}
    → StockStep column db db'
    → IsConsistent db
    → IsConsistent db'
StockStep-IsConsistent {db = db} (bought product_id size quantity price batch) c =
    record_purchase-IsConsistent db product_id size quantity price batch c
StockStep-IsConsistent {column = column} {db = db} (sold threshold product_id size quantity terms)
      c =
    unfold consume_stock in
    consume_row-IsConsistent column threshold db product_id size quantity terms c
      (find_first (is_at product_id size) db.product_sizes)
StockStep-IsConsistent {column = column} {db = db}
      (corrected product_id size set_to delta price db' o n h) c =
    adjust_found-IsConsistent column db set_to delta price db' o n c
      (find_first (is_at product_id size) db.product_sizes)
      (λ ps e. All-find_first IsValued (is_at product_id size) db.product_sizes ps c.valued e)
      (unfold adjust_stock in h)
StockStep-IsConsistent {db = db} (returned p order_id ps quantity found) c =
    put_back-IsConsistent db p order_id ps quantity found c

-- Any deliveries, sales, corrections and returns, in any order, keep what the model of the tables
-- promises: a row without pieces has no value, and no sale counts more pieces back than it sold.
pub StockRun-IsConsistent :
    {column : NumericColumn} {db db' : Db}
    → StockRun column db db'
    → IsConsistent db
    → IsConsistent db'
StockRun-IsConsistent start c = c
StockRun-IsConsistent (next r s) c = StockStep-IsConsistent s (StockRun-IsConsistent r c)
