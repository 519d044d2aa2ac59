-- ===== src/Stocktake/Apply.antt =====
-- The requests of a stocktake in any order, and applying one (magazyn/blueprints/stocktake.py).
use retrievershop_suite.Prelude.{
  ℕ, ◌==◌, ◌≡◌, refl, arith, String, Option, none, some, List, [], ◌∷◌, Bool, not, ◌||◌, inl, inr,
  Bool-cases, str_eq, find_first, All-find_first, select,
}
use retrievershop_suite.Prelude.Int.{ℤ}
use retrievershop_suite.Stock.Rows as StockRows
use retrievershop_suite.Stock.Records.{NumericColumn}
use retrievershop_suite.Stock.Adjust.{AdjustResult, adjust_found, adjusted, failed}
use retrievershop_suite.Stock.Adjusted.{IsValued}
use retrievershop_suite.Stock.Consistent.{IsConsistent}
use retrievershop_suite.Stock.Levels.{adjust_found-IsConsistent}
use retrievershop_suite.Stocktake.Session.{
  Db, StocktakeItem, is_in_progress, has_status, has_stocktake_id, is_item_of, count_item,
  count_found, undo_item, stocktake_new, stocktake_barcode_scan, stocktake_undo,
}
use retrievershop_suite.Stocktake.Closing.{
  stocktake_finish, finish_row, apply_row, keep_result, apply_item, apply_items, stocktake_apply,
}
use retrievershop_suite.Stocktake.Active.{IsSound, stocktake_new-IsSound, select-update_first}

-- Tables with other items only.
items-IsSound :
    (db : Db) (items : List StocktakeItem) → IsSound db → IsSound (record db { items = items })
items-IsSound db items h = record { one_open = h.one_open; consistent = h.consistent }

count_item-IsSound :
    (now id : ℕ) (ps : StockRows.ProductSize) (db : Db) (o : Option StocktakeItem)
    → IsSound db
    → IsSound (count_item now id ps db o).0
unfolding count_item
count_item-IsSound now id ps db none h = items-IsSound db _ h
count_item-IsSound now id ps db (some item) h = items-IsSound db _ h

count_found-IsSound :
    (now id : ℕ) (db : Db) (o : Option StockRows.ProductSize)
    → IsSound db
    → IsSound (count_found now id db o).0
unfolding count_found
count_found-IsSound now id db none h = h
count_found-IsSound now id db (some ps) h = count_item-IsSound now id ps db _ h

scan-IsSound :
    (now id : ℕ) (barcode : String) (db : Db)
    → IsSound db
    → IsSound (stocktake_barcode_scan now id barcode db).0
unfolding stocktake_barcode_scan
scan-IsSound now id barcode db h =
    elim (Bool-cases (
      str_eq barcode ""
      || not (has_status "in_progress" (find_first (has_stocktake_id id) db.stocktakes)))) [
        | inl t ↦ rw t h
        | inr u ↦ rw u (count_found-IsSound now id db _ h)
      ]

undo_item-IsSound :
    (id : ℕ) (db : Db) (o : Option StocktakeItem) → IsSound db → IsSound (undo_item id db o).0
unfolding undo_item
undo_item-IsSound id db none h = h
undo_item-IsSound id db (some item) h = items-IsSound db _ h

undo-IsSound : (id : ℕ) (db : Db) → IsSound db → IsSound (stocktake_undo id db).0
unfolding stocktake_undo
undo-IsSound id db h =
    elim (Bool-cases
      (not (has_status "in_progress" (find_first (has_stocktake_id id) db.stocktakes)))) [
        | inl t ↦ rw t h
        | inr u ↦ rw u (undo_item-IsSound id db _ h)
      ]

finish-IsSound :
    (now id : ℕ) (notes : Option String) (db : Db)
    → IsSound db
    → IsSound (stocktake_finish now id notes db)
unfolding stocktake_finish
finish-IsSound now id notes db h = record {
  one_open = omega (
    arith,
    h.one_open,
    select-update_first is_in_progress (has_stocktake_id id) (finish_row now notes) db.stocktakes
        (λ st. refl),
  );
  consistent = h.consistent;
}

module _ (column : NumericColumn) where
  keep_result-IsConsistent :
      (stock : StockRows.Db) (ps : Option StockRows.ProductSize) (level : Option ℤ)
      (r : AdjustResult (StockRows.Db × ℕ × ℕ))
      → ((row : StockRows.ProductSize) → ps ≡ some row → IsValued row)
      → adjust_found column stock ps level none none ≡ r
      → IsConsistent stock
      → IsConsistent (keep_result stock r)
  keep_result-IsConsistent stock ps level (failed e) found h c = c
  keep_result-IsConsistent stock ps level (adjusted (stock', old_qty, new_qty)) found h c =
      adjust_found-IsConsistent column stock level none none stock' old_qty new_qty c ps found h

  apply_item-IsConsistent :
      (stock : StockRows.Db) (item : StocktakeItem)
      → IsConsistent stock
      → IsConsistent (apply_item column stock item)
  unfolding apply_item
  apply_item-IsConsistent stock item c = elim (Bool-cases (item.scanned_qty == item.expected_qty)) [
    | inl t ↦ rw t c
    | inr u ↦
        let q : StockRows.ProductSize → Bool = λ row. row.id == item.product_size_id in
        rw u (
          keep_result-IsConsistent stock (find_first q stock.product_sizes) _ _
            (λ row e. All-find_first IsValued q stock.product_sizes row c.valued e) refl c)
  ]

  apply_items-IsConsistent :
      (stock : StockRows.Db) (items : List StocktakeItem)
      → IsConsistent stock
      → IsConsistent (apply_items column stock items)
  unfolding apply_items
  apply_items-IsConsistent stock [] c = c
  apply_items-IsConsistent stock (item ∷ items) c =
      apply_items-IsConsistent (apply_item column stock item) items
        (apply_item-IsConsistent stock item c)

  apply-IsSound : (id : ℕ) (db : Db) → IsSound db → IsSound (stocktake_apply column id db)
  unfolding stocktake_apply
  apply-IsSound id db h =
      elim (Bool-cases
        (not (has_status "finished" (find_first (has_stocktake_id id) db.stocktakes)))) [
          | inl t ↦ rw t h
          | inr u ↦ rw u (record {
            one_open = omega (
              arith,
              h.one_open,
              select-update_first is_in_progress (has_stocktake_id id) apply_row db.stocktakes
                  (λ st. refl),
            );
            consistent =
                apply_items-IsConsistent db.stock (select (is_item_of id) db.items) h.consistent;
          })
        ]

-- One request of a stocktake.
pub data StocktakeStep (column : NumericColumn) (db : Db) : Db → Type 0 where
  begins : (id : ℕ) (user_id : Option ℕ) → StocktakeStep column db (stocktake_new id user_id db)
  scans :
      (now id : ℕ) (barcode : String)
      → StocktakeStep column db (stocktake_barcode_scan now id barcode db).0
  undoes : (id : ℕ) → StocktakeStep column db (stocktake_undo id db).0
  finishes :
      (now id : ℕ) (notes : Option String)
      → StocktakeStep column db (stocktake_finish now id notes db)
  applies : (id : ℕ) → StocktakeStep column db (stocktake_apply column id db)

pub data StocktakeRun (column : NumericColumn) (db : Db) : Db → Type 0 where
  start : StocktakeRun column db db
  next :
      {db₁ db₂ : Db}
      → StocktakeRun column db db₁
      → StocktakeStep column db₁ db₂
      → StocktakeRun column db db₂

step-IsSound :
    (column : NumericColumn) (db db' : Db) → StocktakeStep column db db' → IsSound db → IsSound db'
step-IsSound column db _ (begins id user_id) h = stocktake_new-IsSound id user_id db h
step-IsSound column db _ (scans now id barcode) h = scan-IsSound now id barcode db h
step-IsSound column db _ (undoes id) h = undo-IsSound id db h
step-IsSound column db _ (finishes now id notes) h = finish-IsSound now id notes db h
step-IsSound column db _ (applies id) h = apply-IsSound column id db h

-- Whatever requests of a stocktake follow one another, beginning, scanning, undoing, finishing or
-- applying: at most one session is in progress, a row of the stock without pieces has no value, and
-- no sale counts more pieces back than it sold, if that was so before.
pub StocktakeRun-IsSound :
    (column : NumericColumn) (db db' : Db) → StocktakeRun column db db' → IsSound db → IsSound db'
StocktakeRun-IsSound column db _ start h = h
StocktakeRun-IsSound column db _ (next {db₁ = db₁} {db₂ = db₂} run step) h =
    step-IsSound column db₁ db₂ step (StocktakeRun-IsSound column db db₁ run h)
