-- ===== src/Stocktake/Reapply.antt =====
-- A stocktake that was applied stays applied until it is finished again
-- (magazyn/blueprints/stocktake.py).
use retrievershop_suite.Prelude.{
  ℕ, ◌==◌, ==_iff, ◌≡◌, refl, ap, ◌∙◌, String, Option, none, some, List, [], ◌∷◌, ◌++◌, Bool, true,
  false, not, ◌||◌, inl, inr, Bool-cases, str_eq, is_some, find_first, update_first,
  find_first-update_first,
}
use retrievershop_suite.Stock.Rows as StockRows
use retrievershop_suite.Stock.Records.{NumericColumn}
use retrievershop_suite.Stocktake.Session.{
  Db, Stocktake, StocktakeItem, is_in_progress, has_status, has_stocktake_id, count_item,
  count_found, undo_item, stocktake_new, stocktake_barcode_scan, stocktake_undo,
}
use retrievershop_suite.Stocktake.Closing.{stocktake_finish, finish_row, apply_row, stocktake_apply}
use retrievershop_suite.Stocktake.Apply.{StocktakeStep, begins, scans, undoes, finishes, applies}

-- The session found with the id is "finished", which an application asks for.
abbrev pub is_finished : ℕ → List Stocktake → Bool
is_finished id stocktakes = has_status "finished" (find_first (has_stocktake_id id) stocktakes)

-- A request that finishes the stocktake with the id.
abbrev pub finishes_it :
    {column : NumericColumn} {db db' : Db} → ℕ → StocktakeStep column db db' → Bool
finishes_it id (begins k user_id) = false
finishes_it id (scans now k barcode) = false
finishes_it id (undoes k) = false
finishes_it id (finishes now k notes) = k == id
finishes_it id (applies k) = false

-- Requests of stocktakes in any order, none of which finishes the one with the id.
pub data LaterRun (column : NumericColumn) (id : ℕ) (db : Db) : Db → Type 0 where
  at_once : LaterRun column id db db
  after :
      {db₁ db₂ : Db}
      → LaterRun column id db db₁
      → (step : StocktakeStep column db₁ db₂) → finishes_it id step ≡ false
      → LaterRun column id db db₂

is_finished-append :
    (id : ℕ) (xs : List Stocktake) (st : Stocktake)
    → st.status ≡ "in_progress"
    → is_finished id xs ≡ false
    → is_finished id (xs ++ (st ∷ [])) ≡ false
is_finished-append id [] st e h = elim (Bool-cases (st.id == id)) [
  | inl t ↦ rw (t, e) refl
  | inr u ↦ rw u refl
]
is_finished-append id (x ∷ xs) st e h = elim (Bool-cases (x.id == id)) [
  | inl t ↦ rw t (rw t at h)
  | inr u ↦ rw u (is_finished-append id xs st e (rw u at h))
]

is_finished-apply :
    (id k : ℕ) (xs : List Stocktake)
    → is_finished id xs ≡ false
    → is_finished id (update_first (has_stocktake_id k) apply_row xs) ≡ false
is_finished-apply id k [] h = refl
is_finished-apply id k (x ∷ xs) h = elim (Bool-cases (x.id == k)) [
  | inl s ↦ elim (Bool-cases (x.id == id)) [
    | inl t ↦ rw (s, t) refl
    | inr u ↦ rw (s, u) (rw u at h)
  ]
  | inr s ↦ elim (Bool-cases (x.id == id)) [
    | inl t ↦ rw (s, t) (rw t at h)
    | inr u ↦ rw (s, u) (is_finished-apply id k xs (rw u at h))
  ]
]

other_id : (x k id : ℕ) → (k == id) ≡ false → (x == k) ≡ true → (x == id) ≡ false
other_id x k id h s = rw ((==_iff x k).0 s) h

is_finished-finish :
    (now : ℕ) (notes : Option String) (id k : ℕ) (xs : List Stocktake)
    → (k == id) ≡ false
    → is_finished id (update_first (has_stocktake_id k) (finish_row now notes) xs)
      ≡ is_finished id xs
is_finished-finish now notes id k [] h = refl
is_finished-finish now notes id k (x ∷ xs) h = elim (Bool-cases (x.id == k)) [
  | inl s ↦ rw (s, other_id x.id k id h s) refl
  | inr s ↦ elim (Bool-cases (x.id == id)) [
    | inl t ↦ rw (s, t) refl
    | inr u ↦ rw (s, u) (is_finished-finish now notes id k xs h)
  ]
]

count_found-stocktakes :
    (now id : ℕ) (db : Db) (o : Option StockRows.ProductSize)
    → (count_found now id db o).0.stocktakes ≡ db.stocktakes
unfolding count_found
count_found-stocktakes now id db none = refl
count_found-stocktakes now id db (some ps) = count_item-stocktakes _
  where
    count_item-stocktakes :
        (o : Option StocktakeItem) → (count_item now id ps db o).0.stocktakes ≡ db.stocktakes
    count_item-stocktakes none = refl
    count_item-stocktakes (some item) = refl

scan-stocktakes :
    (now id : ℕ) (barcode : String) (db : Db)
    → (stocktake_barcode_scan now id barcode db).0.stocktakes ≡ db.stocktakes
unfolding stocktake_barcode_scan
scan-stocktakes now id barcode db =
    elim (Bool-cases (
      str_eq barcode ""
      || not (has_status "in_progress" (find_first (has_stocktake_id id) db.stocktakes)))) [
        | inl t ↦ rw t refl
        | inr u ↦ rw u (count_found-stocktakes now id db _)
      ]

undo_item-stocktakes :
    (id : ℕ) (db : Db) (o : Option StocktakeItem) → (undo_item id db o).0.stocktakes ≡ db.stocktakes
unfolding undo_item
undo_item-stocktakes id db none = refl
undo_item-stocktakes id db (some item) = refl

undo-stocktakes : (id : ℕ) (db : Db) → (stocktake_undo id db).0.stocktakes ≡ db.stocktakes
unfolding stocktake_undo
undo-stocktakes id db =
    elim (Bool-cases
      (not (has_status "in_progress" (find_first (has_stocktake_id id) db.stocktakes)))) [
        | inl t ↦ rw t refl
        | inr u ↦ rw u (undo_item-stocktakes id db _)
      ]

new-closed :
    (id k : ℕ) (user_id : Option ℕ) (db : Db)
    → is_finished id db.stocktakes ≡ false
    → is_finished id (stocktake_new k user_id db).stocktakes ≡ false
unfolding stocktake_new
new-closed id k user_id db h =
    elim (Bool-cases (is_some (find_first is_in_progress db.stocktakes))) [
      | inl t ↦ rw t h
      | inr u ↦ rw u (is_finished-append id db.stocktakes _ refl h)
    ]

apply-closed :
    (column : NumericColumn) (id k : ℕ) (db : Db)
    → is_finished id db.stocktakes ≡ false
    → is_finished id (stocktake_apply column k db).stocktakes ≡ false
unfolding stocktake_apply
apply-closed column id k db h =
    elim (Bool-cases
      (not (has_status "finished" (find_first (has_stocktake_id k) db.stocktakes)))) [
        | inl t ↦ rw t h
        | inr u ↦ rw u (is_finished-apply id k db.stocktakes h)
      ]

step-closed :
    (column : NumericColumn) (id : ℕ) (db db' : Db) (step : StocktakeStep column db db')
    → finishes_it id step ≡ false
    → is_finished id db.stocktakes ≡ false
    → is_finished id db'.stocktakes ≡ false
unfolding stocktake_finish
step-closed column id db _ (begins k user_id) other h = new-closed id k user_id db h
step-closed column id db _ (scans now k barcode) other h =
    ap (is_finished id) (scan-stocktakes now k barcode db) ∙ h
step-closed column id db _ (undoes k) other h = ap (is_finished id) (undo-stocktakes k db) ∙ h
step-closed column id db _ (finishes now k notes) other h =
    is_finished-finish now notes id k db.stocktakes other ∙ h
step-closed column id db _ (applies k) other h = apply-closed column id k db h

run-closed :
    (column : NumericColumn) (id : ℕ) (db db' : Db)
    → LaterRun column id db db'
    → is_finished id db.stocktakes ≡ false
    → is_finished id db'.stocktakes ≡ false
run-closed column id db _ at_once h = h
run-closed column id db _ (after {db₁ = db₁} {db₂ = db₂} run step other) h =
    step-closed column id db₁ db₂ step other (run-closed column id db db₁ run h)

finished_found :
    (o : Option Stocktake) → has_status "finished" o ≡ true → (st : Stocktake) × (o ≡ some st)
finished_found none e = cc
finished_found (some st) e = (st, refl)

applied_status :
    (column : NumericColumn) (id : ℕ) (db : Db)
    → is_finished id (stocktake_apply column id db).stocktakes ≡ false
unfolding stocktake_apply
applied_status column id db =
    elim (Bool-cases (has_status "finished" (find_first (has_stocktake_id id) db.stocktakes))) [
      | inr u ↦ rw u u
      | inl t ↦
          let found = finished_found (find_first (has_stocktake_id id) db.stocktakes) t in
          rw t (
            ap (has_status "finished") (
              find_first-update_first (has_stocktake_id id) apply_row db.stocktakes found.0 refl
                found.1))
    ]

refused-same :
    (column : NumericColumn) (id : ℕ) (db : Db)
    → is_finished id db.stocktakes ≡ false
    → stocktake_apply column id db ≡ db
unfolding stocktake_apply
refused-same column id db e = rw e refl

-- After a request to apply a stocktake, and after whatever further requests of stocktakes, beginning,
-- scanning, undoing, applying, or finishing another one, a request to apply the same stocktake
-- changes nothing: neither a status nor the stock. Only finishing that stocktake once more in between
-- is left out.
pub stocktake_apply_once :
    (column column' : NumericColumn) (id : ℕ) (db db' : Db)
    → LaterRun column id (stocktake_apply column id db) db'
    → stocktake_apply column' id db' ≡ db'
stocktake_apply_once column column' id db db' run =
    refused-same column' id db'
      (run-closed column id (stocktake_apply column id db) db' run (applied_status column id db))
