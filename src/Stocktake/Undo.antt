-- ===== src/Stocktake/Undo.antt =====
-- What stocktake_undo takes back, and the requests as steps of the tally
-- (magazyn/blueprints/stocktake.py).
use retrievershop_suite.Prelude.{
  ℕ, ◌<◌, ◌≡◌, refl, sym, subst, arith, String, Option, none, some, List, [], ◌∷◌, true, not, ◌||◌,
  inl, inr, Bool-cases, Option-cases, str_eq, get_or, ltb, find_first, find_first_test,
}
use retrievershop_suite.Stocktake.Session.{
  Db, StocktakeItem, is_item, is_scanned, is_last, take_back, later_item, last_scanned, count_found,
  undo_item, has_status, has_stocktake_id, has_barcode, stocktake_barcode_scan, stocktake_undo,
}
use retrievershop_suite.Stocktake.Tally.{
  tally, TallyStep, scan, undo, takes, refuses, tally-update_first, own_count-take,
  count_item-TallyStep,
}

-- Some item is the last in the sense of the query.
abbrev HasLast : ℕ → StocktakeItem → List StocktakeItem → Type 0
HasLast id item xs = (a : StocktakeItem) × (find_first (is_last id item) xs ≡ some a)

HasLast-cons :
    (id : ℕ) (item x : StocktakeItem) (xs : List StocktakeItem)
    → HasLast id item xs
    → HasLast id item (x ∷ xs)
HasLast-cons id item x xs (a, e) = elim (Bool-cases (is_last id item x)) [
  | inl t ↦ (x, rw t refl)
  | inr u ↦ (a, rw u e)
]

HasLast-self :
    (id : ℕ) (x : StocktakeItem) (xs : List StocktakeItem)
    → is_scanned id x ≡ true
    → HasLast id x (x ∷ xs)
HasLast-self id x xs h = let t : is_last id x x ≡ true = rw h (ground arith) in (x, rw t refl)

later_item-HasLast :
    (id : ℕ) (x : StocktakeItem) (rest : Option StocktakeItem) (xs : List StocktakeItem)
    → is_scanned id x ≡ true
    → ((y : StocktakeItem) → rest ≡ some y → HasLast id y xs)
    → HasLast id (later_item x rest) (x ∷ xs)
later_item-HasLast id x none xs h found = HasLast-self id x xs h
later_item-HasLast id x (some y) xs h found =
    elim (Bool-cases (ltb (get_or x.scanned_at 0) (get_or y.scanned_at 0))) [
      | inl t ↦
          let e : later_item x (some y) ≡ y = rw t refl in
          subst (λ z. HasLast id z (x ∷ xs)) (sym e) (HasLast-cons id y x xs (found y refl))
      | inr u ↦
          let e : later_item x (some y) ≡ x = rw u refl in
          subst (λ z. HasLast id z (x ∷ xs)) (sym e) (HasLast-self id x xs h)
    ]

last_scanned-HasLast :
    (id : ℕ) (xs : List StocktakeItem) (item : StocktakeItem)
    → last_scanned id xs ≡ some item
    → HasLast id item xs
unfolding last_scanned
last_scanned-HasLast id [] item e = cc
last_scanned-HasLast id (x ∷ xs) item e = elim (Bool-cases (is_scanned id x)) [
  | inl t ↦
      let q : some (later_item x (last_scanned id xs)) ≡ some item = rw t at e in
      let same : later_item x (last_scanned id xs) ≡ item = cc in
      subst (λ y. HasLast id y (x ∷ xs)) same
        (later_item-HasLast id x (last_scanned id xs) xs t (last_scanned-HasLast id xs))
  | inr u ↦ HasLast-cons id item x xs (last_scanned-HasLast id xs item (rw u at e))
]

-- The item that is found has a piece to take back, of its own product size.
last-counted :
    (id : ℕ) (item a : StocktakeItem)
    → is_last id item a ≡ true
    → (is_item id a.product_size_id a ≡ true) × (0 < a.scanned_qty)
last-counted id item a h = (ground arith, ground arith)

undo_item-TallyStep :
    (id : ℕ) (db : Db) (o : Option StocktakeItem)
    → last_scanned id db.items ≡ o
    → TallyStep
        (tally id db.items)
        (tally id (undo_item id db o).0.items)
        undo
        (undo_item id db o).1
unfolding undo_item
undo_item-TallyStep id db none e = refuses _ _ refl (λ j. refl)
undo_item-TallyStep id db (some item) e =
    let found = last_scanned-HasLast id db.items item e in
    let a = found.0 in
    let h = last-counted id item a (find_first_test (is_last id item) db.items a found.1) in
    takes a.product_size_id (λ j. omega (
      arith,
      tally-update_first id (is_last id item) take_back db.items a j found.1,
      own_count-take id a.product_size_id j a h.0 h.1,
    ))

-- stocktake_barcode_scan is a step of the tally of the session: with an answer of counts one more
-- piece of one product size, otherwise none.
pub stocktake_barcode_scan-TallyStep :
    (now id : ℕ) (barcode : String) (db : Db)
    → TallyStep
        (tally id db.items)
        (tally id (stocktake_barcode_scan now id barcode db).0.items)
        scan
        (stocktake_barcode_scan now id barcode db).1
unfolding stocktake_barcode_scan count_found
stocktake_barcode_scan-TallyStep now id barcode db =
    elim (Bool-cases (
      str_eq barcode ""
      || not (has_status "in_progress" (find_first (has_stocktake_id id) db.stocktakes)))) [
        | inl t ↦ rw t (refuses _ _ refl (λ j. refl))
        | inr u ↦ elim (Option-cases (find_first (has_barcode barcode) db.stock.product_sizes)) [
          | inl e ↦ rw (u, e) (refuses _ _ refl (λ j. refl))
          | inr (ps, e) ↦
              rw (u, e)
                (count_item-TallyStep now id ps db (find_first (is_item id ps.id) db.items) refl)
        ]
      ]

-- stocktake_undo is a step of the tally of the session: with an answer of counts it takes back one
-- piece of a product size that had one, otherwise none.
pub stocktake_undo-TallyStep :
    (id : ℕ) (db : Db)
    → TallyStep
        (tally id db.items)
        (tally id (stocktake_undo id db).0.items)
        undo
        (stocktake_undo id db).1
unfolding stocktake_undo
stocktake_undo-TallyStep id db =
    elim (Bool-cases
      (not (has_status "in_progress" (find_first (has_stocktake_id id) db.stocktakes)))) [
        | inl t ↦ rw t (refuses _ _ refl (λ j. refl))
        | inr u ↦ rw u (undo_item-TallyStep id db (last_scanned id db.items) refl)
      ]
