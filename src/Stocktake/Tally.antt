-- ===== src/Stocktake/Tally.antt =====
-- Scanning and undoing as steps of a tally (magazyn/blueprints/stocktake.py).
use retrievershop_suite.Prelude.{
  ℕ, ◌+◌, ◌-◌, ◌<◌, ◌==◌, ◌≡◌, refl, ap, subst, ◌∙◌, arith, Option, none, some, List, [], ◌∷◌, ◌++◌,
  Bool, true, false, inl, inr, Bool-cases, if◌then◌else◌, find_first, update_first, find_first_test,
}
use retrievershop_suite.Stock.Rows as StockRows
use retrievershop_suite.Stocktake.Session.{
  Db, Count, Response, redirect, bad_request, not_found, counted, StocktakeItem, is_item, scan_once,
  take_back, new_item, count_item,
}

-- How many pieces of a product size the session has counted.
unfoldable pub tally : ℕ → List StocktakeItem → ℕ → ℕ
tally id [] k = 0
tally id (x ∷ xs) k =
    let rest = tally id xs k in if is_item id k x then x.scanned_qty + rest else rest

pub data Request : Type 0 where
  scan undo : Request

abbrev pub is_refusal : Response → Bool
is_refusal (counted c) = false
is_refusal redirect = true
is_refusal bad_request = true
is_refusal not_found = true

-- A request to a tally: a scan that is counted adds a piece of some product size, an undo that is
-- counted takes one away, and a refusal leaves all counts.
pub data TallyStep (before after : ℕ → ℕ) : Request → Response → Type 0 where
  adds :
      {c : Count} (k : ℕ)
      → ((j : ℕ) → after j ≡ before j + (if k == j then 1 else 0))
      → TallyStep before after scan (counted c)
  takes :
      {c : Count} (k : ℕ)
      → ((j : ℕ) → after j + (if k == j then 1 else 0) ≡ before j)
      → TallyStep before after undo (counted c)
  refuses :
      (q : Request) (r : Response)
      → is_refusal r ≡ true
      → ((j : ℕ) → after j ≡ before j)
      → TallyStep before after q r

tally-append :
    (id : ℕ) (xs ys : List StocktakeItem) (j : ℕ)
    → tally id (xs ++ ys) j ≡ tally id xs j + tally id ys j
unfolding tally
tally-append id [] ys j = omega arith
tally-append id (x ∷ xs) ys j = elim (Bool-cases (is_item id j x)) [
  | inl t ↦ rw t (omega (arith, tally-append id xs ys j))
  | inr u ↦ rw u (tally-append id xs ys j)
]

self_eq : (n : ℕ) → (n == n) ≡ true
self_eq n = ground arith

-- The item of a product size counts for it alone.
counts_for : (id k j : ℕ) (x : StocktakeItem) → is_item id k x ≡ true → is_item id j x ≡ (k == j)
counts_for id k j x h = ground arith

abbrev own_count : ℕ → ℕ → StocktakeItem → ℕ
own_count id j x = if is_item id j x then x.scanned_qty else 0

tally-cons :
    (id : ℕ) (x : StocktakeItem) (xs : List StocktakeItem) (j : ℕ)
    → tally id (x ∷ xs) j ≡ own_count id j x + tally id xs j
unfolding tally
tally-cons id x xs j = elim (Bool-cases (is_item id j x)) [
  | inl t ↦ rw t refl
  | inr u ↦ rw u (omega arith)
]

-- Rewriting the item that is found exchanges its count.
pub tally-update_first :
    (id : ℕ) (p : StocktakeItem → Bool) (f : StocktakeItem → StocktakeItem)
    (xs : List StocktakeItem) (a : StocktakeItem) (j : ℕ)
    → find_first p xs ≡ some a
    → tally id (update_first p f xs) j + own_count id j a ≡ tally id xs j + own_count id j (f a)
tally-update_first id p f [] a j e = cc
tally-update_first id p f (x ∷ xs) a j e = elim (Bool-cases (p x)) [
  | inl t ↦
      let same : x ≡ a = ground (arith) in
      rw t (
        subst
          (λ y.
            tally id (f x ∷ xs) j + own_count id j y ≡ tally id (x ∷ xs) j + own_count id j (f y))
          same (omega (arith, tally-cons id (f x) xs j, tally-cons id x xs j)))
  | inr u ↦ rw u (
      omega (
        arith,
        tally-cons id x (update_first p f xs) j,
        tally-cons id x xs j,
        tally-update_first id p f xs a j (rw u at e),
      ))
]

own_count-scan :
    (id k j now : ℕ) (a : StocktakeItem)
    → is_item id k a ≡ true
    → own_count id j (scan_once now a) ≡ own_count id j a + (if k == j then 1 else 0)
own_count-scan id k j now a h = rw (counts_for id k j a h) (ground arith)

pub own_count-take :
    (id k j : ℕ) (a : StocktakeItem)
    → is_item id k a ≡ true
    → 0 < a.scanned_qty
    → own_count id j (take_back a) + (if k == j then 1 else 0) ≡ own_count id j a
own_count-take id k j a h some_scanned =
    rw (counts_for id k j a h) (by_test (k == j) a.scanned_qty some_scanned)
  where
    by_test :
        (b : Bool) (n : ℕ)
        → 0 < n
        → (if b then n - 1 else 0) + (if b then 1 else 0) ≡ (if b then n else 0)
    by_test true n h = omega (arith, h)
    by_test false n h = omega arith

new_item-tally :
    (now id j : ℕ) (ps : StockRows.ProductSize)
    → tally id (scan_once now (new_item id ps) ∷ []) j ≡ (if ps.id == j then 1 else 0)
unfolding tally
new_item-tally now id j ps = rw (self_eq id) refl

-- The answers of a scan.
pub count_item-TallyStep :
    (now id : ℕ) (ps : StockRows.ProductSize) (db : Db) (o : Option StocktakeItem)
    → find_first (is_item id ps.id) db.items ≡ o
    → TallyStep
        (tally id db.items)
        (tally id (count_item now id ps db o).0.items)
        scan
        (count_item now id ps db o).1
unfolding count_item
count_item-TallyStep now id ps db none e = adds ps.id (λ j.
    tally-append id db.items (scan_once now (new_item id ps) ∷ []) j
    ∙ ap (λ n. tally id db.items j + n) (new_item-tally now id j ps))
count_item-TallyStep now id ps db (some item) e = adds ps.id (λ j. omega (
  arith,
  tally-update_first id (is_item id ps.id) (scan_once now) db.items item j e,
  own_count-scan id ps.id j now item (find_first_test (is_item id ps.id) db.items item e),
))
