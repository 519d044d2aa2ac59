-- ===== src/Stocktake/Counted.antt =====
-- The levels of the stock after a stocktake is applied (magazyn/blueprints/stocktake.py).
use retrievershop_suite.Prelude.{
  ℕ, ◌==◌, ==_iff, ◌≡◌, refl, sym, ap, subst, ◌∙◌, Option, none, some, List, [], ◌∷◌, Bool, true,
  false, not, ◌&&◌, if◌then◌else◌, inl, inr, Bool-cases, All, find_first, find_first_test,
  update_first, find_first-update_first, select,
}
use retrievershop_suite.Prelude.Int.{pos, ◌-ℤ◌}
use retrievershop_suite.Stock.Rows as StockRows
use retrievershop_suite.Stock.Records.{NumericColumn}
use retrievershop_suite.Stock.Adjust.{adjust_found, change_stock}
use retrievershop_suite.Stock.Adjusted.{change_stock_to, change_stock-id}
use retrievershop_suite.Stocktake.Session.{Db, StocktakeItem, is_item_of}
use retrievershop_suite.Stocktake.Closing.{keep_result, apply_item, apply_items, stocktake_apply}
use retrievershop_suite.Stocktake.Reapply.{is_finished}

abbrev pub quantity_of : Option StockRows.ProductSize → Option ℕ
quantity_of none = none
quantity_of (some row) = some row.quantity

-- The level of the row with the id, where it is there.
abbrev pub quantity_at : ℕ → List StockRows.ProductSize → Option ℕ
quantity_at id rows = quantity_of (find_first (λ row. row.id == id) rows)

-- The item counts the row, and its count differs from what was expected.
abbrev pub differs_at : ℕ → StocktakeItem → Bool
differs_at id item = not (item.scanned_qty == item.expected_qty) && item.product_size_id == id

-- The level that a count leaves: the pieces scanned, or the level before without such an item.
abbrev pub counted_level : Option StocktakeItem → ℕ → ℕ
counted_level none level = level
counted_level (some item) level = item.scanned_qty

-- No two items count the same row.
abbrev pub IsOnePerRow : List StocktakeItem → Type 0
IsOnePerRow [] = Unit
IsOnePerRow (item ∷ items) =
    All (λ x. (x.product_size_id == item.product_size_id) ≡ false) items × IsOnePerRow items

other_row :
    (id k : ℕ) (new : StockRows.ProductSize) (rows : List StockRows.ProductSize)
    → new.id ≡ k
    → (k == id) ≡ false
    → quantity_at id (update_first (λ row. row.id == k) (λ row. new) rows) ≡ quantity_at id rows
other_row id k new [] same other = refl
other_row id k new (x ∷ rows) same other = elim (Bool-cases (x.id == k)) [
  | inl t ↦
      let new_other : (new.id == id) ≡ false = rw same other in
      let old_other : (x.id == id) ≡ false = rw ((==_iff x.id k).0 t) other in
      rw (t, new_other, old_other) refl
  | inr u ↦ elim (Bool-cases (x.id == id)) [
    | inl t ↦ rw (u, t) refl
    | inr v ↦ rw (u, v) (other_row id k new rows same other)
  ]
]

this_row :
    (k : ℕ) (ps new : StockRows.ProductSize) (rows : List StockRows.ProductSize)
    → new.id ≡ ps.id
    → find_first (λ row. row.id == k) rows ≡ some ps
    → quantity_at k (update_first (λ row. row.id == k) (λ row. new) rows) ≡ some new.quantity
this_row k ps new rows same found = ap quantity_of (
    find_first-update_first (λ row. row.id == k) (λ row. new) rows ps (ap (λ n. n == k) same) found)

-- What one item does to the level of a row.
abbrev after_item : ℕ → StocktakeItem → ℕ → ℕ
after_item id item level =
    if item.scanned_qty == item.expected_qty
    then level
    else if item.product_size_id == id
    then item.scanned_qty
    else level

module _ (column : NumericColumn) (stock : StockRows.Db) (id : ℕ) where
  changed_row :
      (k n level : ℕ) (o : Option StockRows.ProductSize)
      → find_first (λ row. row.id == k) stock.product_sizes ≡ o
      → quantity_at id stock.product_sizes ≡ some level
      → quantity_at id
          (keep_result stock (adjust_found column stock o (some (pos n)) none none)).product_sizes
        ≡ some (if k == id then n else level)
  unfolding adjust_found
  changed_row k n level none found at = elim (Bool-cases (k == id)) [
    | inl t ↦
        let missing : find_first (λ row. row.id == id) stock.product_sizes ≡ none =
          subst (λ i. find_first (λ row. row.id == i) stock.product_sizes ≡ none)
            ((==_iff k id).0 t) found in
        let gone : none ≡ some level = sym (ap quantity_of missing) ∙ at in cc
    | inr u ↦ rw u at
  ]
  changed_row k n level (some ps) found at =
      let id_is : ps.id ≡ k =
        (==_iff ps.id k).0 (find_first_test (λ row. row.id == k) stock.product_sizes ps found) in
      let new = (change_stock column ps (pos n -ℤ pos ps.quantity) none).row in
      let kept : new.id ≡ ps.id = change_stock-id column ps (pos n -ℤ pos ps.quantity) none in
      subst
        (λ i.
          quantity_at id (update_first (λ row. row.id == i) (λ row. new) stock.product_sizes)
          ≡ some (if k == id then n else level))
        (sym id_is)
        (elim (Bool-cases (k == id)) [
          | inl t ↦ rw t (
              subst
                (λ i.
                  quantity_at i (update_first (λ row. row.id == k) (λ row. new) stock.product_sizes)
                  ≡ some n)
                ((==_iff k id).0 t)
                (this_row k ps new stock.product_sizes kept found
                  ∙ ap some (change_stock_to column ps n none)))
          | inr u ↦ rw u (other_row id k new stock.product_sizes (kept ∙ id_is) u ∙ at)
        ])

  apply_item-quantity_at :
      (item : StocktakeItem) (level : ℕ)
      → quantity_at id stock.product_sizes ≡ some level
      → quantity_at id (apply_item column stock item).product_sizes
        ≡ some (after_item id item level)
  unfolding apply_item
  apply_item-quantity_at item level at = elim (Bool-cases (item.scanned_qty == item.expected_qty)) [
    | inl t ↦ rw t at
    | inr u ↦ rw u (
        changed_row item.product_size_id item.scanned_qty level
          (find_first (λ row. row.id == item.product_size_id) stock.product_sizes) refl at)
  ]

not_counted :
    (id k : ℕ) (items : List StocktakeItem)
    → k ≡ id
    → All (λ x. (x.product_size_id == k) ≡ false) items
    → find_first (differs_at id) items ≡ none
not_counted id k [] same h = refl
not_counted id k (x ∷ items) same h =
    let other : (x.product_size_id == id) ≡ false =
      subst (λ i. (x.product_size_id == i) ≡ false) same h.0 in
    elim (Bool-cases (x.scanned_qty == x.expected_qty)) [
      | inl t ↦ rw t (not_counted id k items same h.1)
      | inr u ↦ rw (u, other) (not_counted id k items same h.1)
    ]

-- The count of the first item and then of the others is the count of the item that differs.
counted_level-after_item :
    (id : ℕ) (item : StocktakeItem) (items : List StocktakeItem) (level : ℕ)
    → IsOnePerRow (item ∷ items)
    → counted_level (find_first (differs_at id) items) (after_item id item level)
      ≡ counted_level (find_first (differs_at id) (item ∷ items)) level
counted_level-after_item id item items level one =
    elim (Bool-cases (item.scanned_qty == item.expected_qty)) [
      | inl t ↦ rw t refl
      | inr u ↦ elim (Bool-cases (item.product_size_id == id)) [
        | inr v ↦ rw (u, v) refl
        | inl t ↦
            let none_left =
              not_counted id item.product_size_id items ((==_iff item.product_size_id id).0 t)
                one.0 in
            rw (u, t, none_left) refl
      ]
    ]

apply_items-quantity_at :
    (column : NumericColumn) (id : ℕ) (items : List StocktakeItem) (stock : StockRows.Db)
    (level : ℕ)
    → IsOnePerRow items
    → quantity_at id stock.product_sizes ≡ some level
    → quantity_at id (apply_items column stock items).product_sizes
      ≡ some (counted_level (find_first (differs_at id) items) level)
unfolding apply_items
apply_items-quantity_at column id [] stock level one at = at
apply_items-quantity_at column id (item ∷ items) stock level one at =
    apply_items-quantity_at column id items (apply_item column stock item)
      (after_item id item level) one.1 (apply_item-quantity_at column stock id item level at)
    ∙ ap some (counted_level-after_item id item items level one)

-- After the application of a finished stocktake, in which no two items count one row, a row of the
-- stock has as many pieces as were scanned, if the stocktake has an item for it whose count differs
-- from the number expected, whatever was sold or delivered since the stocktake began; and as many
-- as before the application, if it has not.
pub stocktake_apply-quantity_at :
    (column : NumericColumn) (stocktake_id row_id : ℕ) (db : Db) (level : ℕ)
    → is_finished stocktake_id db.stocktakes ≡ true
    → IsOnePerRow (select (is_item_of stocktake_id) db.items)
    → quantity_at row_id db.stock.product_sizes ≡ some level
    → quantity_at row_id (stocktake_apply column stocktake_id db).stock.product_sizes
      ≡ some (
          counted_level
            (find_first (differs_at row_id) (select (is_item_of stocktake_id) db.items))
            level)
unfolding stocktake_apply
stocktake_apply-quantity_at column stocktake_id row_id db level finished one at = rw finished (
    apply_items-quantity_at column row_id (select (is_item_of stocktake_id) db.items) db.stock level
      one at)
