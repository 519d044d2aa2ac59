-- ===== src/Stock/Returned.antt =====
-- What `_restore_stock_for_return_item` of magazyn/services/return_stock.py puts back.
use retrievershop_suite.Prelude.{
  ℕ, ◌+◌, ◌≤◌, ◌≡◌, ◌≢◌, refl, ◌∙◌, min, true, false, arith, inl, inr, Bool-cases, if◌then◌else◌,
  Option, some, none, String, List, ◌∷◌, [], sum_by, All, ◌==◌, str_eq,
}
use text.Mathlib.TextEquality.{eq_iff}
use retrievershop_suite.Stock.Rows.{ProductSize, Sale}
use retrievershop_suite.Stock.Restore.{
  Restoring, restore_sale, restore_sales, restore_rest, restore_by_order, is_sale_of, returnable,
  restore_stock_for_return_item,
}

-- No more pieces of a sale have come back than were sold.
abbrev pub IsReturnable : Sale → Type 0
IsReturnable sale = sale.quantity_returned ≤ sale.quantity

-- The pieces of the order's sales of this product and size that have not come back.
abbrev pub open_pieces : String → ProductSize → List Sale → ℕ
open_pieces order_id ps =
    sum_by (λ sale. if is_sale_of order_id ps sale then returnable sale else 0)

-- The pieces placed so far and those still to place add up, in the loop's counters and in the row.
record Keeps (r r' : Restoring) (taken : ℕ) : Type 0 where
  placed : r'.restored_from_sales ≡ r.restored_from_sales + taken
  left : r'.remaining + taken ≡ r.remaining
  stocked : r'.row.quantity ≡ r.row.quantity + taken

-- One sale takes what it can of the pieces left.
restore_sale_lem :
    (r : Restoring) (sale : Sale)
    → let (r', sale') = restore_sale r sale in
      let taken = min (returnable sale) r.remaining in
      Keeps r r' taken
      × (sale'.quantity_returned ≡ sale.quantity_returned + taken)
      × (sale'.quantity ≡ sale.quantity)
unfolding restore_sale
restore_sale_lem r sale = ground arith

-- A sale that the loop looks at, or passes over.
abbrev visit : String → ProductSize → Restoring → Sale → Restoring × Sale
visit order_id ps r sale = if is_sale_of order_id ps sale then restore_sale r sale else (r, sale)

abbrev open_of : String → ProductSize → Sale → ℕ
open_of order_id ps sale = if is_sale_of order_id ps sale then returnable sale else 0

visit_lem :
    (order_id : String) (ps : ProductSize) (r : Restoring) (sale : Sale)
    → let (r', sale') = visit order_id ps r sale in
      let taken = min (open_of order_id ps sale) r.remaining in
      Keeps r r' taken
      × (sale'.quantity_returned ≡ sale.quantity_returned + taken)
      × (sale'.quantity ≡ sale.quantity)
visit_lem order_id ps r sale = elim (Bool-cases (is_sale_of order_id ps sale)) [
  | inl mine ↦ rw mine (restore_sale_lem r sale)
  | inr other ↦ rw other (
    record { placed = omega arith; left = omega arith; stocked = omega arith },
    omega arith,
    refl,
  )
]

open_of-le :
    (order_id : String) (ps : ProductSize) (sale : Sale)
    → open_of order_id ps sale ≤ returnable sale
open_of-le order_id ps sale = ground arith

-- What the loop over the sales comes to.
record Placed (r r' : Restoring) (sales sales' : List Sale) (pieces : ℕ) : Type 0 where
  keeps : Keeps r r' (min pieces r.remaining)
  counted :
      sum_by (λ s. s.quantity_returned) sales'
      ≡ sum_by (λ s. s.quantity_returned) sales + min pieces r.remaining
  bounded : All IsReturnable sales → All IsReturnable sales'

restore_sales-Placed :
    (order_id : String) (ps : ProductSize) (r : Restoring) (sales : List Sale)
    → let (r', sales') = restore_sales order_id ps r sales in
      Placed r r' sales sales' (open_pieces order_id ps sales)
unfolding restore_sales
restore_sales-Placed order_id ps r [] = record {
  keeps = record { placed = omega arith; left = omega arith; stocked = omega arith };
  counted = omega arith;
  bounded = λ h. tt;
}
restore_sales-Placed order_id ps r (sale ∷ sales) =
    let (r', sale') = visit order_id ps r sale in
    let (k, more, same) = visit_lem order_id ps r sale in
    let ih = restore_sales-Placed order_id ps r' sales in
    record {
      keeps = record {
        placed = omega (arith, k.placed, k.left, ih.keeps.placed);
        left = omega (arith, k.left, ih.keeps.left);
        stocked = omega (arith, k.left, k.stocked, ih.keeps.stocked);
      };
      counted = omega (arith, k.left, ih.counted, more);
      bounded = λ h. (omega (arith, open_of-le order_id ps sale, h.0, more, same), ih.bounded h.1);
    }

restore_rest-quantity : (r : Restoring) → (restore_rest r).quantity ≡ r.row.quantity + r.remaining
unfolding restore_rest
restore_rest-quantity r = ground arith

zero_of : (n : ℕ) → (n == 0) ≡ true → n ≡ 0
zero_of n h = ground arith

pub restore_nothing :
    (order_id : Option String) (ps : ProductSize) (quantity : ℕ) (sales : List Sale)
    → (quantity == 0) ≡ true
    → restore_stock_for_return_item order_id ps quantity sales ≡ (ps, sales, 0)
unfolding restore_stock_for_return_item
restore_nothing order_id ps quantity sales h = rw h

restore_something :
    (order_id : String) (ps : ProductSize) (quantity : ℕ) (sales : List Sale)
    → order_id ≢ ""
    → (quantity == 0) ≡ false
    → let start : Restoring = record { row = ps; remaining = quantity; restored_from_sales = 0 } in
      let (r, sales') = restore_sales order_id ps start sales in
      restore_stock_for_return_item (some order_id) ps quantity sales
      ≡ (restore_rest r, sales', r.restored_from_sales)
unfolding restore_stock_for_return_item
restore_something order_id ps quantity sales named h =
    let not_empty : str_eq order_id "" ≡ false = ground (arith, eq_iff order_id "") in
    rw (h, not_empty)

-- Pieces that come back for an order all go into stock. Those covered by the order's sales of the
-- product and size, as many as have not come back before, are counted on those sales and
-- returned; no sale ever counts more pieces back than it sold, if none did before.
pub restore_stock_for_return_item_lem :
    (order_id : String) (ps : ProductSize) (quantity : ℕ) (sales : List Sale)
    → order_id ≢ ""
    → let (row, sales', from_sales) =
        restore_stock_for_return_item (some order_id) ps quantity sales in
      (row.quantity ≡ ps.quantity + quantity)
      × (from_sales ≡ min (open_pieces order_id ps sales) quantity)
      × (sum_by (λ s. s.quantity_returned) sales'
          ≡ sum_by (λ s. s.quantity_returned) sales + from_sales)
      × (All IsReturnable sales → All IsReturnable sales')
restore_stock_for_return_item_lem order_id ps quantity sales named =
    elim (Bool-cases (quantity == 0)) [
      | inl nothing ↦ rw (restore_nothing (some order_id) ps quantity sales nothing) (
        omega (arith, zero_of quantity nothing),
        omega (arith, zero_of quantity nothing),
        omega arith,
        λ h. h,
      )
      | inr something ↦
          let start : Restoring = record {
            row = ps;
            remaining = quantity;
            restored_from_sales = 0;
          } in
          let p = restore_sales-Placed order_id ps start sales in
          rw (restore_something order_id ps quantity sales named something) (
            omega (
              arith,
              restore_rest-quantity (restore_sales order_id ps start sales).0,
              p.keeps.left,
              p.keeps.stocked,
            ),
            omega (arith, p.keeps.placed),
            omega (arith, p.keeps.placed, p.counted),
            p.bounded,
          )
    ]

-- With or without an order the pieces add up, and no sale comes to count too many.
restore_by_order-safe :
    (order_id : Option String) (ps : ProductSize) (r : Restoring) (sales : List Sale)
    → let (r', sales') = restore_by_order order_id ps r sales in
      (r'.row.quantity + r'.remaining ≡ r.row.quantity + r.remaining)
      × (All IsReturnable sales → All IsReturnable sales')
unfolding restore_by_order
restore_by_order-safe none ps r sales = (refl, λ h. h)
restore_by_order-safe (some order_id) ps r sales = elim (Bool-cases (str_eq order_id "")) [
  | inl unnamed ↦ rw unnamed (refl, λ h. h)
  | inr named ↦
      let p = restore_sales-Placed order_id ps r sales in
      rw named (omega (arith, p.keeps.left, p.keeps.stocked), p.bounded)
]

pub restore_stock_for_return_item-safe :
    (order_id : Option String) (ps : ProductSize) (quantity : ℕ) (sales : List Sale)
    → let (row, sales', from_sales) = restore_stock_for_return_item order_id ps quantity sales in
      (row.quantity ≡ ps.quantity + quantity) × (All IsReturnable sales → All IsReturnable sales')
unfolding restore_stock_for_return_item
restore_stock_for_return_item-safe order_id ps quantity sales = elim (Bool-cases (quantity == 0)) [
  | inl nothing ↦ rw nothing (omega (arith, zero_of quantity nothing), λ h. h)
  | inr something ↦
      let start : Restoring = record { row = ps; remaining = quantity; restored_from_sales = 0 } in
      let (e, h) = restore_by_order-safe order_id ps start sales in
      let total = restore_rest-quantity (restore_by_order order_id ps start sales).0 in
      rw something (total ∙ e, h)
]
