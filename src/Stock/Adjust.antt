-- ===== src/Stock/Adjust.antt =====
-- magazyn/services/stock_adjust.py: corrections of a stock level that keep its value in step.
use retrievershop_suite.Prelude.{
  ℕ, zero, suc, ◌+◌, min, String, Option, none, some, Bool, true, false, ltb, ◌==◌, if◌then◌else◌,
  find_first, update_first,
}
use retrievershop_suite.Prelude.Int.{ℤ, pos, negsuc, ◌-ℤ◌}
use retrievershop_suite.Decimal.{Decimal, grosze, div, mul, quantize}
use retrievershop_suite.Stock.Rows.{ProductSize, Db, is_at}
use retrievershop_suite.Stock.Records.{NumericColumn, take_out, push}

-- `_current_avg`
unfoldable pub current_avg : ProductSize → Decimal
current_avg ps = if ps.quantity == 0 then grosze 0 else div (grosze ps.stock_value) ps.quantity

-- The price an increase is valued at: the given one, rounded to grosze, or the current average.
unfoldable pub adjustment_price : ProductSize → Option Decimal → Decimal
unfolding current_avg
adjustment_price ps none = current_avg ps
adjustment_price ps (some unit_price) = grosze (quantize unit_price)

pub data AdjustError : Type 0 where
  not_exactly_one missing_product_size : AdjustError

pub data AdjustResult (A : Type 0) : Type 0 where
  adjusted : A → AdjustResult A
  failed : AdjustError → AdjustResult A

-- `change > 0`
unfoldable pub increase : ProductSize → ℕ → Option Decimal → ProductSize
unfolding adjustment_price
increase ps change unit_price = record ps {
  quantity = ps.quantity + change;
  stock_value = ps.stock_value + quantize (mul (adjustment_price ps unit_price) change);
}

-- `change < 0`: with nothing in stock nothing is removed, and the value is zero.
unfoldable pub decrease : NumericColumn → ProductSize → ℕ → ProductSize
unfolding take_out
decrease column ps amount =
    if ps.quantity == 0
    then record ps { stock_value = column.store (grosze 0) }
    else take_out column ps (min amount ps.quantity)

-- What a correction comes to: the row, the old and the new quantity, and whether it got as far as
-- the call that pushes the new level to the shop.
pub record Adjustment : Type 0 where
  pub row : ProductSize
  pub old_qty : ℕ
  pub new_qty : ℕ
  pub pushes : Bool

-- Of the row before and the row after.
abbrev pub done : ProductSize → ProductSize → Adjustment
done before after = record {
  row = after;
  old_qty = before.quantity;
  new_qty = after.quantity;
  pushes = true;
}

unfoldable pub change_stock : NumericColumn → ProductSize → ℤ → Option Decimal → Adjustment
unfolding increase decrease
change_stock column ps (pos zero) unit_price = record {
  row = ps;
  old_qty = ps.quantity;
  new_qty = ps.quantity;
  pushes = false;
}
change_stock column ps (pos (suc n)) unit_price = done ps (increase ps (suc n) unit_price)
change_stock column ps (negsuc n) unit_price = done ps (decrease column ps (suc n))

-- The arguments `set_to` and `delta`: exactly one of them is given.
unfoldable pub requested_change : ProductSize → Option ℤ → Option ℤ → AdjustResult ℤ
requested_change ps none none = failed not_exactly_one
requested_change ps (some set_to) (some delta) = failed not_exactly_one
requested_change ps (some set_to) none = adjusted (set_to -ℤ pos ps.quantity)
requested_change ps none (some delta) = adjusted delta

unfoldable pub adjust_by :
    NumericColumn → ProductSize → AdjustResult ℤ → Option Decimal → AdjustResult Adjustment
unfolding change_stock
adjust_by column ps (failed e) unit_price = failed e
adjust_by column ps (adjusted change) unit_price =
    adjusted (change_stock column ps change unit_price)

unfoldable pub apply_stock_adjustment :
    NumericColumn → ProductSize → Option ℤ → Option ℤ → Option Decimal → AdjustResult Adjustment
unfolding adjust_by requested_change
apply_stock_adjustment column ps set_to delta unit_price =
    adjust_by column ps (requested_change ps set_to delta) unit_price

-- The row that was found is written, and its level goes to the shop.
unfoldable pub store_row : Db → ProductSize → Adjustment → Db
store_row db ps a = record db {
  product_sizes = update_first (λ row. row.id == ps.id) (λ row. a.row) db.product_sizes;
  pushes = if a.pushes then push ps a.new_qty db.pushes else db.pushes;
}

unfoldable pub adjust_found :
    NumericColumn
    → Db
    → Option ProductSize
    → Option ℤ
    → Option ℤ
    → Option Decimal
    → AdjustResult (Db × ℕ × ℕ)
unfolding apply_stock_adjustment store_row
adjust_found column db none set_to delta unit_price = failed missing_product_size
adjust_found column db (some ps) set_to delta unit_price =
    elim (apply_stock_adjustment column ps set_to delta unit_price) [
      | failed e ↦ failed e
      | adjusted a ↦ adjusted (store_row db ps a, a.old_qty, a.new_qty)
    ]

unfoldable pub adjust_stock :
    NumericColumn
    → Db
    → ℕ
    → String
    → Option ℤ
    → Option ℤ
    → Option Decimal
    → AdjustResult (Db × ℕ × ℕ)
unfolding adjust_found
adjust_stock column db product_id size set_to delta unit_price =
    adjust_found column db (find_first (is_at product_id size) db.product_sizes) set_to delta
      unit_price

-- The manual correction by one of magazyn/domain/inventory.py: `update_quantity`.
pub data QuantityAction : Type 0 where
  increase_one decrease_one other_action : QuantityAction

unfoldable pub update_quantity : NumericColumn → Db → Option ProductSize → QuantityAction → Db
unfolding apply_stock_adjustment store_row
update_quantity column db none action = db
update_quantity column db (some ps) increase_one =
    store_row db ps (change_stock column ps (pos 1) none)
update_quantity column db (some ps) decrease_one =
    if ltb 0 ps.quantity then store_row db ps (change_stock column ps (negsuc 0) none) else db
update_quantity column db (some ps) other_action = db
