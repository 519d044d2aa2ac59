-- ===== src/Stock/Restore.antt =====
-- `_restore_stock_for_return_item` of magazyn/services/return_stock.py: pieces that come back go
-- into stock at the cost they were sold at, the rest at the current average.
use retrievershop_suite.Prelude.{
  ℕ, ◌+◌, ◌-◌, min, String, Option, none, some, List, [], ◌∷◌, Bool, false, ◌&&◌, ◌==◌,
  if◌then◌else◌, str_eq,
}
use retrievershop_suite.Decimal.{of_int, grosze, div, mul, quantize}
use retrievershop_suite.Stock.Rows.{ProductSize, Sale}

-- `Sale.order_id == order_id`
abbrev pub is_order : String → Option String → Bool
is_order order_id none = false
is_order order_id (some o) = str_eq o order_id

-- The sales of the order for this product and size.
abbrev pub is_sale_of : String → ProductSize → Sale → Bool
is_sale_of order_id ps sale =
    is_order order_id sale.order_id
    && (sale.product_id == ps.product_id && str_eq sale.size ps.size)

-- The pieces of a sale that have not come back.
abbrev pub returnable : Sale → ℕ
returnable sale = sale.quantity - sale.quantity_returned

-- `take` pieces of a sale at their share of its purchase cost, in grosze.
unfoldable pub sold_value : Sale → ℕ → ℕ
sold_value sale take =
    let unit_cost =
      if sale.quantity == 0 then of_int 0 else div (grosze sale.purchase_cost) sale.quantity in
    quantize (mul unit_cost take)

-- What the loop carries: the row, the pieces still to place, and those placed by sales.
pub record Restoring : Type 0 where
  pub row : ProductSize
  pub remaining : ℕ
  pub restored_from_sales : ℕ

abbrev pub add_pieces : ProductSize → ℕ → ℕ → ProductSize
add_pieces ps n value = record ps {
  quantity = ps.quantity + n;
  stock_value = ps.stock_value + value;
}

-- One sale: the loop's `break`, its `continue`, or a take.
unfoldable pub restore_sale : Restoring → Sale → Restoring × Sale
unfolding sold_value
restore_sale r sale =
    let take = min (returnable sale) r.remaining in
    if r.remaining == 0 then (r, sale) else if returnable sale == 0 then (r, sale) else (
      record {
        row = add_pieces r.row take (sold_value sale take);
        remaining = r.remaining - take;
        restored_from_sales = r.restored_from_sales + take;
      },
      record sale { quantity_returned = sale.quantity_returned + take },
    )

-- The sales of the order in the order of their ids; the others stand as they were. The test reads
-- the product and the size of the row, which the loop does not change.
unfoldable pub restore_sales : String → ProductSize → Restoring → List Sale → Restoring × List Sale
unfolding restore_sale
restore_sales order_id ps r [] = (r, [])
restore_sales order_id ps r (sale ∷ sales) =
    let (r', sale') = if is_sale_of order_id ps sale then restore_sale r sale else (r, sale) in
    let (r'', sales') = restore_sales order_id ps r' sales in (r'', sale' ∷ sales')

-- The rest goes back at the current average, rounded to grosze.
unfoldable pub restore_rest : Restoring → ProductSize
restore_rest r =
    let avg =
      if r.row.quantity == 0 then of_int 0 else div (grosze r.row.stock_value) r.row.quantity in
    if r.remaining == 0
    then r.row
    else add_pieces r.row r.remaining (quantize (mul avg r.remaining))

-- `if order_id:`
unfoldable pub restore_by_order :
    Option String → ProductSize → Restoring → List Sale → Restoring × List Sale
unfolding restore_sales
restore_by_order none ps r sales = (r, sales)
restore_by_order (some order_id) ps r sales =
    if str_eq order_id "" then (r, sales) else restore_sales order_id ps r sales

-- The row, the sales, and how many pieces the sales covered.
unfoldable pub restore_stock_for_return_item :
    Option String → ProductSize → ℕ → List Sale → ProductSize × List Sale × ℕ
unfolding restore_by_order restore_rest
restore_stock_for_return_item order_id ps quantity sales =
    let start : Restoring = record { row = ps; remaining = quantity; restored_from_sales = 0 } in
    let (r, sales') = restore_by_order order_id ps start sales in
    if quantity == 0 then (ps, sales, 0) else (restore_rest r, sales', r.restored_from_sales)
