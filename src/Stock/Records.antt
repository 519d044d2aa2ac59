-- ===== src/Stock/Records.antt =====
-- magazyn/services/stock_records.py: deliveries and sales at the moving weighted average. The
-- wrappers in magazyn/db.py pass `to_decimal`, `TWOPLACES` and the alert threshold.
use retrievershop_suite.Prelude.{
  ℕ, ◌+◌, ◌-◌, ◌*◌, ◌≤◌, min, String, Option, none, some, List, [], ◌∷◌, ◌++◌, Bool, false, not,
  ◌&&◌, ltb, leb, ◌==◌, if◌then◌else◌, find_first, update_first, ◌^◌,
}
use retrievershop_suite.Decimal.{Decimal, grosze, div, mul, sub, quantize}
use retrievershop_suite.Stock.Rows.{
  ProductSize, PurchaseBatch, Sale, Product, AlertName, named, numbered, Db, is_at,
}

-- A column Numeric(12, 2) of the database: it keeps a nearest amount of grosze.
pub record NumericColumn : Type 0 where
  pub store : Decimal → ℕ
  pub store_near :
      (d : Decimal)
      → (2 * (store d * 10 ^ d.places) ≤ 2 * (d.coeff * 100) + 10 ^ d.places)
        × (2 * (d.coeff * 100) ≤ 2 * (store d * 10 ^ d.places) + 10 ^ d.places)

-- `to_decimal` of magazyn/db.py, in grosze.
unfoldable pub to_decimal : Decimal → ℕ
to_decimal value = quantize value

-- Python's truth of a number that may be missing.
abbrev pub is_id : Option ℕ → Bool
is_id none = false
is_id (some n) = not (n == 0)

-- The call of `maybe_push_woo_stock` after the session.
abbrev pub push : ProductSize → ℕ → List (ℕ × ℕ) → List (ℕ × ℕ)
push ps new_qty pushes =
    if is_id (some ps.id) && is_id ps.woo_variation_id
    then pushes ++ (ps.id, new_qty) ∷ []
    else pushes

unfoldable pub record_purchase_at : Db → PurchaseBatch → Option ProductSize → Db
record_purchase_at db batch none = db
record_purchase_at db batch (some ps) =
    let new_qty = ps.quantity + batch.quantity in
    record db {
      product_sizes =
          update_first (is_at batch.product_id batch.size)
            (λ row. record row {
              quantity = new_qty;
              stock_value = ps.stock_value + batch.quantity * batch.price;
            })
            db.product_sizes;
      pushes = push ps new_qty db.pushes;
    }

-- The batch carries the arguments: its price is the converted one.
unfoldable pub record_purchase : Db → ℕ → String → ℕ → Decimal → PurchaseBatch → Db
unfolding record_purchase_at to_decimal
record_purchase db product_id size quantity price details =
    let batch = record details {
      product_id = product_id;
      size = size;
      quantity = quantity;
      price = to_decimal price;
    } in
    record_purchase_at (record db { purchase_batches = db.purchase_batches ++ batch ∷ [] }) batch
      (find_first (is_at product_id size) db.product_sizes)

-- What a sale is charged with.
pub record SaleTerms : Type 0 where
  pub sale_price : Decimal
  pub shipping_cost : Decimal
  pub commission_fee : Decimal
  pub sale_date : String
  pub order_id : Option String

unfoldable pub record_sale : Db → ℕ → String → ℕ → Decimal → SaleTerms → Db
unfolding to_decimal
record_sale db product_id size quantity purchase_cost terms =
    let sale : Sale = record {
      product_id = product_id;
      size = size;
      quantity = quantity;
      sale_date = terms.sale_date;
      purchase_cost = to_decimal purchase_cost;
      sale_price = to_decimal terms.sale_price;
      shipping_cost = to_decimal terms.shipping_cost;
      commission_fee = to_decimal terms.commission_fee;
      order_id = terms.order_id;
      quantity_returned = 0;
    } in
    record db { sales = db.sales ++ sale ∷ [] }

unfoldable pub alert_name : ℕ → Option Product → AlertName
alert_name product_id none = numbered product_id
alert_name product_id (some product) = named product.name

-- `_send_low_stock_alert`: what the sender raises is caught.
unfoldable pub send_low_stock_alert : Db → ℕ → String → ℕ → ℕ → Db
unfolding alert_name
send_low_stock_alert db product_id size quantity threshold =
    let name = alert_name product_id (find_first (λ p. p.id == product_id) db.products) in
    if leb threshold quantity
    then db
    else record db { alerts = db.alerts ++ (name, size, quantity) ∷ [] }

-- The share of the stock value that goes out with `n` of the pieces in stock, unrounded.
unfoldable pub purchase_share : ProductSize → ℕ → Decimal
purchase_share ps n = div (mul (grosze ps.stock_value) n) ps.quantity

-- The row after `n` pieces, of as many or more in stock, have gone out.
unfoldable pub take_out : NumericColumn → ProductSize → ℕ → ProductSize
unfolding purchase_share
take_out column ps n =
    let left = ps.quantity - n in
    record ps {
      quantity = left;
      stock_value =
          column.store
            (if ltb 0 left then sub (grosze ps.stock_value) (purchase_share ps n) else grosze 0);
    }

-- The sale of `to_consume` pieces out of the row, one or more.
unfoldable pub sell_from :
    NumericColumn → ℕ → Db → ℕ → String → ℕ → SaleTerms → ProductSize → ℕ → Db
sell_from column threshold db product_id size quantity terms ps to_consume =
    let after = take_out column ps to_consume in
    let taken = record db {
      product_sizes = update_first (is_at product_id size) (λ row. after) db.product_sizes;
    } in
    let alerted = send_low_stock_alert taken product_id size after.quantity threshold in
    let cost = grosze (quantize (purchase_share ps to_consume)) in
    let sold = record_sale alerted product_id size quantity cost terms in
    record sold { pushes = push ps after.quantity sold.pushes }

unfoldable pub consume_row :
    NumericColumn → ℕ → Db → ℕ → String → ℕ → SaleTerms → Option ProductSize → Db × ℕ
consume_row column threshold db product_id size quantity terms none =
    (record_sale db product_id size quantity (grosze 0) terms, 0)
consume_row column threshold db product_id size quantity terms (some ps) =
    let to_consume = min ps.quantity quantity in
    if ltb 0 to_consume
    then (sell_from column threshold db product_id size quantity terms ps to_consume, to_consume)
    else (record_sale db product_id size quantity (grosze 0) terms, 0)

unfoldable pub consume_stock : NumericColumn → ℕ → Db → ℕ → String → ℕ → SaleTerms → Db × ℕ
unfolding consume_row
consume_stock column threshold db product_id size quantity terms =
    consume_row column threshold db product_id size quantity terms
      (find_first (is_at product_id size) db.product_sizes)
