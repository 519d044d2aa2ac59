-- ===== src/ItemEdit/Variant.antt =====
-- edit_order_item_variant of magazyn/services/order_item_edit.py. Category, brand and series of a
-- product are kept stripped and in lower case; a quantity is not negative, a price is in grosze.
use Prim.Native.String.{◌++◌ as text_append}
use retrievershop_suite.Prelude.{
  ℕ, ◌==◌, String, Option, none, some, List, [], ◌∷◌, Bool, true, false, not, ◌&&◌, ◌||◌,
  if◌then◌else◌, str_eq, mem_text, is_truthy, is_some, get_or, find_first, update_where,
}
use retrievershop_suite.Decimal.{Decimal, grosze, mul, div, quantize}
use retrievershop_suite.OrderStatus.Rows as OrderRows
use retrievershop_suite.OrderStatus.Service.{add_order_status, has_id}
use retrievershop_suite.Stock.Rows as StockRows
use retrievershop_suite.Stock.Records.{NumericColumn, SaleTerms, consume_stock, is_id}
use retrievershop_suite.Stock.Restore.{is_order}
use retrievershop_suite.Stock.Levels.{put_back}
use retrievershop_suite.Cancel.Order.{current_order_status}

pub record CatalogProduct : Type 0 where
  pub id : ℕ
  pub name : String
  pub color : String
  pub category : String
  pub brand : String
  pub series : String

pub record OrderItem : Type 0 where
  pub id : ℕ
  pub order_id : String
  pub product_size_id : Option ℕ
  pub ean : Option String
  pub name : Option String
  pub quantity : Option ℕ
  pub price_brutto : Option ℕ

-- The tables; `locally_edited` lists the orders whose flag is set.
pub record EditDb : Type 0 where
  pub items : List OrderItem
  pub catalog : List CatalogProduct
  pub orders : OrderRows.Db
  pub stock : StockRows.Db
  pub locally_edited : List String

pub data EditResult : Type 0 where
  not_found refused : EditResult
  edited : Bool → Bool → EditResult

abbrev pub edit_blocked_statuses : List String
edit_blocked_statuses = "anulowano" ∷ "dostarczono" ∷ "zwrot" ∷ "nieodebrano" ∷ []

unfoldable pub can_edit_order_items : String → Bool
can_edit_order_items current_status = not (mem_text current_status edit_blocked_statuses)

-- `any(key)` of the family key
abbrev pub has_family : CatalogProduct → Bool
has_family p = not (str_eq p.category "") || (not (str_eq p.brand "") || not (str_eq p.series ""))

unfoldable pub same_family : CatalogProduct → CatalogProduct → Bool
same_family a b =
    if not (has_family a) && not (has_family b)
    then a.id == b.id
    else (str_eq a.category b.category && (str_eq a.brand b.brand && str_eq a.series b.series))
      && has_family a

-- `" ".join(p for p in parts if p)`
unfoldable pub join_parts : List String → String
join_parts [] = ""
join_parts (p ∷ parts) =
    let rest = join_parts parts in
    if str_eq p "" then rest else if str_eq rest "" then p else text_append p (text_append " " rest)

unfoldable pub format_variant_name : CatalogProduct → String → String
unfolding join_parts
format_variant_name product size = join_parts (product.name ∷ product.color ∷ size ∷ [])

abbrev pub is_item_row : String → ℕ → OrderItem → Bool
is_item_row order_id item_id x = x.id == item_id && str_eq x.order_id order_id

-- A row of the stock with its product.
pub record VariantRow : Type 0 where
  pub row : StockRows.ProductSize
  pub product : CatalogProduct

abbrev pub make_variant : StockRows.ProductSize → Option CatalogProduct → Option VariantRow
make_variant ps none = none
make_variant ps (some product) = some (record { row = ps; product = product })

abbrev pub with_product : List CatalogProduct → Option StockRows.ProductSize → Option VariantRow
with_product catalog none = none
with_product catalog (some ps) = make_variant ps (find_first (λ p. p.id == ps.product_id) catalog)

unfoldable pub find_variant : EditDb → ℕ → Option VariantRow
find_variant db id = with_product db.catalog (find_first (λ ps. ps.id == id) db.stock.product_sizes)

unfoldable pub order_has_consumed_stock : String → StockRows.Db → Bool
order_has_consumed_stock order_id stock =
    is_some (find_first (λ sale. is_order order_id sale.order_id) stock.sales)

-- `int(op.quantity or 1)`
abbrev pub item_quantity : Option ℕ → ℕ
item_quantity none = 1
item_quantity (some n) = if n == 0 then 1 else n

-- What the settings and other parts answer: the commission in per cent, the cost of shipping of a
-- price, the date of a sale, the level of alerts, and the rounding of the column.
pub record EditOutside : Type 0 where
  pub commission_allegro : Decimal
  pub calculate_shipping : Decimal → Decimal
  pub sale_date : String
  pub threshold : ℕ
  pub column : NumericColumn

unfoldable pub consume_payload : EditOutside → String → ℕ → SaleTerms
consume_payload out order_id price = record {
  sale_price = grosze price;
  shipping_cost = out.calculate_shipping (grosze price);
  commission_fee = grosze (quantize (div (mul out.commission_allegro price) 10000));
  sale_date = out.sale_date;
  order_id = some order_id;
}

abbrev pub new_name_of : VariantRow → String
new_name_of v = format_variant_name v.product v.row.size

abbrev pub old_name_of : OrderItem → VariantRow → String
old_name_of item v = if is_truthy item.name then get_or item.name "" else new_name_of v

abbrev pub edit_details : OrderItem → VariantRow → VariantRow → OrderRows.StatusDetails
edit_details item old_variant new_variant = record {
  tracking_number = none;
  courier_code = none;
  notes = some (
      text_append "Zmiana wariantu: "
        (text_append (old_name_of item old_variant) (text_append " → " (new_name_of new_variant))));
}

abbrev pub change_item : VariantRow → OrderItem → OrderItem
change_item v x = record x {
  product_size_id = some v.row.id;
  ean = if is_truthy v.row.barcode then v.row.barcode else x.ean;
  name = some (new_name_of v);
}

module _ (out : EditOutside) (dispatch_email : OrderRows.Db → String → String → OrderRows.Db)
    (clock : ℕ) (order_id : String) (restore_previous : Bool) (db : EditDb) where
  -- The stock after the edit: the old variant comes back, the new one goes out.
  unfoldable pub edit_stock :
      OrderItem → StockRows.ProductSize → StockRows.ProductSize → StockRows.Db
  unfolding put_back order_has_consumed_stock consume_stock consume_payload
  edit_stock item old_ps new_ps =
      let qty = item_quantity item.quantity in
      let restored =
        if restore_previous && order_has_consumed_stock order_id db.stock
        then put_back db.stock (λ ps. ps.id == old_ps.id) (some order_id) old_ps qty
        else db.stock in
      if order_has_consumed_stock order_id db.stock
      then (consume_stock out.column out.threshold restored new_ps.product_id new_ps.size qty
          (consume_payload out order_id (get_or item.price_brutto 0))).0
      else restored

  -- What follows the checks.
  unfoldable pub edit_tables : OrderItem → VariantRow → VariantRow → EditDb × EditResult
  unfolding edit_stock format_variant_name add_order_status
  edit_tables item old_variant new_variant =
      let consumed = order_has_consumed_stock order_id db.stock in
      (
        record db {
          items = update_where (is_item_row order_id item.id) (change_item new_variant) db.items;
          orders =
              (add_order_status dispatch_email clock db.orders order_id
                (current_order_status order_id db.orders.logs) false true false
                (edit_details item old_variant new_variant)).0;
          stock = edit_stock item old_variant.row new_variant.row;
          locally_edited = order_id ∷ db.locally_edited;
        },
        edited (restore_previous && consumed) consumed,
      )

  unfoldable pub edit_variants :
      OrderItem → Option VariantRow → Option VariantRow → EditDb × EditResult
  unfolding edit_tables same_family
  edit_variants item none new_variant = (db, refused)
  edit_variants item (some old_variant) none = (db, refused)
  edit_variants item (some old_variant) (some new_variant) =
      if new_variant.row.id == old_variant.row.id
        || not (same_family old_variant.product new_variant.product)
      then (db, refused)
      else edit_tables item old_variant new_variant

  unfoldable pub edit_item : ℕ → Option OrderItem → EditDb × EditResult
  unfolding edit_variants find_variant
  edit_item new_product_size_id none = (db, not_found)
  edit_item new_product_size_id (some item) =
      if not (is_id item.product_size_id)
      then (db, refused)
      else edit_variants item (find_variant db (get_or item.product_size_id 0))
          (find_variant db new_product_size_id)

  unfoldable pub edit_order_item_variant : ℕ → ℕ → EditDb × EditResult
  unfolding edit_item can_edit_order_items current_order_status
  edit_order_item_variant item_id new_product_size_id =
      if not (is_some (find_first (has_id order_id) db.orders.orders))
      then (db, not_found)
      else if not (can_edit_order_items (current_order_status order_id db.orders.logs))
      then (db, refused)
      else edit_item new_product_size_id (find_first (is_item_row order_id item_id) db.items)
