-- ===== src/Stocktake/Session.antt =====
-- The handlers of magazyn/blueprints/stocktake.py that change the tables, and the rows of
-- magazyn/models/stocktakes.py. A request that raises leaves the tables; of the answers for people
-- the numbers are kept.
use retrievershop_suite.Prelude.{
  ℕ, ◌-◌, ◌==◌, suc, String, Option, none, some, List, [], ◌∷◌, ◌++◌, map, Bool, false, not, ◌&&◌,
  ◌||◌, if◌then◌else◌, str_eq, is_truthy, is_some, get_or, ltb, length, find_first, select,
  update_first, sum_by,
}
use retrievershop_suite.Stock.Rows as StockRows

pub record Stocktake : Type 0 where
  pub id : ℕ
  pub status : String
  pub finished_at : Option ℕ
  pub notes : Option String
  pub user_id : Option ℕ

pub record StocktakeItem : Type 0 where
  pub stocktake_id : ℕ
  pub product_size_id : ℕ
  pub expected_qty : ℕ
  pub scanned_qty : ℕ
  pub scanned_at : Option ℕ

pub record Db : Type 0 where
  pub stocktakes : List Stocktake
  pub items : List StocktakeItem
  pub stock : StockRows.Db

-- The numbers of an answer about an item and its session.
pub record Count : Type 0 where
  pub scanned_qty : ℕ
  pub expected_qty : ℕ
  pub total_products : ℕ
  pub scanned_products : ℕ
  pub total_scanned : ℕ

pub data Response : Type 0 where
  redirect bad_request not_found : Response
  counted : Count → Response

abbrev pub has_stocktake_id : ℕ → Stocktake → Bool
has_stocktake_id id st = st.id == id

abbrev pub is_in_progress : Stocktake → Bool
is_in_progress st = str_eq st.status "in_progress"

-- `st and st.status == status`
abbrev pub has_status : String → Option Stocktake → Bool
has_status status none = false
has_status status (some st) = str_eq st.status status

abbrev pub is_item_of : ℕ → StocktakeItem → Bool
is_item_of stocktake_id item = item.stocktake_id == stocktake_id

abbrev pub is_item : ℕ → ℕ → StocktakeItem → Bool
is_item stocktake_id product_size_id item =
    is_item_of stocktake_id item && (item.product_size_id == product_size_id)

abbrev pub new_item : ℕ → StockRows.ProductSize → StocktakeItem
new_item stocktake_id ps = record {
  stocktake_id = stocktake_id;
  product_size_id = ps.id;
  expected_qty = ps.quantity;
  scanned_qty = 0;
  scanned_at = none;
}

-- `stocktake_new`; the new row has the id `id`.
unfoldable pub stocktake_new : ℕ → Option ℕ → Db → Db
stocktake_new id user_id db =
    let st : Stocktake = record {
      id = id;
      status = "in_progress";
      finished_at = none;
      notes = none;
      user_id = user_id;
    } in
    if is_some (find_first is_in_progress db.stocktakes) then db else record db {
      stocktakes = db.stocktakes ++ (st ∷ []);
      items =
          db.items
          ++ map (new_item id) (select (λ ps. is_truthy ps.barcode) db.stock.product_sizes);
    }

-- The sum of the session, and the counts of its items.
abbrev pub total_scanned_of : ℕ → List StocktakeItem → ℕ
total_scanned_of stocktake_id items =
    sum_by (λ x. x.scanned_qty) (select (is_item_of stocktake_id) items)

unfoldable pub summarize : ℕ → List StocktakeItem → StocktakeItem → Count
summarize stocktake_id items item =
    let own = select (is_item_of stocktake_id) items in
    record {
      scanned_qty = item.scanned_qty;
      expected_qty = item.expected_qty;
      total_products = length own;
      scanned_products = length (select (λ x. ltb 0 x.scanned_qty) own);
      total_scanned = total_scanned_of stocktake_id items;
    }

abbrev pub scan_once : ℕ → StocktakeItem → StocktakeItem
scan_once now item = record item { scanned_qty = suc item.scanned_qty; scanned_at = some now }

-- The item is made where the session has none, and counted.
unfoldable pub count_item :
    ℕ → ℕ → StockRows.ProductSize → Db → Option StocktakeItem → Db × Response
unfolding summarize
count_item now stocktake_id ps db none =
    let item = scan_once now (new_item stocktake_id ps) in
    let items = db.items ++ (item ∷ []) in
    (record db { items = items }, counted (summarize stocktake_id items item))
count_item now stocktake_id ps db (some item) =
    let items = update_first (is_item stocktake_id ps.id) (scan_once now) db.items in
    (record db { items = items }, counted (summarize stocktake_id items (scan_once now item)))

-- What follows the look for the barcode.
unfoldable pub count_found : ℕ → ℕ → Db → Option StockRows.ProductSize → Db × Response
unfolding count_item
count_found now stocktake_id db none = (db, not_found)
count_found now stocktake_id db (some ps) =
    count_item now stocktake_id ps db (find_first (is_item stocktake_id ps.id) db.items)

abbrev pub has_barcode : String → StockRows.ProductSize → Bool
has_barcode barcode ps = is_some ps.barcode && str_eq (get_or ps.barcode "") barcode

-- `stocktake_barcode_scan`, of a barcode without blanks around it.
unfoldable pub stocktake_barcode_scan : ℕ → ℕ → String → Db → Db × Response
unfolding count_found
stocktake_barcode_scan now stocktake_id barcode db =
    if str_eq barcode ""
      || not (has_status "in_progress" (find_first (has_stocktake_id stocktake_id) db.stocktakes))
    then (db, bad_request)
    else count_found now stocktake_id db (find_first (has_barcode barcode) db.stock.product_sizes)

-- The items that a scan can be taken back from, and the latest of them: of the first of them and the
-- latest of the others the one scanned later.
abbrev pub is_scanned : ℕ → StocktakeItem → Bool
is_scanned stocktake_id item =
    is_item_of stocktake_id item && (ltb 0 item.scanned_qty && is_some item.scanned_at)

abbrev pub later_item : StocktakeItem → Option StocktakeItem → StocktakeItem
later_item x none = x
later_item x (some y) = if ltb (get_or x.scanned_at 0) (get_or y.scanned_at 0) then y else x

unfoldable pub last_scanned : ℕ → List StocktakeItem → Option StocktakeItem
last_scanned stocktake_id [] = none
last_scanned stocktake_id (x ∷ xs) =
    let rest = last_scanned stocktake_id xs in
    if is_scanned stocktake_id x then some (later_item x rest) else rest

abbrev pub take_back : StocktakeItem → StocktakeItem
take_back item = record item { scanned_qty = item.scanned_qty - 1 }

-- The first item that can be taken back and was scanned when the given one was.
abbrev pub is_last : ℕ → StocktakeItem → StocktakeItem → Bool
is_last stocktake_id item x =
    is_scanned stocktake_id x && (get_or x.scanned_at 0 == get_or item.scanned_at 0)

unfoldable pub undo_item : ℕ → Db → Option StocktakeItem → Db × Response
unfolding summarize
undo_item stocktake_id db none = (db, bad_request)
undo_item stocktake_id db (some item) =
    let items = update_first (is_last stocktake_id item) take_back db.items in
    (record db { items = items }, counted (summarize stocktake_id items (take_back item)))

unfoldable pub stocktake_undo : ℕ → Db → Db × Response
unfolding undo_item last_scanned
stocktake_undo stocktake_id db =
    if not (has_status "in_progress" (find_first (has_stocktake_id stocktake_id) db.stocktakes))
    then (db, bad_request)
    else undo_item stocktake_id db (last_scanned stocktake_id db.items)
