-- ===== src/Returns/Restock.antt =====
-- restore_stock_for_return of magazyn/services/return_stock.py, and process_delivered_returns around
-- it. An exception rolls the tables back; what is left otherwise is committed.
use retrievershop_suite.Prelude.{
  ℕ, String, Option, none, some, List, [], ◌∷◌, Bool, true, false, ◌&&◌, ◌==◌, ◌+◌, if◌then◌else◌,
  str_eq, mem_text, find_first, select, update_where, get_or,
}
use retrievershop_suite.Prelude.Int.{ℤ, pos, pos_part}
use retrievershop_suite.Stock.Rows as StockRows
use retrievershop_suite.Stock.Rows.{ProductSize}
use retrievershop_suite.Stock.Restore.{restore_stock_for_return_item}
use retrievershop_suite.Returns.Rows.{
  Return, ReturnItem, RestoredItem, OrderProduct, Db, has_return_id, put_return,
  return_status_pending, return_status_in_transit, return_status_delivered,
  return_status_not_collected, return_status_completed,
}
use retrievershop_suite.Returns.Core.{add_return_status_log, set_status, is_text}

abbrev pub has_size_id : ℕ → ProductSize → Bool
has_size_id size_id ps = ps.id == size_id

-- `if size_id:` and the row with this id
unfoldable pub find_size : Option ℕ → List ProductSize → Option ProductSize
find_size none rows = none
find_size (some size_id) rows = if size_id == 0 then none else find_first (has_size_id size_id) rows

-- `if ean:` and the row with this barcode
unfoldable pub find_barcode : Option String → List ProductSize → Option ProductSize
find_barcode none rows = none
find_barcode (some ean) rows =
    if str_eq ean "" then none else find_first (λ ps. is_text ean ps.barcode) rows

-- A column against an optional value: `None` matches NULL.
abbrev pub same_text : Option String → Option String → Bool
same_text none none = true
same_text (some s) (some t) = str_eq s t
same_text s t = false

-- The way by the auction of the order's product.
unfoldable pub find_by_offer : Db → Option String → Option ProductSize
unfolding find_size
find_by_offer db none = none
find_by_offer db (some auction_id) =
    if str_eq auction_id ""
    then none
    else elim (find_first (λ offer. str_eq offer.offer_id auction_id) db.allegro_offers) [
      | none ↦ none
      | some offer ↦ find_size offer.product_size_id db.stock.product_sizes
    ]

unfoldable pub find_by_order : Db → String → Option String → Option ProductSize
unfolding find_by_offer
find_by_order db order_id ean =
    let line : OrderProduct → Bool = λ p. str_eq p.order_id order_id && same_text p.ean ean in
    if str_eq order_id "" then none else elim (find_first line db.order_products) [
      | none ↦ none
      | some p ↦ find_by_offer db p.auction_id
    ]

unfoldable pub first_of : Option ProductSize → Option ProductSize → Option ProductSize
first_of (some ps) other = some ps
first_of none other = other

-- Of the return, only its order is read.
unfoldable pub find_product_size_for_return_item : Db → String → ReturnItem → Option ProductSize
unfolding find_size find_barcode find_by_order first_of
find_product_size_for_return_item db order_id item =
    first_of (find_size item.product_size_id db.stock.product_sizes)
      (first_of (find_barcode item.ean db.stock.product_sizes) (find_by_order db order_id item.ean))

abbrev pub put_stock : StockRows.Db → Db → Db
put_stock stock db = record db { stock = stock }

-- `quantity` pieces into the row; fewer than one changes nothing.
unfoldable pub restock : String → ProductSize → ℤ → Db → Db
restock order_id ps quantity db =
    let placed =
      restore_stock_for_return_item (some order_id) ps (pos_part quantity) db.stock.sales in
    put_stock
      (record db.stock {
        product_sizes = update_where (has_size_id ps.id) (λ _. placed.0) db.stock.product_sizes;
        sales = placed.1;
      })
      db

unfoldable pub restore_items : String → List ReturnItem → Db → Db × List RestoredItem
unfolding find_product_size_for_return_item restock
restore_items order_id [] db = (db, [])
restore_items order_id (item ∷ items) db =
    let quantity = get_or item.quantity (pos 1) in
    elim (find_product_size_for_return_item db order_id item) [
      | none ↦ restore_items order_id items db
      | some ps ↦
          let rest = restore_items order_id items (restock order_id ps quantity db) in
          (rest.0, record { name = item.name; quantity = quantity; old_qty = ps.quantity } ∷ rest.1)
    ]

abbrev pub is_waiting : String → Bool
is_waiting status = mem_text status (return_status_pending ∷ return_status_in_transit ∷ [])

abbrev pub is_received : String → Bool
is_received status =
    mem_text status
      (return_status_delivered ∷ return_status_not_collected ∷ return_status_completed ∷ [])

-- `accept_pending_as_delivered`
unfoldable pub accept_return : Bool → Return → Db → Db
unfolding set_status
accept_return accept r db =
    if accept && is_waiting r.status
    then set_status r.id return_status_delivered
        (some "Przywrocenie stanu automatycznie uznalo zwrot za odebrany") db
    else db

unfoldable pub accepted_status : Bool → Return → String
accepted_status accept r =
    if accept && is_waiting r.status then return_status_delivered else r.status

-- json.loads on a text, `none` where it raises; an absent or empty text has no items.
unfoldable pub load_items :
    (String → Option (List ReturnItem)) → Option String → Option (List ReturnItem)
load_items loads none = some []
load_items loads (some text) = if str_eq text "" then some [] else loads text

-- The end of the `try`: nothing found, or the flag, the log (without its list of items) and the
-- message.
unfoldable pub finish_restore : Bool → Return → String → Db × List RestoredItem → Db × Bool
unfolding add_return_status_log
finish_restore sends r status (db, []) = (db, false)
finish_restore sends r status (db, restored ∷ more) =
    let db' =
      add_return_status_log r.id status (some "Przywrocono stan")
        (put_return r.id (λ x. record x { stock_restored = true }) db) in
    if sends
    then (record db' { messages = (r.order_id, restored ∷ more) ∷ db'.messages }, true)
    else (db', false)

-- The items of a return that may go back to stock.
unfoldable pub restore_loaded :
    Bool → Return → String → Db → Db → Option (List ReturnItem) → Db × Bool
unfolding restore_items finish_restore
restore_loaded sends r status before db none = (before, false)
restore_loaded sends r status before db (some items) =
    finish_restore sends r status (restore_items r.order_id items db)

unfoldable pub restore_found :
    (String → Option (List ReturnItem)) → Bool → Bool → Return → Db → Db × Bool
unfolding accept_return accepted_status load_items restore_loaded
restore_found loads sends accept r db =
    let db' = accept_return accept r db in
    let status = accepted_status accept r in
    if r.stock_restored
    then (db, true)
    else if is_received status
    then restore_loaded sends r status db db' (load_items loads r.items_json)
    else (db', false)

-- `sends` tells whether `send_message` returns; where it raises, the tables are committed already.
unfoldable pub restore_stock_for_return :
    (String → Option (List ReturnItem)) → Bool → Bool → ℕ → Db → Db × Bool
unfolding restore_found
restore_stock_for_return loads sends accept return_id db =
    elim (find_first (has_return_id return_id) db.returns) [
      | none ↦ (db, false)
      | some r ↦ restore_found loads sends accept r db
    ]

-- The counts of process_delivered_returns; the handler it calls raises nothing of its own.
pub record Stats : Type 0 where
  pub processed : ℕ
  pub skipped : ℕ

abbrev pub is_delivered : Return → Bool
is_delivered r =
    mem_text r.status (return_status_delivered ∷ return_status_not_collected ∷ [])
    && (if r.stock_restored then false else true)

unfoldable pub process_each : (ℕ → Db → Db × Bool) → List Return → Stats → Db → Db × Stats
process_each restore_stock [] stats db = (db, stats)
process_each restore_stock (r ∷ rs) stats db =
    let done = restore_stock r.id db in
    let stats' =
      if done.1
      then record stats { processed = stats.processed + 1 }
      else record stats { skipped = stats.skipped + 1 } in
    process_each restore_stock rs stats' done.0

unfoldable pub process_delivered_returns : (ℕ → Db → Db × Bool) → Db → Db × Stats
unfolding process_each
process_delivered_returns restore_stock db =
    process_each restore_stock (select is_delivered db.returns)
      (record { processed = 0; skipped = 0 }) db
