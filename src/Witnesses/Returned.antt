-- ===== src/Witnesses/Returned.antt =====
-- Returns that come back (magazyn/services/return_core.py, return_stock.py).
use retrievershop_suite.Prelude.{
  ◌≡◌, ◌⊎◌, refl, String, Option, none, some, List, [], ◌∷◌, true, false, find_first,
}
use retrievershop_suite.Prelude.Int.{pos}
use retrievershop_suite.Returns.Rows.{Return, ReturnStatusLog, ReturnItem, Db, has_return_id}
use retrievershop_suite.Returns.Restock.{
  restore_stock_for_return, restore_found, restore_loaded, restore_items, restock, finish_restore,
  accept_return, accepted_status, load_items, find_product_size_for_return_item, find_size,
  find_barcode, first_of, is_received,
}
use retrievershop_suite.Returns.Core.{mark_return_as_delivered}
use retrievershop_suite.Returns.Once.{
  restore_stock_for_return_once, restore_stock_for_return_stocks_once,
  restore_stock_for_return_gate,
}
use retrievershop_suite.Returns.Tracked.{AreTracked}
use retrievershop_suite.Returns.Runs.{start, next, delivers, restores, ReturnRun-AreTracked}

abbrev scarf_back : ReturnItem
scarf_back = record {
  ean = some "590";
  product_size_id = some 1;
  quantity = some (pos 2);
  name = some "Szal";
}

abbrev one_scarf : String → Option (List ReturnItem)
one_scarf text = some (scarf_back ∷ [])

abbrev parcel : Return
parcel = record {
  id = 5;
  order_id = "o1";
  status = "in_transit";
  customer_name = none;
  items_json = some "[1]";
  return_tracking_number = some "T1";
  return_carrier = none;
  allegro_return_id = none;
  woo_withdrawal_id = none;
  stock_restored = false;
  refund_processed = false;
  notes = none;
  created_at = 0;
}

abbrev sent_back : ReturnStatusLog
sent_back = record { return_id = 5; status = "in_transit"; notes = none }

abbrev office : Db
office = record {
  returns = parcel ∷ [];
  return_logs = sent_back ∷ [];
  order_products = [];
  allegro_offers = [];
  orders = record { orders = []; logs = []; outbox = [] };
  stock = record {
    products = [];
    product_sizes =
        record {
          id = 1;
          product_id = 1;
          size = "M";
          quantity = 1;
          stock_value = 1000;
          barcode = some "590";
          woo_variation_id = none;
        }
        ∷ [];
    purchase_batches = [];
    sales = [];
    pushes = [];
    alerts = [];
  };
  messages = [];
}

-- The handler takes the parcel in when it may accept it, and refuses it otherwise.
accepted_parcel : (restore_stock_for_return one_scarf true true 5 office).1 ≡ true
unfolding restore_stock_for_return restore_found restore_loaded restore_items restock finish_restore
    accept_return accepted_status load_items find_product_size_for_return_item find_size
    find_barcode first_of
accepted_parcel = refl

refused_parcel : (restore_stock_for_return one_scarf true false 5 office).1 ≡ false
unfolding restore_stock_for_return restore_found restore_loaded restore_items restock finish_restore
    accept_return accepted_status load_items find_product_size_for_return_item find_size
    find_barcode first_of
refused_parcel = refl

restore_stock_for_return_once_example :
    (restore_stock_for_return one_scarf true true 5
      (restore_stock_for_return one_scarf false true 5 office).0).0
    ≡ (restore_stock_for_return one_scarf false true 5 office).0
restore_stock_for_return_once_example =
    restore_stock_for_return_once one_scarf true false true 5 office

-- The panel accepts the parcel; the scheduler, which may not, comes second.
restore_stock_for_return_stocks_once_example :
    let after = (restore_stock_for_return one_scarf true true 5 office).0 in
    after.stock ≡ office.stock ⊎ ((restore_stock_for_return one_scarf true false 5 after).0 ≡ after)
restore_stock_for_return_stocks_once_example =
    restore_stock_for_return_stocks_once one_scarf true false true true 5 office

restore_stock_for_return_gate_example :
    let after = (restore_stock_for_return one_scarf true true 5 office).0 in
    after.stock ≡ office.stock
    ⊎ ((r : Return) × ((r' : Return) × (find_first (has_return_id 5) office.returns ≡ some r)
          × (find_first (has_return_id 5) after.returns ≡ some r')
          × (r'.stock_restored ≡ true)
          × (r.stock_restored ≡ false)
          × (is_received (accepted_status true r) ≡ true)))
restore_stock_for_return_gate_example = restore_stock_for_return_gate one_scarf true true 5 office

office-AreTracked : AreTracked office
unfolding AreTracked
office-AreTracked = (record { last = sent_back; found = refl; agrees = refl }, tt)

abbrev delivered_office : Db
delivered_office = (mark_return_as_delivered 5 office).0

ReturnRun-AreTracked_example :
    AreTracked (restore_stock_for_return one_scarf true false 5 delivered_office).0
ReturnRun-AreTracked_example =
    ReturnRun-AreTracked office (restore_stock_for_return one_scarf true false 5 delivered_office).0
      (next (next start (delivers 5)) (restores one_scarf true false 5)) office-AreTracked
