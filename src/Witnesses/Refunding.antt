-- ===== src/Witnesses/Refunding.antt =====
-- A return that is paid back (magazyn/services/return_refunds.py).
use retrievershop_suite.Prelude.{◌≡◌, ◌≤◌, ◌+◌, refl, none, some, [], ◌∷◌, true, false}
use retrievershop_suite.Returns.Rows.{Return, Db}
use retrievershop_suite.Refund.Rows.{
  RefundOrder, RefundOutside, answered, is_woo_order, is_woo_return, is_manual_return,
}
use retrievershop_suite.Refund.Process.{
  process_refund, refund_order, process_allegro_refund, refund_fetched, refund_items, finish_refund,
  fetch_return, build_refund_execution, resolve_return_items, check_cod_settlement,
  refundable_return, process_bank_transfer_refund, BankTransfer, is_stock_restored_refund_override,
}
use retrievershop_suite.Refund.Ends.{
  Ends, process_refund-Ends, process_bank_transfer_refund-Ends, payments,
}
use retrievershop_suite.Refund.Paid.{start, refunds, transfers, money_goes_back_once}
use retrievershop_suite.Refund.Eligible.{
  check_refund_eligibility, eligible_return, eligible_order, allegro_eligible, validated,
  fetch_allegro_return_data, build_refund_eligibility_details, refund_details_of,
}
use retrievershop_suite.Refund.Reaches.{has_calls}
use retrievershop_suite.Refund.Offered.{check_refund_eligibility-calls}

abbrev delivered_parcel : Return
delivered_parcel = record {
  id = 5;
  order_id = "o1";
  status = "delivered";
  customer_name = none;
  items_json = some "[1]";
  return_tracking_number = none;
  return_carrier = none;
  allegro_return_id = some "r-1";
  woo_withdrawal_id = none;
  stock_restored = false;
  refund_processed = false;
  notes = none;
  created_at = 0;
}

abbrev desk : Db
desk = record {
  returns = delivered_parcel ∷ [];
  return_logs = [];
  order_products = [];
  allegro_offers = [];
  orders = record { orders = []; logs = []; outbox = [] };
  stock = record {
    products = [];
    product_sizes = [];
    purchase_batches = [];
    sales = [];
    pushes = [];
    alerts = [];
  };
  messages = [];
}

abbrev bought : RefundOrder
bought = record {
  order_id = "o1";
  external_order_id = some "a-1";
  is_cod = false;
  is_woo_cod = false;
  delivery_price = some 1500;
  payment_done = some 6500;
}

abbrev accepting : RefundOutside
accepting = record {
  has_access_token = true;
  get_checkout_form = λ external_id. answered "checkout";
  is_settlement_pending = λ checkout. false;
  get_customer_return = λ return_id. answered "return";
  return_items = λ found. some "items";
  load_items = λ items_json. none;
  priced_items = λ items_json. [];
  build_partial_refund_details = λ items checkout cover. answered "lines";
  initiate_refund = λ q. (true, "ok");
  is_cod_not_paid_error = λ message. false;
  validate_return_for_refund = λ found. true;
  create_order_refund = λ external_id amount reason. true;
}

abbrev transfer : BankTransfer
transfer = record {
  iban = some "PL61109010140000071219812874";
  recipient = "Jan Kowalski";
  amount = some 5000;
}

-- The money goes back the first time, and not the second time.
first_refund_pays : payments (process_refund accepting false none (bought ∷ []) "o1" desk).1 ≡ 1
unfolding process_refund refund_order process_allegro_refund refund_fetched refund_items
    finish_refund fetch_return build_refund_execution resolve_return_items check_cod_settlement
    refundable_return is_woo_order is_woo_return is_manual_return payments
    is_stock_restored_refund_override
first_refund_pays = refl

process_refund-Ends_example :
    Ends "o1" desk (process_refund accepting false none (bought ∷ []) "o1" desk)
process_refund-Ends_example = process_refund-Ends accepting false none (bought ∷ []) "o1" desk

process_bank_transfer_refund-Ends_example :
    Ends "o1" desk (process_bank_transfer_refund transfer true (bought ∷ []) "o1" desk)
process_bank_transfer_refund-Ends_example =
    process_bank_transfer_refund-Ends transfer true (bought ∷ []) "o1" desk

abbrev refunded_desk : Db
refunded_desk = (process_refund accepting false none (bought ∷ []) "o1" desk).0

money_goes_back_once_example :
    0
      + payments (process_refund accepting false none (bought ∷ []) "o1" desk).1
      + payments (process_bank_transfer_refund transfer true (bought ∷ []) "o1" refunded_desk).1
    ≤ 1
money_goes_back_once_example =
    money_goes_back_once "o1" desk
      (process_bank_transfer_refund transfer true (bought ∷ []) "o1" refunded_desk).0
      (0
        + payments (process_refund accepting false none (bought ∷ []) "o1" desk).1
        + payments (process_bank_transfer_refund transfer true (bought ∷ []) "o1" refunded_desk).1)
      (transfers transfer true (bought ∷ []) "o1"
        (refunds accepting false none (bought ∷ []) "o1" start))

offered : check_refund_eligibility accepting (bought ∷ []) "o1" desk ≡ true
unfolding check_refund_eligibility eligible_return eligible_order allegro_eligible validated
    fetch_allegro_return_data build_refund_eligibility_details refund_details_of is_woo_order
    is_woo_return is_manual_return is_stock_restored_refund_override check_cod_settlement
    resolve_return_items
offered = refl

check_refund_eligibility-calls_example :
    has_calls (process_refund accepting false none (bought ∷ []) "o1" desk).1 ≡ true
check_refund_eligibility-calls_example =
    check_refund_eligibility-calls accepting none desk (bought ∷ []) "o1" bought "a-1" refl refl
      refl offered
