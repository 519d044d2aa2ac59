-- ===== src/Witnesses/Cancelling.antt =====
-- A cancellation (magazyn/services/order_cancel.py).
use retrievershop_suite.Prelude.{
  ◌≡◌, ◌<◌, arith, refl, String, none, some, [], ◌∷◌, true, false, All,
}
use retrievershop_suite.OrderStatus.Service.{Mailer, no_result, last_status}
use retrievershop_suite.Returns.Rows.{Db}
use retrievershop_suite.Cancel.Order.{
  Outside, OrderColumns, CancelDetails, cancelled, already_cancelled, not_issued, can_cancel_order,
  current_order_status, restore_stock_for_order, cancel_tables, cancel_refunded, cancel_if_refunded,
  cancel_at, cancel_order, process_cancel_refund, refund_at, allegro_cancel, correct_invoice,
}
use retrievershop_suite.Cancel.Twice.{Ends, cancel_order-Ends, cancel_order_once}

abbrev silent : Mailer
silent = record {
  send_order_confirmation = λ order. no_result;
  send_shipment_notification = λ order. no_result;
  send_delivery_confirmation = λ order. no_result;
  send_invoice_correction = λ order. no_result;
}

abbrev allegro : Outside
allegro = record {
  has_token = true;
  initiate_refund = λ external_id reason. (true, "ok");
  update_fulfillment_status = λ external_id. none;
  generate_correction_invoice = λ order_id reason. not_issued [];
}

abbrev paid_online : OrderColumns
paid_online = record {
  external_order_id = some "a-1";
  platform = some "allegro";
  is_cod = false;
  wfirma_invoice_id = none;
  wfirma_correction_id = none;
}

abbrev with_status : String → Db
with_status status = record {
  returns = [];
  return_logs = [];
  order_products = [];
  allegro_offers = [];
  orders = record {
    orders =
        record {
          order_id = "o1";
          email = none;
          courier_code = none;
          delivery_package_nr = none;
          emails_sent = [];
        }
        ∷ [];
    logs =
        record {
          order_id = "o1";
          status = status;
          tracking_number = none;
          courier_code = none;
          notes = none;
          timestamp = 3;
        }
        ∷ [];
    outbox = [];
  };
  stock = record {
    products = [];
    product_sizes = [];
    purchase_batches = [];
    sales = [];
    pushes = [];
    alerts = [];
  };
  messages = [];
}

abbrev plain_details : CancelDetails
plain_details = record {
  restored = [];
  correction_number = none;
  correction_errors = [];
  allegro_error = none;
}

in_past : (status : String) → All (λ y. y.timestamp < 9) (with_status status).orders.logs
in_past status = (omega arith, tt)

packed_cancelled :
    (cancel_order silent 9 allegro paid_online [] "o1" false "" (with_status "spakowano")).2
    ≡ cancelled plain_details
unfolding cancel_order cancel_at cancel_if_refunded cancel_refunded cancel_tables
    restore_stock_for_order process_cancel_refund refund_at allegro_cancel correct_invoice
    can_cancel_order current_order_status last_status
packed_cancelled = refl

sent_stays :
    can_cancel_order (current_order_status "o1" (with_status "wyslano").orders.logs) ≡ false
unfolding can_cancel_order current_order_status last_status
sent_stays = refl

cancel_order-Ends_example :
    Ends "o1"
      (with_status "spakowano")
      (cancel_order silent 9 allegro paid_online [] "o1" false "" (with_status "spakowano"))
cancel_order-Ends_example =
    cancel_order-Ends silent 9 allegro paid_online [] "o1" (with_status "spakowano")
      (in_past "spakowano") false ""

cancel_order_once_example :
    cancel_order silent 12 allegro paid_online [] "o1" true ""
      (cancel_order silent 9 allegro paid_online [] "o1" false "" (with_status "spakowano")).0
    ≡ (
      (cancel_order silent 9 allegro paid_online [] "o1" false "" (with_status "spakowano")).0,
      [],
      already_cancelled,
    )
cancel_order_once_example =
    cancel_order_once silent 9 allegro paid_online [] "o1" (with_status "spakowano") false ""
      plain_details silent 12 allegro paid_online [] true "" (in_past "spakowano") packed_cancelled
