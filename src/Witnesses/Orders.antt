-- ===== src/Witnesses/Orders.antt =====
-- Orders: statuses and their e-mails (magazyn/services/order_status.py).
use retrievershop_suite.Prelude.{
  ℕ, ◌≡◌, ◌≢◌, ◌↔◌, inl, refl, Option, none, some, List, [], ◌∷◌, true, false, arith,
}
use retrievershop_suite.StatusConfig.{status_rank, problem_rank}
use retrievershop_suite.StatusConfig.Codes.{is_carrier_status, tracking_codes_past_warehouse}
use retrievershop_suite.OrderStatus.Rows.{OrderStatusLog, Db, StatusDetails, Order}
use retrievershop_suite.OrderStatus.Service.{
  add_order_status, dispatch_status_email, Mailer, delivered, order_reached_status, last_status,
  SendOutcome, is_backwards, priority, statuses_of,
}
use retrievershop_suite.OrderStatus.Guard.{Refuses, add_order_status_decides, delivered_is_final}
use retrievershop_suite.OrderStatus.History.{Request, serve_all, IsSound, serve_all-IsSound}
use retrievershop_suite.OrderStatus.Emails.{IsReliable, dispatch_status_email_once}
use retrievershop_suite.OrderStatus.Reached.{IsPast, Some, order_reached_status_iff}

abbrev order : Order
order = record {
  order_id = "allegro_1";
  email = some "buyer@example.com";
  courier_code = none;
  delivery_package_nr = none;
  emails_sent = [];
}

abbrev packed : OrderStatusLog
packed = record {
  order_id = "allegro_1";
  status = "spakowano";
  tracking_number = none;
  courier_code = none;
  notes = none;
  timestamp = 5;
}

abbrev delivery_row : OrderStatusLog
delivery_row = record packed { status = "dostarczono"; timestamp = 9 }

abbrev db : Db
db = record { orders = order ∷ []; logs = packed ∷ []; outbox = [] }

abbrev delivered_db : Db
delivered_db = record { orders = order ∷ []; logs = delivery_row ∷ packed ∷ []; outbox = [] }

abbrev details : StatusDetails
details = record { tracking_number = some "6200"; courier_code = none; notes = none }

abbrev sender : Order → SendOutcome
sender o =
    delivered
      (record { success = true; channel = "smtp"; message_id = none; status = none; error = none })

abbrev mailer : Mailer
mailer = record {
  send_order_confirmation = sender;
  send_shipment_notification = sender;
  send_delivery_confirmation = sender;
  send_invoice_correction = sender;
}

mailer-IsReliable : IsReliable mailer
mailer-IsReliable = record {
  confirmation = λ o. (_, refl, refl);
  shipment = λ o. (_, refl, refl);
  delivery = λ o. (_, refl, refl);
  correction = λ o. (_, refl, refl);
}

tracking_codes_past_warehouse_example : is_carrier_status "w_punkcie" ≡ true
tracking_codes_past_warehouse_example = tracking_codes_past_warehouse "AVIZO" "w_punkcie" (inl refl)

abbrev printed_again : Db × Option OrderStatusLog
printed_again =
    add_order_status (dispatch_status_email mailer) 7 db "allegro_1" "wydrukowano" true false true
      details

-- A packed order is not taken back to "printed".
printed_again_refused : printed_again.1 ≡ none
unfolding add_order_status dispatch_status_email last_status is_backwards priority status_rank
printed_again_refused = refl

add_order_status_decides_example :
    ((printed_again.1 ≡ none) ↔ Refuses true false "wydrukowano" (last_status "allegro_1" db.logs))
    × (printed_again.1 ≡ none → printed_again.0.logs ≡ db.logs)
    × ((log : OrderStatusLog)
        → printed_again.1 ≡ some log
        → (log.order_id ≡ "allegro_1")
          × (log.status ≡ "wydrukowano")
          × (log.timestamp ≡ 7)
          × (true ≡ false → printed_again.0.logs ≡ log ∷ db.logs))
add_order_status_decides_example =
    add_order_status_decides (dispatch_status_email mailer) 7 db "allegro_1" "wydrukowano" true
      false true details

not_problem : status_rank "wyslano" ≢ some problem_rank
unfolding status_rank
not_problem e = ground arith

delivered_is_final_example :
    let r =
      add_order_status
        (dispatch_status_email mailer)
        12
        delivered_db
        "allegro_1"
        "wyslano"
        true
        false
        true
        details in
    (r.1 ≡ none) × (r.0.logs ≡ delivered_db.logs)
delivered_is_final_example =
    delivered_is_final (dispatch_status_email mailer) 12 delivered_db "allegro_1" "wyslano" true
      details delivery_row (unfold last_status in refl) refl not_problem

abbrev requests : List Request
requests =
    record {
      order_id = "allegro_1";
      status = "pobrano";
      now = 1;
      send_email = true;
      details = details;
    }
    ∷ record {
      order_id = "allegro_1";
      status = "wyslano";
      now = 4;
      send_email = true;
      details = details;
    }
    ∷ record {
      order_id = "allegro_1";
      status = "wydrukowano";
      now = 5;
      send_email = false;
      details = details;
    }
    ∷ []

abbrev no_logs : Db
no_logs = record { orders = order ∷ []; logs = []; outbox = [] }

serve_all-IsSound_example : (u : ℕ) × IsSound u (serve_all mailer no_logs requests).logs
serve_all-IsSound_example =
    serve_all-IsSound mailer 0 no_logs requests (omega arith)
      (record { ordered = tt; past = tt; forward = λ o. unfold statuses_of in tt })

dispatch_status_email_once_example :
    let db' = dispatch_status_email mailer db "allegro_1" "wyslano" in
    dispatch_status_email mailer db' "allegro_1" "wyslano" ≡ db'
dispatch_status_email_once_example =
    dispatch_status_email_once mailer db "allegro_1" "wyslano" mailer-IsReliable

order_reached_status_iff_example :
    (order_reached_status "allegro_1" "wydrukowano" db.logs ≡ true)
    ↔ ((n : ℕ) × (status_rank "wydrukowano" ≡ some n) × Some (IsPast "allegro_1" n) db.logs)
order_reached_status_iff_example = order_reached_status_iff "allegro_1" "wydrukowano" db.logs

reached : order_reached_status "allegro_1" "wydrukowano" db.logs ≡ true
unfolding order_reached_status priority status_rank
reached = refl
