-- ===== src/OrderStatus/Service.antt =====
-- The functions of magazyn/services/order_status.py. The row that the database inserts carries the
-- time `now` of the insertion; the log is kept newest first, so that of two rows with one
-- timestamp the one inserted later is the last.
use retrievershop_suite.Prelude.{
  ℕ, String, Option, none, some, List, [], ◌∷◌, Bool, true, false, not, ◌&&◌, ltb, if◌then◌else◌,
  str_eq, lookup, is_truthy, find_first, update_where,
}
use retrievershop_suite.Prelude.Int.{ℤ, pos, negsuc, ltb_ℤ, leb_ℤ, eqb_ℤ}
use retrievershop_suite.StatusConfig.{status_rank, status_email_map, problem_rank}
use retrievershop_suite.OrderStatus.Rows.{
  DeliveryResult, SentValue, flag, entry, Order, OrderStatusLog, Db, StatusDetails,
}

-- `x or None`.
abbrev pub or_none : Option String → Option String
or_none o = if is_truthy o then o else none

-- DeliveryResult.to_emails_sent_value
unfoldable pub to_emails_sent_value : DeliveryResult → SentValue
to_emails_sent_value d =
    if not d.success
    then entry false d.channel none none d.error
    else entry true d.channel (or_none d.message_id) (or_none d.status) none

abbrev pub is_sent : Option SentValue → Bool
is_sent none = false
is_sent (some (flag b)) = b
is_sent (some (entry sent channel message_id status error)) = sent

unfoldable pub was_notification_sent : Order → String → Bool
was_notification_sent order email_type = is_sent (lookup email_type order.emails_sent)

-- `d[k] = v` on a dict with text keys.
abbrev pub insert {ℓ} : {V : Type ℓ} → String → V → List (String × V) → List (String × V)
insert k v [] = (k, v) ∷ []
insert k v ((j, w) ∷ d) = if str_eq j k then (j, v) ∷ d else (j, w) ∷ insert k v d

abbrev pub has_id : String → Order → Bool
has_id order_id order = str_eq order.order_id order_id

-- The row of the order, in the tables.
abbrev pub put_order : String → (Order → Order) → Db → Db
put_order order_id f db = record db { orders = update_where (has_id order_id) f db.orders }

unfoldable pub mark_notification_sent : String → String → DeliveryResult → Db → Db
unfolding to_emails_sent_value
mark_notification_sent order_id email_type delivery = put_order order_id λ order. record order {
  emails_sent = insert email_type (to_emails_sent_value delivery) order.emails_sent;
}

-- What a sender of services/email_service.py comes to.
pub data SendOutcome : Type 0 where
  delivered : DeliveryResult → SendOutcome
  no_result raised : SendOutcome

pub record Mailer : Type 0 where
  pub send_order_confirmation : Order → SendOutcome
  pub send_shipment_notification : Order → SendOutcome
  pub send_delivery_confirmation : Order → SendOutcome
  pub send_invoice_correction : Order → SendOutcome

-- The chain of tests on `email_type`: the sender's outcome, or none where no sender is called.
abbrev pub call_sender : Mailer → String → Order → Option SendOutcome
call_sender m email_type order =
    if str_eq email_type "confirmation"
    then some (m.send_order_confirmation order)
    else if str_eq email_type "shipment"
    then some (m.send_shipment_notification order)
    else if str_eq email_type "delivery"
    then some (m.send_delivery_confirmation order)
    else if str_eq email_type "correction"
    then some (m.send_invoice_correction order)
    else none

abbrev pub record_outcome : String → String → Db → Option SendOutcome → Db
record_outcome order_id email_type db none = db
record_outcome order_id email_type db (some o) =
    let db' = record db { outbox = (order_id, email_type) ∷ db.outbox } in
    elim o [
      | delivered d ↦ if d.success then mark_notification_sent order_id email_type d db' else db'
      | no_result ↦ db'
      | raised ↦ db'
    ]

unfoldable pub dispatch_to : Mailer → Db → String → String → Option Order → Db
dispatch_to m db order_id email_type none = db
dispatch_to m db order_id email_type (some order) =
    if not (is_truthy order.email)
    then db
    else if was_notification_sent order email_type
    then db
    else record_outcome order_id email_type db (call_sender m email_type order)

unfoldable pub dispatch_type : Mailer → Db → String → Option String → Db
dispatch_type m db order_id none = db
dispatch_type m db order_id (some email_type) =
    dispatch_to m db order_id email_type (find_first (has_id order_id) db.orders)

unfoldable pub dispatch_status_email : Mailer → Db → String → String → Db
unfolding dispatch_type dispatch_to mark_notification_sent was_notification_sent
dispatch_status_email m db order_id status =
    dispatch_type m db order_id (lookup status status_email_map)

abbrev pub is_of : String → OrderStatusLog → Bool
is_of order_id log = str_eq log.order_id order_id

-- Of a row and the last of the rows added before it, the one with the later timestamp. The order of
-- rows with one timestamp is open in SQL; SQLite gives the row that was added first.
abbrev pub later : OrderStatusLog → Option OrderStatusLog → OrderStatusLog
later x none = x
later x (some y) = if ltb y.timestamp x.timestamp then x else y

-- `query(OrderStatusLog).filter(order_id).order_by(desc(timestamp)).first()`
unfoldable pub last_status : String → List OrderStatusLog → Option OrderStatusLog
last_status order_id [] = none
last_status order_id (x ∷ xs) =
    let rest = last_status order_id xs in if is_of order_id x then some (later x rest) else rest

-- The statuses of an order, newest row first.
unfoldable pub statuses_of : String → List OrderStatusLog → List String
statuses_of order_id [] = []
statuses_of order_id (x ∷ xs) =
    let rest = statuses_of order_id xs in if is_of order_id x then x.status ∷ rest else rest

-- `STATUS_HIERARCHY.get(status, -1)`
abbrev pub rank : Option ℕ → ℤ
rank none = negsuc 0
rank (some n) = pos n

unfoldable pub priority : String → ℤ
priority status = rank (status_rank status)

-- The test that refuses to take a status back, on the two priorities.
abbrev pub goes_back : ℤ → ℤ → Bool
goes_back last_priority new_priority =
    not (eqb_ℤ new_priority (pos problem_rank))
    && (not (eqb_ℤ last_priority (pos problem_rank))
        && (not (eqb_ℤ last_priority (negsuc 0)) && ltb_ℤ new_priority last_priority))

unfoldable pub is_backwards : String → String → Bool
is_backwards last new = goes_back (priority last) (priority new)

-- `if x: row.field = x`
abbrev pub assign_if : Option String → Option String → Option String
assign_if x old = if is_truthy x then x else old

abbrev pub update_tracking : StatusDetails → Order → Order
update_tracking k order = record order {
  delivery_package_nr = assign_if k.tracking_number order.delivery_package_nr;
  courier_code = assign_if k.courier_code order.courier_code;
}

-- Whether the last status lets the new one be added.
abbrev pub is_skipped : Bool → Bool → String → Option OrderStatusLog → Bool
is_skipped skip_if_same allow_backwards status none = false
is_skipped skip_if_same allow_backwards status (some last) =
    (if skip_if_same && str_eq last.status status
      then true
      else not allow_backwards && is_backwards last.status status)

-- The `dispatch_email` argument is a callback on the tables.
unfoldable pub add_order_status :
    (Db → String → String → Db)
    → ℕ
    → Db
    → String
    → String
    → Bool
    → Bool
    → Bool
    → StatusDetails
    → Db × Option OrderStatusLog
add_order_status dispatch_email now db order_id status skip_if_same allow_backwards send_email k =
    let db' = put_order order_id (update_tracking k) db in
    let log : OrderStatusLog = record {
      order_id = order_id;
      status = status;
      tracking_number = k.tracking_number;
      courier_code = k.courier_code;
      notes = k.notes;
      timestamp = now;
    } in
    let added = record db' { logs = log ∷ db'.logs } in
    if is_skipped skip_if_same allow_backwards status (last_status order_id db.logs)
    then (db', none)
    else (if send_email then dispatch_email added order_id status else added, some log)

-- `_order_reached_status` of services/notification_retry.py: the loop over the rows of the order.
unfoldable pub reached_in : ℤ → List OrderStatusLog → String → Bool
reached_in target [] order_id = false
reached_in target (x ∷ xs) order_id =
    let rest = reached_in target xs order_id in
    if not (is_of order_id x)
    then rest
    else if eqb_ℤ (priority x.status) (pos problem_rank)
    then rest
    else if leb_ℤ target (priority x.status)
    then true
    else rest

unfoldable pub order_reached_status : String → String → List OrderStatusLog → Bool
unfolding reached_in
order_reached_status order_id target_status logs =
    if ltb_ℤ (priority target_status) (pos 0)
    then false
    else reached_in (priority target_status) logs order_id
