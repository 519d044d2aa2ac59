-- ===== src/OrderStatus/Emails.antt =====
-- The e-mails of magazyn/services/order_status.py, and the test by which
-- services/notification_retry.py sends them again.
use retrievershop_suite.Prelude.{
  ◌≡◌, ◌⊎◌, inl, inr, refl, String, Option, none, some, List, [], ◌∷◌, true, false, arith, str_eq,
  Bool-cases, lookup, find_first, is_truthy, find_first-update_where,
}
use retrievershop_suite.StatusConfig.{status_email_map}
use text.Mathlib.TextEquality.{eq_iff}
use retrievershop_suite.OrderStatus.Rows.{Db, Order, DeliveryResult}
use retrievershop_suite.OrderStatus.Service.{
  Mailer, to_emails_sent_value, insert, was_notification_sent, dispatch_status_email, SendOutcome,
  delivered, dispatch_to, dispatch_type, call_sender, mark_notification_sent, has_id,
}

lookup-insert_self {ℓ} :
    {V : Type ℓ} (k : String) (v : V) (d : List (String × V)) → lookup k (insert k v d) ≡ some v
lookup-insert_self k v [] = ground (arith, eq_iff k k)
lookup-insert_self k v ((j, w) ∷ d) = ground (arith, lookup-insert_self k v d)

-- A sender that delivers what it is called for.
abbrev pub Delivers : (Order → SendOutcome) → Type 0
Delivers send = (o : Order) → (d : DeliveryResult) × (send o ≡ delivered d) × (d.success ≡ true)

pub record IsReliable (m : Mailer) : Type 0 where
  pub confirmation : Delivers m.send_order_confirmation
  pub shipment : Delivers m.send_shipment_notification
  pub delivery : Delivers m.send_delivery_confirmation
  pub correction : Delivers m.send_invoice_correction

-- Where a sender is called it delivers.
data Outcome : Option SendOutcome → Type 0 where
  uncalled : Outcome none
  success : (d : DeliveryResult) → d.success ≡ true → Outcome (some (delivered d))

call_sender-Outcome :
    (m : Mailer) (t : String) (o : Order) → IsReliable m → Outcome (call_sender m t o)
call_sender-Outcome m t o r = elim (Bool-cases (str_eq t "confirmation")) [
  | inl a ↦ rw a (sent (r.confirmation o))
  | inr a ↦ elim (Bool-cases (str_eq t "shipment")) [
    | inl b ↦ rw (a, b) (sent (r.shipment o))
    | inr b ↦ elim (Bool-cases (str_eq t "delivery")) [
      | inl c ↦ rw (a, b, c) (sent (r.delivery o))
      | inr c ↦ elim (Bool-cases (str_eq t "correction")) [
        | inl d ↦ rw (a, b, c, d) (sent (r.correction o))
        | inr d ↦ rw (a, b, c, d) uncalled
      ]
    ]
  ]
]
  where
    sent :
        {s : SendOutcome}
        → ((d : DeliveryResult) × (s ≡ delivered d) × (d.success ≡ true))
        → Outcome (some s)
    sent (d, e, ok) = rw e (success d ok)

-- The order row after a delivered e-mail, and the tables with the call noted.
abbrev marked_order : String → DeliveryResult → Order → Order
marked_order t d order = record order {
  emails_sent = insert t (to_emails_sent_value d) order.emails_sent;
}

abbrev noted : String → String → Db → Db
noted order_id t db = record db { outbox = (order_id, t) ∷ db.outbox }

was_notification_sent-marked_order :
    (t : String) (d : DeliveryResult) (order : Order)
    → d.success ≡ true
    → was_notification_sent (marked_order t d order) t ≡ true
unfolding was_notification_sent to_emails_sent_value
was_notification_sent-marked_order t d order ok = rw (lookup-insert_self, ok)

dispatch_to_sent :
    (m : Mailer) (db : Db) (order_id t : String) (order : Order)
    → was_notification_sent order t ≡ true
    → dispatch_to m db order_id t (some order) ≡ db
unfolding dispatch_to
dispatch_to_sent m db order_id t order h = ground (arith)

-- What the first dispatch does with a reliable mailer: nothing, or a delivery that it records.
dispatch_to-cases :
    (m : Mailer) (db : Db) (order_id t : String) (order : Order)
    → IsReliable m
    → (dispatch_to m db order_id t (some order) ≡ db)
      ⊎ ((d : DeliveryResult) × (d.success ≡ true)
          × (dispatch_to m db order_id t (some order)
              ≡ mark_notification_sent order_id t d (noted order_id t db)))
unfolding dispatch_to
dispatch_to-cases m db order_id t order r = elim (Bool-cases (is_truthy order.email)) [
  | inr no_address ↦ inl (rw (no_address, dispatch_to))
  | inl address ↦ elim (Bool-cases (was_notification_sent order t)) [
    | inl before ↦ inl (dispatch_to_sent m db order_id t order before)
    | inr new ↦ outcome address new (call_sender m t order) refl (call_sender-Outcome m t order r)
  ]
]
  where
    outcome :
        is_truthy order.email ≡ true
        → was_notification_sent order t ≡ false
        → (o : Option SendOutcome) → call_sender m t order ≡ o
        → Outcome o
        → (dispatch_to m db order_id t (some order) ≡ db)
          ⊎ ((d : DeliveryResult) × (d.success ≡ true)
              × (dispatch_to m db order_id t (some order)
                  ≡ mark_notification_sent order_id t d (noted order_id t db)))
    outcome address new _ e uncalled = inl (rw (address, new, e, dispatch_to))
    outcome address new _ e (success d ok) = inr (d, ok, rw (address, new, e, ok, dispatch_to))

dispatch_to-twice :
    (m : Mailer) (db : Db) (order_id t : String) (order : Order)
    → IsReliable m
    → find_first (has_id order_id) db.orders ≡ some order
    → let db' = dispatch_to m db order_id t (some order) in
      dispatch_to m db' order_id t (find_first (has_id order_id) db'.orders) ≡ db'
dispatch_to-twice m db order_id t order r found = elim (dispatch_to-cases m db order_id t order r) [
  | inl e ↦ rw e (rw found e)
  | inr (d, ok, e) ↦ rw e (again d ok)
]
  where
    again :
        (d : DeliveryResult)
        → d.success ≡ true
        → let db' = mark_notification_sent order_id t d (noted order_id t db) in
          dispatch_to m db' order_id t (find_first (has_id order_id) db'.orders) ≡ db'
    again d ok =
        let db' = mark_notification_sent order_id t d (noted order_id t db) in
        let found' : find_first (has_id order_id) db'.orders ≡ some (marked_order t d order) =
          unfold mark_notification_sent in
          find_first-update_where (has_id order_id) (marked_order t d) db.orders order (λ x. refl)
            found in
        rw found' (
          dispatch_to_sent m db' order_id t (marked_order t d order)
            (was_notification_sent-marked_order t d order ok))

-- With a mailer whose senders deliver, dispatching the e-mail of a status to an order a second time
-- changes nothing: no second e-mail is sent, and the record of what was sent stays as it was.
pub dispatch_status_email_once :
    (m : Mailer) (db : Db) (order_id status : String)
    → IsReliable m
    → let db' = dispatch_status_email m db order_id status in
      dispatch_status_email m db' order_id status ≡ db'
unfolding dispatch_status_email
dispatch_status_email_once m db order_id status r = of_type (lookup status status_email_map)
  where
    of_order :
        (t : String) (o : Option Order)
        → find_first (has_id order_id) db.orders ≡ o
        → let db' = dispatch_to m db order_id t o in
          dispatch_to m db' order_id t (find_first (has_id order_id) db'.orders) ≡ db'
    of_order t none e = rw e refl
    of_order t (some order) e = dispatch_to-twice m db order_id t order r e

    of_type :
        (t : Option String)
        → dispatch_type m (dispatch_type m db order_id t) order_id t ≡ dispatch_type m db order_id t
    of_type none = refl
    of_type (some t) = of_order t (find_first (has_id order_id) db.orders) refl
