-- ===== src/Cancel/Twice.antt =====
-- What a cancellation does, and that it is done once (magazyn/services/order_cancel.py).
use retrievershop_suite.Prelude.{
  ℕ, ◌≡◌, ◌≢◌, ◌<◌, refl, ap, subst, ◌∙◌, String, Option, none, some, List, [], ◌∷◌, Bool, true,
  false, inl, inr, Bool-cases, Option-cases, find_first, find_first-update_where, str_eq, is_some,
  All, ltb, arith, ◌==◌, str_eq_refl,
}
use retrievershop_suite.Prelude.Int.{pos_part}
use retrievershop_suite.OrderStatus.Rows as OrderRows
use retrievershop_suite.OrderStatus.Rows.{OrderStatusLog, StatusDetails}
use retrievershop_suite.OrderStatus.Service.{
  put_order, Mailer, add_order_status, dispatch_status_email, has_id, last_status, is_skipped,
  update_tracking,
}
use retrievershop_suite.OrderStatus.History.{last_status_older}
use retrievershop_suite.Returns.Rows.{Db}
use retrievershop_suite.Returns.Restock.{restock}
use retrievershop_suite.Cancel.Order.{
  Outside, OutsideCall, OrderColumns, OrderLine, OrderCancelResult, CancelDetails, CancelRefund,
  cancelled, not_allowed, not_found, already_cancelled, refunded, refused, no_external_order_id,
  cash_on_delivery, no_token, can_cancel_order, current_order_status, line_quantity, find_line_size,
  restore_lines, restore_stock_for_order, is_sold_for, cancel_tables, cancel_refunded,
  cancel_if_refunded, cancel_at, cancel_order, cancel_details, cancel_notes,
}

-- The row that was added last is the last status, if all others are earlier.
last_status-added :
    (order_id : String) (l : OrderStatusLog) (logs : List OrderStatusLog)
    → str_eq l.order_id order_id ≡ true
    → All (λ y. y.timestamp < l.timestamp) logs
    → last_status order_id (l ∷ logs) ≡ some l
unfolding last_status
last_status-added order_id l logs mine past = elim (Option-cases (last_status order_id logs)) [
  | inl n ↦ rw (mine, n) refl
  | inr (y, f) ↦
      let older = last_status_older order_id l.timestamp logs y past f in
      let earlier : ltb y.timestamp l.timestamp ≡ true = ground (arith, older) in
      rw (mine, f) (rw earlier refl)
]

restore_lines-orders :
    (order_id : String) (lines : List OrderLine) (db : Db)
    → (restore_lines order_id lines db).0.orders ≡ db.orders
unfolding restore_lines restock
restore_lines-orders order_id [] db = refl
restore_lines-orders order_id (line ∷ lines) db = elim (Option-cases (find_line_size db line)) [
  | inl e ↦ rw (e, restore_lines) (restore_lines-orders order_id lines db)
  | inr (ps, e) ↦ elim (Bool-cases (pos_part (line_quantity line.quantity) == 0)) [
    | inl t ↦ rw (e, t, restore_lines) (restore_lines-orders order_id lines db)
    | inr u ↦ rw (e, u, restore_lines) (restore_lines-orders order_id lines _)
  ]
]

restore_stock_for_order-orders :
    (order_id : String) (lines : List OrderLine) (db : Db)
    → (restore_stock_for_order order_id lines db).0.orders ≡ db.orders
unfolding restore_stock_for_order
restore_stock_for_order-orders order_id lines db =
    elim (Bool-cases (is_some (find_first (is_sold_for order_id) db.stock.sales))) [
      | inl t ↦ rw t (restore_lines-orders order_id lines db)
      | inr u ↦ rw u refl
    ]

-- A status that is not the last one, taken back or not, is added.
not_skipped :
    (order_id : String) (logs : List OrderStatusLog)
    → str_eq (current_order_status order_id logs) "anulowano" ≡ false
    → is_skipped true true "anulowano" (last_status order_id logs) ≡ false
unfolding current_order_status
not_skipped order_id logs h = elim (Option-cases (last_status order_id logs)) [
  | inl n ↦ rw n refl
  | inr (y, f) ↦
      let h' : str_eq y.status "anulowano" ≡ false = rw (f, current_order_status) at h in
      rw (f, h') refl
]

module _ (mailer : Mailer) (now : ℕ) (order_id : String) (k : StatusDetails) (db : OrderRows.Db)
    (other : str_eq (current_order_status order_id db.logs) "anulowano" ≡ false) where
  abbrev added : OrderRows.Db
  added =
      (add_order_status (dispatch_status_email mailer) now db order_id "anulowano" true true true
        k).0

  abbrev new_log : OrderStatusLog
  new_log = record {
    order_id = order_id;
    status = "anulowano";
    tracking_number = k.tracking_number;
    courier_code = k.courier_code;
    notes = k.notes;
    timestamp = now;
  }

  abbrev with_log : OrderRows.Db
  with_log = record (put_order order_id (update_tracking k) db) { logs = new_log ∷ db.logs }

  dispatched_none : (d : OrderRows.Db) → dispatch_status_email mailer d order_id "anulowano" ≡ d
  unfolding dispatch_status_email
  dispatched_none d = refl

  added_any :
      (f : OrderRows.Db → String → String → OrderRows.Db)
      → (add_order_status f now db order_id "anulowano" true true true k).0
        ≡ f with_log order_id "anulowano"
  unfolding add_order_status
  added_any f = rw (not_skipped order_id db.logs other, add_order_status) refl

  added-eq : added ≡ with_log
  added-eq = added_any (dispatch_status_email mailer) ∙ dispatched_none with_log

  added-status :
      All (λ y. y.timestamp < now) db.logs → current_order_status order_id added.logs ≡ "anulowano"
  unfolding current_order_status
  added-status past =
      let last = last_status-added order_id new_log db.logs (str_eq_refl order_id) past in
      ap (λ (d : OrderRows.Db). current_order_status order_id d.logs) added-eq ∙ status_of last
    where
      status_of :
          last_status order_id (new_log ∷ db.logs) ≡ some new_log
          → current_order_status order_id (new_log ∷ db.logs) ≡ "anulowano"
      status_of e = rw (e, current_order_status) refl

  added-found :
      is_some (find_first (has_id order_id) db.orders) ≡ true
      → is_some (find_first (has_id order_id) added.orders) ≡ true
  added-found found =
      ap (λ (d : OrderRows.Db). is_some (find_first (has_id order_id) d.orders)) added-eq
      ∙ still (find_first (has_id order_id) db.orders) refl found
    where
      still :
          (o : Option OrderRows.Order)
          → find_first (has_id order_id) db.orders ≡ o
          → is_some (find_first (has_id order_id) db.orders) ≡ true
          → is_some (find_first (has_id order_id) with_log.orders) ≡ true
      still none e h = let q : false ≡ true = subst (λ p. is_some p ≡ true) e h in cc
      still (some o) e h =
          ap is_some (
            find_first-update_where (has_id order_id) (update_tracking k) db.orders o (λ x. refl) e)

-- How a cancellation ends: with the tables as they were, or with the order cancelled, which was
-- found and in a status that allows it.
pub data Ends (order_id : String) (db : Db)
    : Db × List OutsideCall × OrderCancelResult → Type 0 where
  left_alone :
      (calls : List OutsideCall) (r : OrderCancelResult)
      → ((d : CancelDetails) → r ≢ cancelled d)
      → Ends order_id db (db, calls, r)
  done :
      (db' : Db) (calls : List OutsideCall) (d : CancelDetails)
      → can_cancel_order (current_order_status order_id db.orders.logs) ≡ true
      → current_order_status order_id db'.orders.logs ≡ "anulowano"
      → is_some (find_first (has_id order_id) db'.orders.orders) ≡ true
      → Ends order_id db (db', calls, cancelled d)

module _ (mailer : Mailer) (now : ℕ) (out : Outside) (columns : OrderColumns)
    (lines : List OrderLine) (order_id : String) (db : Db)
    (past : All (λ y. y.timestamp < now) db.orders.logs) where
  abbrev current : String
  current = current_order_status order_id db.orders.logs

  module _ (found : is_some (find_first (has_id order_id) db.orders.orders) ≡ true)
      (other : str_eq current "anulowano" ≡ false) (allowed : can_cancel_order current ≡ true) where
    cancel_refunded-Ends :
        (reason : String) (calls : List OutsideCall) (message : Option String)
        → Ends order_id db
            (cancel_refunded mailer now out columns lines order_id reason calls message db)
    unfolding cancel_refunded cancel_tables
    cancel_refunded-Ends reason calls message =
        let same = restore_stock_for_order-orders order_id lines db in
        let k = cancel_details (cancel_notes reason message) in
        done _ _ _ allowed (rw same (added-status mailer now order_id k db.orders other past))
          (rw same (added-found mailer now order_id k db.orders other found))

    cancel_if_refunded-Ends :
        (reason : String) (r : List OutsideCall × CancelRefund)
        → Ends order_id db (cancel_if_refunded mailer now out columns lines order_id reason db r)
    unfolding cancel_if_refunded
    cancel_if_refunded-Ends reason (calls, refunded message) =
        cancel_refunded-Ends reason calls (some message)
    cancel_if_refunded-Ends reason (calls, refused message) = left_alone calls _ (λ d e. cc)
    cancel_if_refunded-Ends reason (calls, no_external_order_id) = left_alone calls _ (λ d e. cc)
    cancel_if_refunded-Ends reason (calls, cash_on_delivery) = left_alone calls _ (λ d e. cc)
    cancel_if_refunded-Ends reason (calls, no_token) = left_alone calls _ (λ d e. cc)

  cancel_at-Ends :
      (money_already_refunded : Bool) (reason : String)
      → is_some (find_first (has_id order_id) db.orders.orders) ≡ true
      → Ends order_id db
          (cancel_at mailer now out columns lines order_id money_already_refunded reason db current)
  unfolding cancel_at
  cancel_at-Ends back reason found = elim (Bool-cases (str_eq current "anulowano")) [
    | inl t ↦ rw t (left_alone [] already_cancelled (λ d e. cc))
    | inr other ↦ elim (Bool-cases (can_cancel_order current)) [
      | inr u ↦ rw (other, u) (left_alone [] (not_allowed current) (λ d e. cc))
      | inl allowed ↦ elim (Bool-cases back) [
        | inl t ↦ rw (other, allowed, t) (cancel_refunded-Ends found other allowed reason [] none)
        | inr u ↦ rw (other, allowed, u) (cancel_if_refunded-Ends found other allowed reason _)
      ]
    ]
  ]

  -- Where all rows of the log are earlier than the call, `cancel_order` either leaves all tables and does not
  -- answer that it cancelled, or answers that it cancelled: then the status of the order allowed it,
  -- and now is "anulowano".
  pub cancel_order-Ends :
      (money_already_refunded : Bool) (reason : String)
      → Ends order_id db
          (cancel_order mailer now out columns lines order_id money_already_refunded reason db)
  unfolding cancel_order
  cancel_order-Ends back reason =
      elim (Bool-cases (is_some (find_first (has_id order_id) db.orders.orders))) [
        | inl t ↦ rw t (cancel_at-Ends back _ t)
        | inr u ↦ rw u (left_alone [] not_found (λ d e. cc))
      ]

-- A cancelled order is refused as cancelled.
cancelled_again :
    (mailer : Mailer) (now : ℕ) (out : Outside) (columns : OrderColumns) (lines : List OrderLine)
    (order_id : String) (db : Db) (back : Bool) (reason : String)
    → current_order_status order_id db.orders.logs ≡ "anulowano"
    → is_some (find_first (has_id order_id) db.orders.orders) ≡ true
    → cancel_order mailer now out columns lines order_id back reason db
      ≡ (db, [], already_cancelled)
unfolding cancel_order cancel_at
cancelled_again mailer now out columns lines order_id db back reason e found = rw (found, e) refl

answers :
    (order_id : String) (db : Db) (x : Db × List OutsideCall × OrderCancelResult)
    (d : CancelDetails)
    → Ends order_id db x
    → x.2 ≡ cancelled d
    → (current_order_status order_id x.0.orders.logs ≡ "anulowano")
      × (is_some (find_first (has_id order_id) x.0.orders.orders) ≡ true)
answers order_id db _ d (left_alone calls r other) e = absurd (other d e)
answers order_id db _ d (done db' calls d' allowed status found) e = (status, found)

-- After `cancel_order` answered that it cancelled an order, where all rows of the log were earlier than
-- the call, a further call for the order on the tables that it left, with whatever arguments and
-- whatever it finds outside, changes no table, calls nothing outside, and answers that the order is
-- cancelled already.
pub cancel_order_once :
    (mailer : Mailer) (now : ℕ) (out : Outside) (columns : OrderColumns) (lines : List OrderLine)
    (order_id : String) (db : Db) (back : Bool) (reason : String) (d : CancelDetails)
    (mailer' : Mailer) (now' : ℕ) (out' : Outside) (columns' : OrderColumns)
    (lines' : List OrderLine) (back' : Bool) (reason' : String)
    → All (λ y. y.timestamp < now) db.orders.logs
    → (cancel_order mailer now out columns lines order_id back reason db).2 ≡ cancelled d
    → cancel_order mailer' now' out' columns' lines' order_id back' reason'
        (cancel_order mailer now out columns lines order_id back reason db).0
      ≡ (
        (cancel_order mailer now out columns lines order_id back reason db).0,
        [],
        already_cancelled,
      )
cancel_order_once mailer now out columns lines order_id db back reason d mailer' now' out' columns'
      lines' back' reason' past e =
    let first = cancel_order mailer now out columns lines order_id back reason db in
    let (status, found) =
      answers order_id db first d
        (cancel_order-Ends mailer now out columns lines order_id db past back reason) e in
    cancelled_again mailer' now' out' columns' lines' order_id first.0 back' reason' status found
