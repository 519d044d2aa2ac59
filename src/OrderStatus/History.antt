-- ===== src/OrderStatus/History.antt =====
-- The history of statuses that calls of `add_order_status` leave
-- (magazyn/services/order_status.py).
use retrievershop_suite.Prelude.{
  ℕ, ◌≤◌, ◌<◌, ◌≡◌, ◌≢◌, inl, inr, refl, String, Option, none, some, List, [], ◌∷◌, Bool, true,
  false, arith, Bool-cases, Option-cases, lookup, All, ltb, find_first, subst, sym, ◌∙◌,
}
use retrievershop_suite.StatusConfig.{status_email_map}
use text.Mathlib.TextEquality.{eq_iff}
use retrievershop_suite.OrderStatus.Rows.{OrderStatusLog, Db, StatusDetails, Order}
use retrievershop_suite.OrderStatus.Service.{
  last_status, add_order_status, is_of, statuses_of, Mailer, dispatch_status_email, is_skipped,
  SendOutcome, record_outcome, delivered, no_result, raised, dispatch_to, dispatch_type,
  call_sender, has_id,
}
use retrievershop_suite.OrderStatus.Guard.{TakesBack, Refuses, is_skipped_iff, same, back}

-- The rows stand newest first by their timestamps, no two at one time.
abbrev pub IsOrdered : List OrderStatusLog → Type 0
IsOrdered [] = Unit
IsOrdered (x ∷ xs) = All (λ y. y.timestamp < x.timestamp) xs × IsOrdered xs

-- A later status may follow the ones before it, newest first: it differs from the last one and
-- does not take the order back from it.
abbrev pub Follows : String → List String → Type 0
Follows s [] = Unit
Follows s (t ∷ r) = (t ≢ s) × (¬ TakesBack t s)

-- Each status of a history, newest first, follows the ones before it.
abbrev pub IsForward : List String → Type 0
IsForward [] = Unit
IsForward (s ∷ r) = Follows s r × IsForward r

pub last_status_older :
    (order_id : String) (t : ℕ) (xs : List OrderStatusLog) (l : OrderStatusLog)
    → All (λ y. y.timestamp < t) xs
    → last_status order_id xs ≡ some l
    → l.timestamp < t
unfolding last_status
last_status_older order_id t [] l h e = cc
last_status_older order_id t (x ∷ xs) l h e = elim (Option-cases (last_status order_id xs)) [
  | inl n ↦ ground (arith, last_status_older order_id t xs l h.1)
  | inr (y, f) ↦ ground (arith, last_status_older order_id t xs y h.1 f)
]

-- How the query for the last status and the history of an order agree.
data Agrees : Option OrderStatusLog → List String → Type 0 where
  empty : Agrees none []
  newest : (l : OrderStatusLog) (r : List String) → Agrees (some l) (l.status ∷ r)

last_status-statuses_of :
    (order_id : String) (xs : List OrderStatusLog)
    → IsOrdered xs
    → Agrees (last_status order_id xs) (statuses_of order_id xs)
unfolding last_status statuses_of
last_status-statuses_of order_id [] h = empty
last_status-statuses_of order_id (x ∷ xs) h = elim (Bool-cases (is_of order_id x)) [
  | inr other ↦ rw other (last_status-statuses_of order_id xs h.1)
  | inl mine ↦ rw mine (elim (Option-cases (last_status order_id xs)) [
    | inl n ↦ rw n (newest x _)
    | inr (y, f) ↦ rw (f, older y f) (newest x _)
  ])
]
  where
    older :
        (y : OrderStatusLog) → last_status order_id xs ≡ some y → ltb y.timestamp x.timestamp ≡ true
    older y f = ground (arith, last_status_older order_id x.timestamp xs y h.0 f)

-- The e-mail of a status leaves the log alone.
pub dispatch_status_email-logs :
    (m : Mailer) (db : Db) (order_id status : String)
    → (dispatch_status_email m db order_id status).logs ≡ db.logs
unfolding dispatch_status_email
dispatch_status_email-logs m db order_id status = type_logs (lookup status status_email_map)
  where
    outcome_logs :
        (t : String) (o : Option SendOutcome) → (record_outcome order_id t db o).logs ≡ db.logs
    outcome_logs t none = refl
    outcome_logs t (some (delivered d)) = ground arith
    outcome_logs t (some no_result) = refl
    outcome_logs t (some raised) = refl

    order_logs : (t : String) (o : Option Order) → (dispatch_to m db order_id t o).logs ≡ db.logs
    order_logs t none = refl
    order_logs t (some order) = ground (arith, outcome_logs t (call_sender m t order))

    type_logs : (t : Option String) → (dispatch_type m db order_id t).logs ≡ db.logs
    type_logs none = refl
    type_logs (some t) = order_logs t (find_first (has_id order_id) db.orders)

-- One call with the default flags, which go back from no stage, and skip repeats.
pub record Request : Type 0 where
  pub order_id : String
  pub status : String
  pub now : ℕ
  pub send_email : Bool
  pub details : StatusDetails

serve : Mailer → Db → Request → Db
serve m db r =
    (add_order_status (dispatch_status_email m) r.now db r.order_id r.status true false r.send_email
      r.details).0

pub serve_all : Mailer → Db → List Request → Db
serve_all m db [] = db
serve_all m db (r ∷ rs) = serve_all m (serve m db r) rs

-- The calls come one after another in time, all of them after `t`.
abbrev pub InTime : ℕ → List Request → Type 0
InTime t [] = Unit
InTime t (r ∷ rs) = (t < r.now) × InTime r.now rs

-- The log is in order of time, holds nothing later than `t`, and each order's history is forward.
pub record IsSound (t : ℕ) (logs : List OrderStatusLog) : Type 0 where
  pub ordered : IsOrdered logs
  pub past : All (λ y. y.timestamp ≤ t) logs
  pub forward : (order_id : String) → IsForward (statuses_of order_id logs)

past_weaken :
    (t u : ℕ) (xs : List OrderStatusLog)
    → t < u
    → All (λ y. y.timestamp ≤ t) xs
    → All (λ y. y.timestamp < u) xs
past_weaken t u [] h p = tt
past_weaken t u (x ∷ xs) h p = (omega arith, past_weaken t u xs h p.1)

past_within :
    (u : ℕ) (xs : List OrderStatusLog)
    → All (λ y. y.timestamp < u) xs
    → All (λ y. y.timestamp ≤ u) xs
past_within u [] p = tt
past_within u (x ∷ xs) p = (omega arith, past_within u xs p.1)

-- What one call leaves in the log: what was there, or a new row that nothing refused.
data Appends (r : Request) (logs : List OrderStatusLog) : List OrderStatusLog → Type 0 where
  unchanged : Appends r logs logs
  appended :
      (log : OrderStatusLog)
      → log.order_id ≡ r.order_id
      → log.status ≡ r.status
      → log.timestamp ≡ r.now
      → ¬ Refuses true false r.status (last_status r.order_id logs)
      → Appends r logs (log ∷ logs)

serve-Appends : (m : Mailer) (db : Db) (r : Request) → Appends r db.logs (serve m db r).logs
unfolding serve add_order_status
serve-Appends m db r =
    elim (Bool-cases (is_skipped true false r.status (last_status r.order_id db.logs))) [
      | inl skip ↦ rw (skip, serve, add_order_status) unchanged
      | inr add ↦
          rw (add, serve, add_order_status)
            (elim (Bool-cases r.send_email) [
              | inl on ↦
                  rw (on, dispatch_status_email-logs) (appended _ refl refl refl (not_refused add))
              | inr off ↦ rw off (appended _ refl refl refl (not_refused add))
            ])
    ]
  where
    not_refused :
        is_skipped true false r.status (last_status r.order_id db.logs) ≡ false
        → ¬ Refuses true false r.status (last_status r.order_id db.logs)
    not_refused add b =
        cc ((is_skipped_iff true false r.status (last_status r.order_id db.logs)).1 b)

Follows-agreeing :
    (s : String) (last : Option OrderStatusLog) (h : List String)
    → Agrees last h
    → ¬ Refuses true false s last
    → Follows s h
Follows-agreeing s _ _ empty n = tt
Follows-agreeing s _ _ (newest l r) n = (λ e. n (same l refl e), λ b. n (back l refl b))

append-IsForward :
    (order_id : String) (r : Request) (log : OrderStatusLog) (logs : List OrderStatusLog)
    → IsOrdered logs
    → log.order_id ≡ r.order_id
    → log.status ≡ r.status
    → ¬ Refuses true false r.status (last_status r.order_id logs)
    → IsForward (statuses_of order_id logs)
    → IsForward (statuses_of order_id (log ∷ logs))
unfolding statuses_of
append-IsForward order_id r log logs ord e s n f = elim (Bool-cases (is_of order_id log)) [
  | inr other ↦ rw other f
  | inl mine ↦
      let o : r.order_id ≡ order_id = sym e ∙ (eq_iff log.order_id order_id).0 mine in
      rw (mine, s)
        (
          Follows-agreeing r.status (last_status order_id logs) (statuses_of order_id logs)
              (last_status-statuses_of order_id logs ord)
              (subst (λ x. ¬ Refuses true false r.status (last_status x logs)) o n),
          f,
        )
]

Appends-IsSound :
    (t : ℕ) (r : Request) (logs logs' : List OrderStatusLog)
    → t < r.now
    → Appends r logs logs'
    → IsSound t logs
    → IsSound r.now logs'
Appends-IsSound t r logs _ h unchanged s = record {
  ordered = s.ordered;
  past = past_within r.now logs (past_weaken t r.now logs h s.past);
  forward = s.forward;
}
Appends-IsSound t r logs _ h (appended log e f g n) s =
    let earlier = past_weaken t r.now logs h s.past in
    record {
      ordered = (rw g earlier, s.ordered);
      past = (omega arith, past_within r.now logs earlier);
      forward = λ o. append-IsForward o r log logs s.ordered e f n (s.forward o);
    }

-- Calls with the default flags, one after another in time and after all rows of the log (no two at
-- one timestamp), keep the log sound: in time order, no two rows at one timestamp, and in the history
-- of every order each status differs from the one before it and does not take the order back from a
-- stage of the flow to an earlier one or to an unknown status.
pub serve_all-IsSound :
    (m : Mailer) (t : ℕ) (db : Db) (requests : List Request)
    → InTime t requests
    → IsSound t db.logs
    → (u : ℕ) × IsSound u (serve_all m db requests).logs
unfolding serve_all
serve_all-IsSound m t db [] h s = (t, s)
serve_all-IsSound m t db (r ∷ rs) h s =
    serve_all-IsSound m r.now (serve m db r) rs h.1
      (Appends-IsSound t r db.logs (serve m db r).logs h.0 (serve-Appends m db r) s)
