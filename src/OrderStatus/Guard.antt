-- ===== src/OrderStatus/Guard.antt =====
-- What `add_order_status` of magazyn/services/order_status.py lets through.
use retrievershop_suite.Prelude.{
  ℕ, ◌≤◌, ◌<◌, ◌≡◌, ◌≢◌, ◌⊎◌, ◌↔◌, inl, inr, refl, String, Option, none, some, ◌∷◌, Bool, true,
  false, leb, ◌==◌, ◌||◌, ◌∙◌, ap, sym, arith, str_eq, Option-cases,
}
use retrievershop_suite.Prelude.Int.{pos}
use text.Mathlib.TextEquality.{eq_iff}
use retrievershop_suite.StatusConfig.Codes.{all_entries, lookup-all_entries}
use retrievershop_suite.StatusConfig.{status_rank, status_hierarchy, problem_rank}
use retrievershop_suite.OrderStatus.Rows.{OrderStatusLog, Db, StatusDetails}
use retrievershop_suite.OrderStatus.Service.{
  priority, is_backwards, rank, goes_back, is_skipped, last_status, add_order_status,
}

-- A status that the table of ranks has at a place of the flow, where problems have none.
pub record HasStage (status : String) (n : ℕ) : Type 0 where
  pub ranked : status_rank status ≡ some n
  pub regular : n ≢ problem_rank

-- The new status would take the order back: the last one stands at a stage of the flow, and the
-- new one is unknown or stands at an earlier stage.
pub data TakesBack (last new : String) : Type 0 where
  to_unknown : (n : ℕ) → HasStage last n → status_rank new ≡ none → TakesBack last new
  to_earlier : (n m : ℕ) → HasStage last n → HasStage new m → m < n → TakesBack last new

-- The test on two ranks of the table.
goes_back-rank :
    (l n : Option ℕ)
    → goes_back (rank l) (rank n) ≡ true
    → (k : ℕ) × (l ≡ some k)
      × (k ≢ problem_rank)
      × ((n ≡ none) ⊎ ((m : ℕ) × (n ≡ some m) × (m ≢ problem_rank) × (m < k)))
goes_back-rank none none h = ground arith
goes_back-rank none (some m) h = ground arith
goes_back-rank (some k) none h = (k, refl, ground arith, inl refl)
goes_back-rank (some k) (some m) h =
    (k, refl, ground arith, inr (m, refl, ground arith, ground arith))

goes_back_unknown : (k : ℕ) → k ≢ problem_rank → goes_back (pos k) (rank none) ≡ true
goes_back_unknown k h = ground arith

goes_back_earlier :
    (k m : ℕ) → k ≢ problem_rank → m ≢ problem_rank → m < k → goes_back (pos k) (pos m) ≡ true
goes_back_earlier k m h h' lt = ground arith

-- The test refuses exactly what takes an order back.
pub is_backwards_iff : (last new : String) → (is_backwards last new ≡ true) ↔ TakesBack last new
unfolding is_backwards priority
is_backwards_iff last new = (found, back)
  where
    found : is_backwards last new ≡ true → TakesBack last new
    found h =
        let (k, e, p, rest) = goes_back-rank (status_rank last) (status_rank new) h in
        let stage : HasStage last k = record { ranked = e; regular = p } in
        elim rest [
          | inl unknown ↦ to_unknown k stage unknown
          | inr (m, f, q, lt) ↦ to_earlier k m stage (record { ranked = f; regular = q }) lt
        ]

    back : TakesBack last new → is_backwards last new ≡ true
    back (to_unknown k s e) = rw (s.ranked, e) (goes_back_unknown k s.regular)
    back (to_earlier k m s u lt) =
        rw (s.ranked, u.ranked) (goes_back_earlier k m s.regular u.regular lt)

-- Why a status is not added: it is the last one already, or it takes the order back.
pub data Refuses (skip_if_same allow_backwards : Bool) (status : String)
    : Option OrderStatusLog → Type 0 where
  same :
      (last : OrderStatusLog)
      → skip_if_same ≡ true
      → last.status ≡ status
      → Refuses skip_if_same allow_backwards status (some last)
  back :
      (last : OrderStatusLog)
      → allow_backwards ≡ false
      → TakesBack last.status status
      → Refuses skip_if_same allow_backwards status (some last)

pub is_skipped_iff :
    (skip_if_same allow_backwards : Bool) (status : String) (last : Option OrderStatusLog)
    → (is_skipped skip_if_same allow_backwards status last ≡ true)
      ↔ Refuses skip_if_same allow_backwards status last
is_skipped_iff s a status last = (found last, back_to)
  where
    split :
        (l : OrderStatusLog)
        → is_skipped s a status (some l) ≡ true
        → ((s ≡ true) × (str_eq l.status status ≡ true))
          ⊎ ((a ≡ false) × (is_backwards l.status status ≡ true))
    split l h = ground arith

    found : (l : Option OrderStatusLog) → is_skipped s a status l ≡ true → Refuses s a status l
    found none h = cc
    found (some l) h = elim (split l h) [
      | inl (p, e) ↦ same l p ((eq_iff l.status status).0 e)
      | inr (p, e) ↦ back l p ((is_backwards_iff l.status status).0 e)
    ]

    back_to : {l : Option OrderStatusLog} → Refuses s a status l → is_skipped s a status l ≡ true
    back_to (same l p e) = rw (p, (eq_iff l.status status).1 e)
    back_to (back l p e) = rw (p, (is_backwards_iff l.status status).1 e) (ground arith)

module _ (dispatch_email : Db → String → String → Db) (now : ℕ) (db : Db) (order_id status : String)
    (skip_if_same allow_backwards send_email : Bool) (k : StatusDetails) where
  abbrev call : Db × Option OrderStatusLog
  call =
      add_order_status dispatch_email now db order_id status skip_if_same allow_backwards send_email
        k

  -- A call adds no row exactly when the last status of the order refuses the new one: it is the
  -- same and repeats are skipped, or the call may not go back and the new status is unknown to the
  -- table of ranks or stands at an earlier stage, while the last one stands at a stage of the
  -- flow. The log is then as it was. A row that is returned is of that order, has the new status
  -- and the current time, and without the e-mail it is put in front of the log.
  pub add_order_status_decides :
      ((call.1 ≡ none) ↔ Refuses skip_if_same allow_backwards status (last_status order_id db.logs))
      × (call.1 ≡ none → call.0.logs ≡ db.logs)
      × ((log : OrderStatusLog)
          → call.1 ≡ some log
          → (log.order_id ≡ order_id)
            × (log.status ≡ status)
            × (log.timestamp ≡ now)
            × (send_email ≡ false → call.0.logs ≡ log ∷ db.logs))
  unfolding add_order_status
  add_order_status_decides =
      let refused =
        is_skipped_iff skip_if_same allow_backwards status (last_status order_id db.logs) in
      (
        (λ e. refused.0 (ground arith), λ r. rw (refused.1 r)),
        λ e. ground arith,
        λ log e. (ground arith, ground arith, ground arith, λ off. ground arith),
      )

-- Every status of the table but delivery is at an earlier stage, or of the problem rank.
abbrev early_or_problem : String → ℕ → Bool
early_or_problem k n = leb n 6 || (n == problem_rank || str_eq k "dostarczono")

early_or_problem-cases :
    (n : ℕ) (b : Bool)
    → (leb n 6 || (n == problem_rank || b)) ≡ true
    → (n ≤ 6) ⊎ ((n ≡ problem_rank) ⊎ (b ≡ true))
early_or_problem-cases n b h = ground arith

rank-cases :
    (status : String) (n : ℕ)
    → status_rank status ≡ some n
    → (n ≤ 6) ⊎ ((n ≡ problem_rank) ⊎ (status ≡ "dostarczono"))
unfolding all_entries status_rank
rank-cases status n e =
    let test = lookup-all_entries early_or_problem status status_hierarchy n refl e in
    elim (early_or_problem-cases n (str_eq status "dostarczono") test) [
      | inl low ↦ inl low
      | inr (inl p) ↦ inr (inl p)
      | inr (inr s) ↦ inr (inr ((eq_iff status "dostarczono").0 s))
    ]

delivery_rank : status_rank "dostarczono" ≡ some 7
unfolding status_rank
delivery_rank = refl

-- Once an order is delivered, a status that is not of the problem rank is refused: unless it is
-- delivery itself it takes the order back.
pub delivered-Refuses :
    (last : OrderStatusLog) (status : String)
    → last.status ≡ "dostarczono"
    → status_rank status ≢ some problem_rank
    → Refuses true false status (some last)
delivered-Refuses last status d regular = elim (Option-cases (status_rank status)) [
  | inl unknown ↦ back last refl (to_unknown 7 stage unknown)
  | inr (n, e) ↦ elim (rank-cases status n e) [
    | inl low ↦
        back last refl
          (to_earlier 7 n stage (record { ranked = e; regular = omega arith }) (omega arith))
    | inr (inl p) ↦ absurd (regular (e ∙ ap some p))
    | inr (inr s) ↦ same last refl (d ∙ sym s)
  ]
]
  where
    stage : HasStage last.status 7
    stage = record { ranked = rw d delivery_rank; regular = omega arith }

-- After a delivery no call with the default flags adds a status, but for those of the problem rank
-- (a printing error, a delivery problem, a return, an uncollected parcel, a cancellation): the
-- call returns no row and leaves the log as it was.
pub delivered_is_final :
    (dispatch_email : Db → String → String → Db) (now : ℕ) (db : Db) (order_id status : String)
    (send_email : Bool) (k : StatusDetails) (last : OrderStatusLog)
    → last_status order_id db.logs ≡ some last
    → last.status ≡ "dostarczono"
    → status_rank status ≢ some problem_rank
    → let r = add_order_status dispatch_email now db order_id status true false send_email k in
      (r.1 ≡ none) × (r.0.logs ≡ db.logs)
delivered_is_final dispatch_email now db order_id status send_email k last e d regular =
    let (decides, kept, _) =
      add_order_status_decides dispatch_email now db order_id status true false send_email k in
    let refused : Refuses true false status (last_status order_id db.logs) =
      rw e (delivered-Refuses last status d regular) in
    (decides.1 refused, kept (decides.1 refused))
