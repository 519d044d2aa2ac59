-- ===== src/OrderStatus/Reached.antt =====
-- The test of magazyn/services/notification_retry.py whether an order ever reached a status.
use retrievershop_suite.Prelude.{
  ℕ, ◌≤◌, ◌≡◌, ◌≢◌, ◌↔◌, inl, inr, refl, String, Option, none, some, List, [], ◌∷◌, Bool, true,
  false, arith, Bool-cases, ◌&&◌, if◌then◌else◌, subst,
}
use retrievershop_suite.Prelude.Int.{pos, ltb_ℤ, leb_ℤ, eqb_ℤ}
use retrievershop_suite.StatusConfig.{status_rank, problem_rank}
use text.Mathlib.TextEquality.{eq_iff}
use retrievershop_suite.OrderStatus.Rows.{OrderStatusLog}
use retrievershop_suite.OrderStatus.Service.{
  rank, priority, is_of, reached_in, order_reached_status,
}

-- A row of the order whose status stands at a stage of the flow, at or past stage `n`.
pub record IsPast (order_id : String) (n : ℕ) (log : OrderStatusLog) : Type 0 where
  pub of_order : log.order_id ≡ order_id
  pub stage : ℕ
  pub ranked : status_rank log.status ≡ some stage
  pub regular : stage ≢ problem_rank
  pub past : n ≤ stage

-- Some row of the log satisfies `P`.
pub data Some (P : OrderStatusLog → Type 0) : List OrderStatusLog → Type 0 where
  here : {x : OrderStatusLog} {xs : List OrderStatusLog} → P x → Some P (x ∷ xs)
  there : {x : OrderStatusLog} {xs : List OrderStatusLog} → Some P xs → Some P (x ∷ xs)

row_test : Option ℕ → ℕ → Bool
row_test r n = if eqb_ℤ (rank r) (pos problem_rank) then false else leb_ℤ (pos n) (rank r)

row_test-stage :
    (r : Option ℕ) (n : ℕ)
    → row_test r n ≡ true
    → (k : ℕ) × (r ≡ some k) × (k ≢ problem_rank) × (n ≤ k)
unfolding row_test
row_test-stage none n h = ground arith
row_test-stage (some k) n h = (k, refl, ground arith, ground arith)

row_test_past : (k n : ℕ) → k ≢ problem_rank → n ≤ k → row_test (some k) n ≡ true
unfolding row_test
row_test_past k n h le = ground arith

-- One round of the loop.
reached_in-cons :
    (n : ℕ) (order_id : String) (x : OrderStatusLog) (xs : List OrderStatusLog)
    → reached_in (pos n) (x ∷ xs) order_id ≡ (
        if is_of order_id x && row_test (status_rank x.status) n
        then true
        else reached_in (pos n) xs order_id)
unfolding reached_in row_test priority
reached_in-cons n order_id x xs = ground arith

reached_in_iff :
    (n : ℕ) (order_id : String) (xs : List OrderStatusLog)
    → (reached_in (pos n) xs order_id ≡ true) ↔ Some (IsPast order_id n) xs
unfolding reached_in
reached_in_iff n order_id [] = (λ h. cc, λ h. elim h [ ])
reached_in_iff n order_id (x ∷ xs) =
    let ih = reached_in_iff n order_id xs in
    let r = status_rank x.status in
    (
      λ h. elim (Bool-cases (is_of order_id x && row_test r n)) [
        | inl t ↦
            let (k, e, p, q) = row_test-stage r n (ground arith) in
            here (record {
              of_order = (eq_iff x.order_id order_id).0 (ground arith);
              stage = k;
              ranked = e;
              regular = p;
              past = q;
            })
        | inr u ↦ there (ih.0 (rw (reached_in-cons n order_id x xs, u) at h))
      ],
      λ h. rw (reached_in-cons n order_id x xs) (back ih.1 h),
    )
  where
    or_rest : (b c : Bool) → c ≡ true → (if b then true else c) ≡ true
    or_rest b c h = ground arith

    back :
        (Some (IsPast order_id n) xs → reached_in (pos n) xs order_id ≡ true)
        → Some (IsPast order_id n) (x ∷ xs)
        → (if is_of order_id x && row_test (status_rank x.status) n
            then true
            else reached_in (pos n) xs order_id)
          ≡ true
    back ih (here p) = rw (
      (eq_iff x.order_id order_id).1 p.of_order,
      p.ranked,
      row_test_past p.stage n p.regular p.past,
    )
    back ih (there s) = or_rest _ _ (ih s)

-- The retry of a status's notification asks whether the order ever reached the status: it did
-- exactly when the table ranks the status and some row of the order's log stands at a stage of the
-- flow no earlier than it; rows of the problem rank and unknown statuses do not count.
pub order_reached_status_iff :
    (order_id target : String) (logs : List OrderStatusLog)
    → (order_reached_status order_id target logs ≡ true)
      ↔ ((n : ℕ) × (status_rank target ≡ some n) × Some (IsPast order_id n) logs)
unfolding order_reached_status priority
order_reached_status_iff order_id target logs = by_rank (status_rank target)
  where
    by_rank :
        (r : Option ℕ)
        → ((if ltb_ℤ (rank r) (pos 0) then false else reached_in (rank r) logs order_id) ≡ true)
          ↔ ((n : ℕ) × (r ≡ some n) × Some (IsPast order_id n) logs)
    by_rank none = (λ h. cc, λ h. cc h.1)
    by_rank (some n) =
        let loop = reached_in_iff n order_id logs in
        let open_test : ltb_ℤ (pos n) (pos 0) ≡ false = ground arith in
        (
          λ h. (n, refl, loop.0 (rw open_test at h)),
          λ h.
              let e : h.0 ≡ n = cc in
              rw open_test (loop.1 (subst (λ k. Some (IsPast order_id k) logs) e h.2)),
        )
