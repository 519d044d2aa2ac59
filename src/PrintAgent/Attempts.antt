-- ===== src/PrintAgent/Attempts.antt =====
-- How retry_call of magazyn/services/print_agent_retry.py ends.
use retrievershop_suite.Prelude.{
  ℕ, zero, suc, ◌+◌, ◌-◌, ◌*◌, ◌^◌, ◌≤◌, ◌<◌, ◌≡◌, ◌≢◌, ◌⊎◌, refl, sym, subst, Option, some, true,
  leb, arith, inl, inr, Bool-cases,
}
use native.Mathlib.Numerals.{unary_clauses}
use native.Mathlib.Nat.{pow-zero}
use retrievershop_suite.PrintAgent.Retry.{
  Attempt, returned, shipment_expired, failed, raised, Retry, Ended, after_failure, retry_loop,
  retry_call,
}

-- What is promised of the end of the loop.
pub record IsRight {ℓ} {A : Type ℓ} (r : Retry) (func : ℕ → Attempt A) (e : Ended A) : Type ℓ where
  pub called : 0 < e.calls
  pub within : e.calls ≤ 1 ⊎ e.calls ≤ r.max_attempts
  pub last : e.outcome ≡ func (e.calls - 1)
  pub earlier : (i : ℕ) → suc i < e.calls → func i ≡ failed
  -- 1 + 2 + 4 + ... times the base delay
  pub waited : e.downtime_metric + r.base_delay ≡ r.base_delay * 2 ^ e.retry_metric
  -- A failure is passed on only at the limit, or when the agent stops.
  pub gave_up :
      e.outcome ≡ failed
      → r.max_attempts ≤ e.calls ⊎ (r.is_set e.calls ≡ true ⊎ r.wait e.calls ≡ true)

lt_or_eq : (i n : ℕ) → i < suc n → i < n ⊎ i ≡ n
lt_or_eq i n h = ground arith

module _ {ℓ} {A : Type ℓ} (r : Retry) (func : ℕ → Attempt A) where
  Ends : Option (Ended A) → Type ℓ
  Ends o = (e : Ended A) × (o ≡ some e) × IsRight r func e

  Failed : ℕ → ℕ → Type ℓ
  Failed attempts downtime =
      ((i : ℕ) → i < attempts → func i ≡ failed)
      × (attempts ≤ 0 ⊎ attempts < r.max_attempts)
      × (downtime + r.base_delay ≡ r.base_delay * 2 ^ attempts)

  doubled :
      (d n : ℕ)
      → d + r.base_delay ≡ r.base_delay * 2 ^ n
      → d + r.base_delay * 2 ^ n + r.base_delay ≡ r.base_delay * 2 ^ suc n
  doubled d n h =
      let e : r.base_delay * 2 ^ suc n ≡ r.base_delay * 2 ^ n + r.base_delay * 2 ^ n =
        simp unary_clauses (omega arith) in
      omega arith

  before_next :
      (n : ℕ)
      → ((i : ℕ) → i < n → func i ≡ failed)
      → func n ≡ failed
      → (i : ℕ) → i < suc n
      → func i ≡ failed
  before_next n before now i lt = elim (lt_or_eq i n lt) [
    | inl h ↦ before i h
    | inr e ↦ subst (λ j. func j ≡ failed) (sym e) now
  ]

  after_failure-Ends :
      (n downtime : ℕ) (again : Option (Ended A))
      → Failed n downtime
      → func n ≡ failed
      → (Failed (suc n) (downtime + r.base_delay * 2 ^ n) → Ends again)
      → Ends (after_failure r func (suc n) downtime again)
  unfolding after_failure Ends Failed
  after_failure-Ends n downtime again (before, few, sum) now go =
      let first : suc n ≤ 1 ⊎ suc n ≤ r.max_attempts = ground (arith) in
      let last : suc n - 1 ≡ n = omega arith in
      let now' : failed ≡ func (suc n - 1) = subst (λ k. failed ≡ func k) (sym last) (sym now) in
      let sum' = doubled downtime n sum in
      elim (Bool-cases (leb r.max_attempts (suc n))) [
        | inl t ↦ rw t (
          _,
          refl,
          record {
            called = omega arith;
            within = first;
            last = now';
            earlier = λ i lt. before i (omega (arith, lt));
            waited = rw last sum;
            gave_up = λ _. inl (ground arith);
          },
        )
        | inr m ↦ elim (Bool-cases (r.is_set (suc n))) [
          | inl t ↦
              rw (m, t)
                (
                  _,
                  refl,
                  record {
                    called = omega arith;
                    within = first;
                    last = now';
                    earlier = λ i lt. before i (omega (arith, lt));
                    waited = rw last sum;
                    gave_up = λ _. inr (inl t);
                  },
                )
          | inr u ↦ elim (Bool-cases (r.wait (suc n))) [
            | inl t ↦
                rw (m, u, t)
                  (
                    _,
                    refl,
                    record {
                      called = omega arith;
                      within = first;
                      last = now';
                      earlier = λ i lt. before i (omega (arith, lt));
                      waited = rw last sum';
                      gave_up = λ _. inr (inr t);
                    },
                  )
            | inr v ↦ rw (m, u, v) (go (before_next n before now, inr (ground arith), sum'))
          ]
        ]
      ]

  -- The end of the loop at an outcome that is passed on.
  passed_on :
      (n downtime : ℕ) (o : Attempt A)
      → Failed n downtime
      → func n ≡ o
      → o ≢ failed
      → Ends (
          some
            (record { outcome = o; calls = suc n; retry_metric = n; downtime_metric = downtime }))
  unfolding Ends Failed
  passed_on n downtime o (before, few, sum) now other =
      let last : suc n - 1 ≡ n = omega arith in
      (
        _,
        refl,
        record {
          called = omega arith;
          within = ground (arith);
          last = subst (λ k. o ≡ func k) (sym last) (sym now);
          earlier = λ i lt. before i (omega (arith, lt));
          waited = sum;
          gave_up = λ e. absurd (other e);
        },
      )

  few : (n d : ℕ) → Failed (suc n) d → suc n ≤ 0 ⊎ suc n < r.max_attempts
  unfolding Failed
  few n d (before, h, sum) = h

  more_fuel :
      (fuel n : ℕ) → suc n ≤ 0 ⊎ suc n < r.max_attempts → r.max_attempts < suc fuel + n → 0 < fuel
  more_fuel fuel n few enough = ground arith

  retry_turn :
      (fuel n downtime : ℕ) (o : Attempt A)
      → func n ≡ o
      → Failed n downtime
      → (Failed (suc n) (downtime + r.base_delay * 2 ^ n)
          → Ends (retry_loop r func fuel (suc n) (downtime + r.base_delay * 2 ^ n)))
      → Ends (retry_loop r func (suc fuel) n downtime)
  unfolding retry_loop
  retry_turn fuel n downtime failed e f go =
      rw (e, retry_loop) (after_failure-Ends n downtime _ f e go)
  retry_turn fuel n downtime (returned a) e f go =
      rw (e, retry_loop) (passed_on n downtime (returned a) f e (λ q. cc))
  retry_turn fuel n downtime shipment_expired e f go =
      rw (e, retry_loop) (passed_on n downtime shipment_expired f e (λ q. cc))
  retry_turn fuel n downtime raised e f go =
      rw (e, retry_loop) (passed_on n downtime raised f e (λ q. cc))

  retry_loop-Ends :
      (fuel n downtime : ℕ)
      → r.max_attempts < fuel + n
      → 0 < fuel
      → Failed n downtime
      → Ends (retry_loop r func fuel n downtime)
  unfolding retry_loop
  retry_loop-Ends zero n downtime enough some_fuel f = absurd (omega (arith, some_fuel))
  retry_loop-Ends (suc fuel) n downtime enough some_fuel f =
      retry_turn fuel n downtime (func n) refl f (λ f'.
        retry_loop-Ends fuel (suc n) _ (omega (arith, enough))
          (more_fuel fuel n (few n _ f') enough) f')

  -- The loop ends, after at most `max_attempts` calls of `func` (one if the limit is 0). It passes on
  -- the outcome of the last call, and all calls before failed; the delays so far add up to
  -- (2 ^ retries - 1) times the base delay; and it passes on a failure only where the limit is
  -- reached or the agent stops.
  pub retry_call_ends : (e : Ended A) × (retry_call r func ≡ some e) × IsRight r func e
  unfolding retry_call Failed Ends
  retry_call_ends =
      retry_loop-Ends (suc r.max_attempts) 0 0 (omega arith) (omega arith)
        (λ i h. absurd (omega (arith, h)), inl (omega arith), rw pow-zero (omega arith))
