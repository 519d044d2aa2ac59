-- ===== src/PrintAgent/Spread.antt =====
-- That the limit holds over any run of calls (magazyn/services/print_agent_retry.py).
use retrievershop_suite.Prelude.{
  ℕ, suc, ◌≤◌, ◌<◌, ◌≡◌, subst, arith, List, [], ◌∷◌, ◌++◌, length, length-append,
}
use retrievershop_suite.PrintAgent.Limit.{Clock, Answer, allowed, interrupts, enforce_rate_limit}
use retrievershop_suite.PrintAgent.Window.{
  recent, IsMonotonic, Limits, made, stopped, recent-append, recent_bound,
  enforce_rate_limit-Limits,
}

-- The calls made, newest first, the deque, and the time that the clock has reached.
pub data LimitRun (max_calls window : ℕ) : List ℕ → List ℕ → ℕ → Type 0 where
  start : LimitRun max_calls window [] [] 0
  calls :
      {history times : List ℕ} {c : ℕ} (clock : Clock) (t : ℕ)
      → LimitRun max_calls window history times c
      → IsMonotonic c clock
      → (enforce_rate_limit max_calls window clock times).1 ≡ allowed t
      → LimitRun max_calls window
          (t ∷ history)
          (enforce_rate_limit max_calls window clock times).0
          t
  stops :
      {history times : List ℕ} {c : ℕ} (clock : Clock)
      → LimitRun max_calls window history times c
      → IsMonotonic c clock
      → (enforce_rate_limit max_calls window clock times).1 ≡ interrupts
      → LimitRun max_calls window history
          (enforce_rate_limit max_calls window clock times).0
          clock.now

-- In the window that ends at a call there are at most so many calls, that one included.
unfoldable pub IsSpread : ℕ → ℕ → List ℕ → Type 0
IsSpread max_calls window [] = Unit
IsSpread max_calls window (t ∷ history) =
    (recent window t (t ∷ history) ≤ max_calls) × IsSpread max_calls window history

recent_cons : (window t x : ℕ) (xs : List ℕ) → recent window t (x ∷ xs) ≤ suc (recent window t xs)
unfolding recent
recent_cons window t x xs = ground (arith)

record IsKnown (max_calls window : ℕ) (history times : List ℕ) (c : ℕ) : Type 0 where
  short : length times ≤ max_calls
  known : (s : ℕ) → c ≤ s → recent window s history ≤ recent window s times
  spread : IsSpread max_calls window history

module _ (max_calls window : ℕ) where
  made-IsKnown :
      (history times : List ℕ) (c : ℕ) (clock : Clock) (t : ℕ) (x : List ℕ × Answer)
      → IsKnown max_calls window history times c
      → Limits max_calls window c clock times x
      → x.1 ≡ allowed t
      → IsKnown max_calls window (t ∷ history) x.0 t
  unfolding IsSpread recent
  made-IsKnown history times c clock t _ k (stopped kept short same) e = cc
  made-IsKnown history times c clock t _ k (made kept t' later room same) e =
      let e' : t' ≡ t = cc in
      subst (λ u. IsKnown max_calls window (u ∷ history) (kept ++ t' ∷ []) u) e'
        (record {
          short = omega (arith, length-append kept (t' ∷ []), room);
          known = λ s h. omega (
            arith,
            recent-append window s kept (t' ∷ []),
            same s h,
            k.known s (omega (arith, later, h)),
          );
          spread = (
            omega (
              arith,
              recent_cons window t' t' history,
              k.known t' later,
              same t' (omega arith),
              recent_bound window t' kept,
              room,
            ),
            k.spread,
          );
        })

  stopped-IsKnown :
      (history times : List ℕ) (c : ℕ) (clock : Clock) (x : List ℕ × Answer)
      → c ≤ clock.now
      → IsKnown max_calls window history times c
      → Limits max_calls window c clock times x
      → x.1 ≡ interrupts
      → IsKnown max_calls window history x.0 clock.now
  stopped-IsKnown history times c clock _ later k (made kept t' after room same) e = cc
  stopped-IsKnown history times c clock _ later k (stopped kept short same) e = record {
    short = short;
    known = λ s h. omega (arith, same s h, k.known s (omega (arith, later, h)));
    spread = k.spread;
  }

  run-IsKnown :
      (history times : List ℕ) (c : ℕ)
      → 0 < max_calls
      → 0 < window
      → LimitRun max_calls window history times c
      → IsKnown max_calls window history times c
  unfolding IsSpread recent
  run-IsKnown _ _ _ p q start = record {
    short = omega arith;
    known = λ s h. omega arith;
    spread = tt;
  }
  run-IsKnown _ _ _ p q (calls {history = history} {times = times} {c = c} clock t run m e) =
      let k = run-IsKnown history times c p q run in
      made-IsKnown history times c clock t _ k
        (enforce_rate_limit-Limits max_calls window c clock times m p q k.short) e
  run-IsKnown _ _ _ p q (stops {history = history} {times = times} {c = c} clock run m e) =
      let k = run-IsKnown history times c p q run in
      stopped-IsKnown history times c clock _ m.later k
        (enforce_rate_limit-Limits max_calls window c clock times m p q k.short) e

  -- However often enforce_rate_limit is called, with a positive limit, a positive window, a clock that
  -- does not go back and waits that last as long as asked: in the window that ends at a call that was
  -- made lie at most max_calls calls, and the deque never holds more.
  pub enforce_rate_limit-IsSpread :
      (history times : List ℕ) (c : ℕ)
      → 0 < max_calls
      → 0 < window
      → LimitRun max_calls window history times c
      → IsSpread max_calls window history × (length times ≤ max_calls)
  enforce_rate_limit-IsSpread history times c p q run =
      let k = run-IsKnown history times c p q run in (k.spread, k.short)
