-- ===== src/Witnesses/Limited.antt =====
-- Two calls under a limit of one call in ten units (magazyn/services/print_agent_retry.py).
use retrievershop_suite.Prelude.{ℕ, ◌+◌, ◌≤◌, ◌≡◌, refl, arith, [], ◌∷◌, length, false}
use retrievershop_suite.PrintAgent.Limit.{
  Clock, allowed, drop_old_calls, wait_for_room, enforce_rate_limit,
}
use retrievershop_suite.PrintAgent.Window.{IsMonotonic}
use retrievershop_suite.PrintAgent.Spread.{start, calls, IsSpread, enforce_rate_limit-IsSpread}

-- Waits are never interrupted, and last exactly as long as asked.
abbrev clock_at : ℕ → Clock
clock_at t = record {
  now = t;
  interrupted = λ w. false;
  after_wait = λ w. t + w;
  call_time = λ w. t + w;
}

clock_at-IsMonotonic : (c t : ℕ) → c ≤ t → IsMonotonic c (clock_at t)
clock_at-IsMonotonic c t h = record {
  later = h;
  waits = λ w. omega arith;
  calls = λ w. omega arith;
}

first_call : (enforce_rate_limit 1 10 (clock_at 5) []).1 ≡ allowed 5
unfolding enforce_rate_limit drop_old_calls
first_call = refl

-- The second waits until the first has left the window.
second_call :
    (enforce_rate_limit 1 10 (clock_at 6) (enforce_rate_limit 1 10 (clock_at 5) []).0).1
    ≡ allowed 15
unfolding enforce_rate_limit drop_old_calls wait_for_room
second_call = refl

enforce_rate_limit-IsSpread_example :
    let times =
      (enforce_rate_limit 1 10 (clock_at 6) (enforce_rate_limit 1 10 (clock_at 5) []).0).0 in
    IsSpread 1 10 (15 ∷ 5 ∷ []) × (length times ≤ 1)
enforce_rate_limit-IsSpread_example =
    enforce_rate_limit-IsSpread 1 10 (15 ∷ 5 ∷ [])
      (enforce_rate_limit 1 10 (clock_at 6) (enforce_rate_limit 1 10 (clock_at 5) []).0).0 15
      (omega arith) (omega arith)
      (calls (clock_at 6) 15
        (calls (clock_at 5) 5 start (clock_at-IsMonotonic 0 5 (omega arith)) first_call)
        (clock_at-IsMonotonic 5 6 (omega arith)) second_call)
