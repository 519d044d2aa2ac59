-- ===== src/PrintAgent/Limit.antt =====
-- enforce_rate_limit of magazyn/services/print_agent_retry.py. Times are whole units of the clock, and
-- the deque is a list, oldest call first.
use retrievershop_suite.Prelude.{
  ℕ, ◌+◌, ◌-◌, ◌==◌, List, [], ◌∷◌, ◌++◌, Bool, ◌&&◌, ◌||◌, if◌then◌else◌, ltb, leb, length,
}

-- What the clock and the stop event answer: the first reading; of a wait, whether it is interrupted,
-- the reading after it, and the reading at the call.
pub record Clock : Type 0 where
  pub now : ℕ
  pub interrupted : ℕ → Bool
  pub after_wait : ℕ → ℕ
  pub call_time : ℕ → ℕ

-- How a call ends: not limited, interrupted, or allowed at a time.
pub data Answer : Type 0 where
  unlimited interrupts : Answer
  allowed : ℕ → Answer

unfoldable pub drop_old_calls : ℕ → ℕ → List ℕ → List ℕ
drop_old_calls window now [] = []
drop_old_calls window now (t ∷ ts) =
    let rest = drop_old_calls window now ts in if leb (t + window) now then rest else t ∷ ts

-- The call is made and written down.
abbrev pub append_call : ℕ → List ℕ → List ℕ × Answer
append_call t times = (times ++ t ∷ [], allowed t)

-- The wait until the oldest call leaves the window; a wait of no time is none.
unfoldable pub wait_for_room : ℕ → Clock → List ℕ → List ℕ × Answer
unfolding drop_old_calls
wait_for_room window clock [] = ([], interrupts)
wait_for_room window clock (t ∷ ts) =
    let wait_time = t + window - clock.now in
    if ltb 0 wait_time && clock.interrupted wait_time
    then (t ∷ ts, interrupts)
    else append_call (clock.call_time wait_time)
        (drop_old_calls window (clock.after_wait wait_time) (t ∷ ts))

unfoldable pub enforce_rate_limit : ℕ → ℕ → Clock → List ℕ → List ℕ × Answer
unfolding wait_for_room
enforce_rate_limit max_calls window clock call_times =
    let kept = drop_old_calls window clock.now call_times in
    if max_calls == 0 || (window == 0)
    then (call_times, unlimited)
    else if leb max_calls (length kept)
    then wait_for_room window clock kept
    else append_call (clock.call_time 0) kept
