-- ===== src/PrintAgent/Window.antt =====
-- The sliding window of the rate limit (magazyn/services/print_agent_retry.py).
use retrievershop_suite.Prelude.{
  ℕ, suc, ◌+◌, ◌-◌, ◌≤◌, ◌<◌, ◌==◌, ◌≡◌, refl, ◌∙◌, arith, List, [], ◌∷◌, ◌++◌, true, false, ◌&&◌,
  ◌||◌, inl, inr, Bool-cases, if◌then◌else◌, ltb, leb, length, tests,
}
use retrievershop_suite.PrintAgent.Limit.{
  Clock, Answer, interrupts, drop_old_calls, append_call, wait_for_room, enforce_rate_limit,
}

-- How many calls lie in the window that ends at `t`.
unfoldable pub recent : ℕ → ℕ → List ℕ → ℕ
recent window t [] = 0
recent window t (h ∷ hs) = (if leb (h + window) t then 0 else 1) + recent window t hs

-- The clock does not go back, from the time `c` on, and a wait lasts as long as asked.
pub record IsMonotonic (c : ℕ) (clock : Clock) : Type 0 where
  pub later : c ≤ clock.now
  pub waits : (w : ℕ) → clock.now + w ≤ clock.after_wait w
  pub calls : (w : ℕ) → clock.after_wait w ≤ clock.call_time w

pub recent-append :
    (window t : ℕ) (xs ys : List ℕ)
    → recent window t (xs ++ ys) ≡ recent window t xs + recent window t ys
unfolding recent
recent-append window t [] ys = omega arith
recent-append window t (x ∷ xs) ys = omega (arith, recent-append window t xs ys)

pub recent_bound : (window t : ℕ) (xs : List ℕ) → recent window t xs ≤ length xs
unfolding recent
recent_bound window t [] = omega arith
recent_bound window t (x ∷ xs) = let rest = recent_bound window t xs in ground (arith, rest)

-- Calls that are dropped are out of every later window.
recent-drop_old_calls :
    (window t now : ℕ) (xs : List ℕ)
    → now ≤ t
    → recent window t (drop_old_calls window now xs) ≡ recent window t xs
unfolding recent drop_old_calls
recent-drop_old_calls window t now [] h = refl
recent-drop_old_calls window t now (x ∷ xs) h = elim (Bool-cases (leb (x + window) now)) [
  | inr u ↦ rw u refl
  | inl old ↦
      let rest = recent-drop_old_calls window t now xs h in
      let o : leb (x + window) t ≡ true = grind tests in rw (old, o) (omega (arith, rest))
]

length-drop_old_calls :
    (window now : ℕ) (xs : List ℕ) → length (drop_old_calls window now xs) ≤ length xs
unfolding drop_old_calls
length-drop_old_calls window now [] = omega arith
length-drop_old_calls window now (x ∷ xs) = elim (Bool-cases (leb (x + window) now)) [
  | inr u ↦ rw u (omega arith)
  | inl t ↦ rw t (omega (arith, length-drop_old_calls window now xs))
]

-- How a limited call ends: it is made with room in the window, or it is stopped; what is dropped is out
-- of the later windows.
pub data Limits (max_calls window c : ℕ) (clock : Clock) (times : List ℕ)
    : List ℕ × Answer → Type 0 where
  made :
      (kept : List ℕ) (t : ℕ)
      → c ≤ t
      → suc (length kept) ≤ max_calls
      → ((s : ℕ) → t ≤ s → recent window s kept ≡ recent window s times)
      → Limits max_calls window c clock times (append_call t kept)
  stopped :
      (kept : List ℕ)
      → length kept ≤ max_calls
      → ((s : ℕ) → clock.now ≤ s → recent window s kept ≡ recent window s times)
      → Limits max_calls window c clock times (kept, interrupts)

-- After the wait for the oldest call it is dropped.
dropped_first :
    (window a x : ℕ) (xs : List ℕ)
    → x + window ≤ a
    → suc (length (drop_old_calls window a (x ∷ xs))) ≤ length (x ∷ xs)
unfolding drop_old_calls
dropped_first window a x xs h =
    let o : leb (x + window) a ≡ true = grind tests in
    rw o (omega (arith, length-drop_old_calls window a xs))

not_full : (a b : ℕ) → leb a b ≡ false → suc b ≤ a
not_full a b h = grind tests

module _ (max_calls window c : ℕ) (clock : Clock) (times : List ℕ) (m : IsMonotonic c clock) where
  wait_for_room-Limits :
      (kept : List ℕ)
      → length kept ≤ max_calls
      → ((s : ℕ) → clock.now ≤ s → recent window s kept ≡ recent window s times)
      → Limits max_calls window c clock times (wait_for_room window clock kept)
  unfolding wait_for_room
  wait_for_room-Limits [] short same = stopped [] short same
  wait_for_room-Limits (x ∷ xs) short same =
      let w = x + window - clock.now in
      let a = clock.after_wait w in
      let reached : x + window ≤ a = omega (arith, m.waits w) in
      let room = dropped_first window a x xs reached in
      elim (Bool-cases (ltb 0 w && clock.interrupted w)) [
        | inl t ↦ rw t (stopped (x ∷ xs) short same)
        | inr u ↦ rw u (
            made (drop_old_calls window a (x ∷ xs)) (clock.call_time w)
              (omega (arith, m.later, m.waits w, m.calls w)) (omega (arith, room, short))
              (λ s h.
                recent-drop_old_calls window s a (x ∷ xs) (omega (arith, h, m.calls w))
                ∙ same s (omega (arith, h, m.waits w, m.calls w))))
      ]

  pub enforce_rate_limit-Limits :
      0 < max_calls
      → 0 < window
      → length times ≤ max_calls
      → Limits max_calls window c clock times (enforce_rate_limit max_calls window clock times)
  unfolding enforce_rate_limit
  enforce_rate_limit-Limits p q short =
      let kept = drop_old_calls window clock.now times in
      let positive : (max_calls == 0 || (window == 0)) ≡ false = ground (arith, p, q) in
      let shorter = length-drop_old_calls window clock.now times in
      let same = λ (s : ℕ) (h : clock.now ≤ s). recent-drop_old_calls window s clock.now times h in
      elim (Bool-cases (leb max_calls (length kept))) [
        | inl full ↦
            rw (positive, full) (wait_for_room-Limits kept (omega (arith, shorter, short)) same)
        | inr free ↦
            rw (positive, free)
              (made kept (clock.call_time 0) (omega (arith, m.later, m.waits 0, m.calls 0))
                (not_full _ _ free) (λ s h. same s (omega (arith, h, m.waits 0, m.calls 0))))
      ]
