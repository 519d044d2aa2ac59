-- ===== src/PrintAgent/Rounds.antt =====
-- The bound on the tries of an order in the print queue (magazyn/services/print_agent_queue.py).
use retrievershop_suite.Prelude.{
  ℕ, suc, ◌+◌, ◌≤◌, ◌<◌, ◌≡◌, refl, String, some, List, [], ◌∷◌, map, Bool, true, false, leb, arith,
  inl, inr, Bool-cases, All, All-append, get_or, subst, update_where,
}
use retrievershop_suite.PrintAgent.Queue.{
  QueueItem, Call, OrderData, PrintQueueProcessor, Processing, retries, has_order, add_to_group,
  group_into, group_by_order, run_calls, restore_item, restore_items, finish_order, print_order,
  process_group, process_groups, process, limit_calls, mark_as_printed, notify_messenger,
  order_calls, start_print,
}

-- The groups hold what the queue holds.
add_to_group-All :
    (P : QueueItem → Type 0) (item : QueueItem) (groups : List (String × List QueueItem))
    → P item
    → All (λ g. All P g.1) groups
    → All (λ g. All P g.1) (add_to_group item groups)
unfolding add_to_group
add_to_group-All P item [] p h = ((p, tt), tt)
add_to_group-All P item ((k, items) ∷ groups) p h = elim (Bool-cases (has_order k item)) [
  | inl t ↦ rw t (All-append P items (item ∷ []) h.0 (p, tt), h.1)
  | inr u ↦ rw u (h.0, add_to_group-All P item groups p h.1)
]

group_into-All :
    (P : QueueItem → Type 0) (queue : List QueueItem) (groups : List (String × List QueueItem))
    → All P queue
    → All (λ g. All P g.1) groups
    → All (λ g. All P g.1) (group_into queue groups)
unfolding group_into
group_into-All P [] groups q h = h
group_into-All P (item ∷ queue) groups q h =
    group_into-All P queue (add_to_group item groups) q.1 (add_to_group-All P item groups q.0 h)

group_by_order-All :
    (P : QueueItem → Type 0) (queue : List QueueItem)
    → All P queue
    → All (λ g. All P g.1) (group_by_order queue)
unfolding group_by_order
group_by_order-All P queue q = group_into-All P queue [] q tt

-- An item that failed at least `n` times and waits for the next try, within the limit.
pub record IsWaiting (n limit : ℕ) (item : QueueItem) : Type 0 where
  pub queued : item.status ≡ some "queued"
  pub tried : n ≤ retries item
  pub within : retries item ≤ limit

restore_item-IsWaiting :
    (n m limit : ℕ) (items : List QueueItem)
    → n ≤ m
    → m ≤ limit
    → All (IsWaiting n limit) (map (restore_item m) items)
unfolding restore_item
restore_item-IsWaiting n m limit [] lo hi = tt
restore_item-IsWaiting n m limit (x ∷ items) lo hi = (
  record { queued = refl; tried = lo; within = hi },
  restore_item-IsWaiting n m limit items lo hi,
)

pub finish_order-new_queue :
    (p : PrintQueueProcessor) (order_id : String) (order_data : OrderData) (s : Processing)
    (r : List Call × Bool)
    → (finish_order p order_id order_data s r).0.new_queue ≡ s.new_queue
unfolding finish_order
finish_order-new_queue p order_id order_data s (calls, false) = refl
finish_order-new_queue p order_id order_data s (calls, true) = refl

module _ (p : PrintQueueProcessor) (n : ℕ) where
  Waits : Processing → Type 0
  Waits s = All (IsWaiting (suc n) p.max_queue_retries) s.new_queue

  print_order-Waits :
      (order_id : String) (first : QueueItem) (items : List QueueItem) (s : Processing)
      → n ≤ retries first
      → suc (retries first) ≤ p.max_queue_retries
      → Waits s
      → Waits (print_order p order_id first items s)
  unfolding print_order restore_items Waits
  print_order-Waits order_id first items s lo hi w =
      let order_data = get_or first.last_order_data [] in
      let started = record s { queue = update_where (has_order order_id) start_print s.queue } in
      let calls =
        run_calls p s.calls
          (order_calls order_id order_data started.queue (map start_print items)) in
      let ended = finish_order p order_id order_data started calls in
      let same = finish_order-new_queue p order_id order_data started calls in
      elim (Bool-cases ended.1) [
        | inl t ↦ rw (t, same) w
        | inr u ↦
            rw (u, same)
              (All-append _ s.new_queue _ w (
                restore_item-IsWaiting (suc n) (retries first + 1) p.max_queue_retries items
                  (omega (arith, lo)) (omega (arith, hi))))
      ]

  -- A turn of the loop that does not raise keeps the new queue so.
  process_group-Waits :
      (order_id : String) (items : List QueueItem) (s : Processing)
      → All (λ item. n ≤ retries item) items
      → Waits s
      → Waits (process_group p s order_id items).0
  unfolding process_group Waits
  process_group-Waits order_id [] s lo w = w
  process_group-Waits order_id (first ∷ rest) s lo w =
      elim (Bool-cases (leb p.max_queue_retries (retries first))) [
        | inl t ↦ rw t w
        | inr u ↦ rw u (print_order-Waits order_id first (first ∷ rest) s lo.0 (ground arith) w)
      ]

  process_groups-Waits :
      (groups : List (String × List QueueItem)) (s : Processing)
      → All (λ g. All (λ item. n ≤ retries item) g.1) groups
      → Waits s
      → Waits (process_groups p groups s).0
  unfolding process_groups
  process_groups-Waits [] s lo w = w
  process_groups-Waits ((order_id, items) ∷ groups) s lo w =
      let done = process_group p s order_id items in
      let w' = process_group-Waits order_id items s lo.0 w in
      elim (Bool-cases done.1) [
        | inl t ↦ rw t (process_groups-Waits groups done.0 lo.1 w')
        | inr u ↦ rw u w'
      ]

  -- Where it is no quiet time and each item of the queue has failed `n` times or more, each item of
  -- the new queue of `process` waits as "queued", has failed `n + 1` times or more, and at most
  -- `max_queue_retries` times.
  pub process-IsWaiting :
      (queue : List QueueItem) (printed : List (String × ℕ)) (calls : List Call)
      → p.is_quiet_time ≡ false
      → All (λ item. n ≤ retries item) queue
      → All (IsWaiting (suc n) p.max_queue_retries) (process p queue printed calls).0.new_queue
  unfolding process Waits
  process-IsWaiting queue printed calls loud lo = rw loud (
      process_groups-Waits (group_by_order queue)
        (record { queue = queue; printed = printed; calls = calls; new_queue = [] })
        (group_by_order-All (λ item. n ≤ retries item) queue lo) tt)

-- A run of `process` outside quiet time, under the limit, that returns the queue `q'`.
pub record IsRun (limit : ℕ) (q q' : List QueueItem) : Type 0 where
  pub processor : PrintQueueProcessor
  pub printed : List (String × ℕ)
  pub calls : List Call
  pub loud : processor.is_quiet_time ≡ false
  pub limited : processor.max_queue_retries ≡ limit
  pub returns : (process processor q printed calls).1 ≡ true
  pub new_queue : (process processor q printed calls).0.new_queue ≡ q'

-- Runs in turn, each on the queue that the one before returned; the callbacks may behave
-- differently in each.
pub data Rounds (limit : ℕ) : ℕ → List QueueItem → List QueueItem → Type 0 where
  done : {q : List QueueItem} → Rounds limit 0 q q
  round :
      {n : ℕ} {q q' q'' : List QueueItem}
      → IsRun limit q q'
      → Rounds limit n q' q''
      → Rounds limit (suc n) q q''

waits_more :
    (n limit : ℕ) (q : List QueueItem)
    → All (IsWaiting n limit) q
    → All (λ item. n ≤ retries item) q
waits_more n limit [] h = tt
waits_more n limit (x ∷ q) h = (h.0.tried, waits_more n limit q h.1)

run-All :
    (limit n : ℕ) (q q' : List QueueItem)
    → IsRun limit q q'
    → All (λ item. n ≤ retries item) q
    → All (IsWaiting (suc n) limit) q'
run-All limit n q q' run h =
    let p = run.processor in
    subst (λ l. All (IsWaiting (suc n) l) q') run.limited
      (subst (All (IsWaiting (suc n) p.max_queue_retries)) run.new_queue
        (process-IsWaiting p n q run.printed run.calls run.loud h))

rounds-All :
    (limit m n : ℕ) (q q' : List QueueItem)
    → Rounds limit n q q'
    → All (IsWaiting m limit) q
    → All (IsWaiting (m + n) limit) q'
rounds-All limit m _ q _ done h = subst (λ k. All (IsWaiting k limit) q) (omega arith) h
rounds-All limit m _ q _ (round {n = n} {q' = q'} {q'' = q''} run rs) h =
    let h' = run-All limit m q q' run (waits_more m limit q h) in
    subst (λ k. All (IsWaiting k limit) q'') (omega arith) (rounds-All limit (suc m) n q' q'' rs h')

none_waits : (n limit : ℕ) (q : List QueueItem) → limit < n → All (IsWaiting n limit) q → q ≡ []
none_waits n limit [] big h = refl
none_waits n limit (x ∷ q) big h = absurd (omega (arith, big, h.0.tried, h.0.within))

any_tries : (q : List QueueItem) → All (λ item. 0 ≤ retries item) q
any_tries [] = tt
any_tries (x ∷ q) = (omega arith, any_tries q)

-- Whatever the callbacks of a printing try do, the queue is empty after `limit + 1` runs of
-- `process` that return, outside quiet time and with the limit `max_queue_retries`, each on the
-- new queue of the run before.
pub rounds_drain : (limit : ℕ) (q q' : List QueueItem) → Rounds limit (suc limit) q q' → q' ≡ []
rounds_drain limit q _ (round {q' = q'} {q'' = q''} run rs) =
    none_waits (1 + limit) limit q'' (omega arith)
      (rounds-All limit 1 limit q' q'' rs (run-All limit 0 q q' run (any_tries q)))

-- The mark and the notice of an item that has reached the retry limit do not raise.
abbrev pub IsQuietPastLimit : PrintQueueProcessor → QueueItem → Type 0
IsQuietPastLimit p item =
    leb p.max_queue_retries (retries item) ≡ true
    → ((calls : List Call) (order_id : String)
        → p.raises calls (mark_as_printed order_id item.last_order_data) ≡ false)
      × ((calls : List Call)
          → p.raises calls (notify_messenger (get_or item.last_order_data []) false) ≡ false)

module _ (p : PrintQueueProcessor) where
  process_group_returns :
      (s : Processing) (order_id : String) (items : List QueueItem)
      → All (IsQuietPastLimit p) items
      → (process_group p s order_id items).1 ≡ true
  unfolding process_group run_calls limit_calls
  process_group_returns s order_id [] quiet = refl
  process_group_returns s order_id (first ∷ rest) quiet =
      elim (Bool-cases (leb p.max_queue_retries (retries first))) [
        | inl t ↦
            let h = quiet.0 t in
            rw
              (
                t,
                h.0 s.calls order_id,
                h.1 (mark_as_printed order_id first.last_order_data ∷ s.calls),
              )
              refl
        | inr u ↦ rw u refl
      ]

  process_groups_returns :
      (groups : List (String × List QueueItem)) (s : Processing)
      → All (λ g. All (IsQuietPastLimit p) g.1) groups
      → (process_groups p groups s).1 ≡ true
  unfolding process_groups
  process_groups_returns [] s quiet = refl
  process_groups_returns ((order_id, items) ∷ groups) s quiet =
      rw (process_group_returns s order_id items quiet.0) (process_groups_returns groups _ quiet.1)

  -- `process` returns, whichever calls raise while an order below the retry limit is printed, its mark
  -- and its notice included: only the mark and the notice that give up an item of the queue at the
  -- limit must not raise.
  pub process_returns :
      (queue : List QueueItem) (printed : List (String × ℕ)) (calls : List Call)
      → All (IsQuietPastLimit p) queue
      → (process p queue printed calls).1 ≡ true
  unfolding process
  process_returns queue printed calls quiet = elim (Bool-cases p.is_quiet_time) [
    | inl t ↦ rw t refl
    | inr u ↦ rw u (
        process_groups_returns (group_by_order queue) _
          (group_by_order-All (IsQuietPastLimit p) queue quiet))
  ]
