-- ===== src/PrintAgent/Handled.antt =====
-- That the print queue (magazyn/services/print_agent_queue.py) loses no order.
use retrievershop_suite.Prelude.{
  ℕ, ◌≡◌, refl, String, Option, some, List, [], ◌∷◌, map, Bool, true, false, leb, ◌⊎◌, inl, inr,
  Bool-cases, All, get_or, str_eq_refl, ap, subst, sym, Any, here, there, Any-append_left,
  Any-append_right, update_where,
}
use retrievershop_suite.PrintAgent.Rounds.{finish_order-new_queue}
use retrievershop_suite.PrintAgent.Queue.{
  QueueItem, Call, OrderData, PrintQueueProcessor, Processing, retries, has_order, add_to_group,
  group_into, group_by_order, run_calls, restore_item, restore_items, finish_order, print_order,
  process_group, process_groups, process, limit_calls, order_calls, start_print, mark_as_printed,
  print_calls, notify_messenger,
}

-- Each item stands in a group whose key is its order.
IsGrouped : List (String × List QueueItem) → QueueItem → Type 0
IsGrouped groups item = Any (λ g. (has_order g.0 item ≡ true) × Any (λ x. x ≡ item) g.1) groups

add_to_group-new :
    (item : QueueItem) (groups : List (String × List QueueItem))
    → IsGrouped (add_to_group item groups) item
unfolding add_to_group IsGrouped
add_to_group-new item [] = here (str_eq_refl item.order_id, here refl)
add_to_group-new item ((k, items) ∷ groups) = elim (Bool-cases (has_order k item)) [
  | inl t ↦ rw t (here (t, Any-append_right _ items (item ∷ []) (here refl)))
  | inr u ↦ rw u (there (add_to_group-new item groups))
]

add_to_group-old :
    (item x : QueueItem) (groups : List (String × List QueueItem))
    → IsGrouped groups x
    → IsGrouped (add_to_group item groups) x
unfolding add_to_group IsGrouped
add_to_group-old item x [] h = elim h [ ]
add_to_group-old item x ((k, items) ∷ groups) h = elim (Bool-cases (has_order k item)) [
  | inl t ↦
      rw t (elim h [
        | here (e, m) ↦ here (e, Any-append_left _ items (item ∷ []) m)
        | there r ↦ there r
      ])
  | inr u ↦ rw u (elim h [ here g ↦ here g | there r ↦ there (add_to_group-old item x groups r) ])
]

group_into-old :
    (queue : List QueueItem) (groups : List (String × List QueueItem)) (x : QueueItem)
    → IsGrouped groups x
    → IsGrouped (group_into queue groups) x
unfolding group_into
group_into-old [] groups x h = h
group_into-old (item ∷ queue) groups x h =
    group_into-old queue (add_to_group item groups) x (add_to_group-old item x groups h)

group_into-IsGrouped :
    (queue : List QueueItem) (groups : List (String × List QueueItem))
    → All (IsGrouped (group_into queue groups)) queue
unfolding group_into
group_into-IsGrouped [] groups = tt
group_into-IsGrouped (item ∷ queue) groups = (
  group_into-old queue (add_to_group item groups) item (add_to_group-new item groups),
  group_into-IsGrouped queue (add_to_group item groups),
)

grouped : (queue : List QueueItem) → All (IsGrouped (group_by_order queue)) queue
unfolding group_by_order
grouped queue = group_into-IsGrouped queue []

-- A mark of the item's order that returned, among the calls.
pub data IsMarked (p : PrintQueueProcessor) (item : QueueItem) : List Call → Type 0 where
  marked :
      {k : String} {d : Option OrderData} {calls : List Call}
      → has_order k item ≡ true
      → p.raises calls (mark_as_printed k d) ≡ false
      → IsMarked p item (mark_as_printed k d ∷ calls)
  earlier : {c : Call} {calls : List Call} → IsMarked p item calls → IsMarked p item (c ∷ calls)

-- An item after a run of `process`: it is back in the queue, or its order is marked as printed.
unfoldable pub IsHandled : PrintQueueProcessor → Processing → QueueItem → Type 0
IsHandled p s item =
    Any (λ x. (n : ℕ) × (x ≡ restore_item n item)) s.new_queue ⊎ IsMarked p item s.calls

module _ (p : PrintQueueProcessor) where
  run_calls-IsMarked :
      (item : QueueItem) (calls cs : List Call)
      → IsMarked p item calls
      → IsMarked p item (run_calls p calls cs).0
  unfolding run_calls
  run_calls-IsMarked item calls [] h = h
  run_calls-IsMarked item calls (c ∷ cs) h = elim (Bool-cases (p.raises calls c)) [
    | inl t ↦ rw t (earlier h)
    | inr u ↦ rw u (run_calls-IsMarked item (c ∷ calls) cs (earlier h))
  ]

  run_calls-marks :
      (item : QueueItem) (k : String) (d : Option OrderData) (calls cs : List Call)
      → has_order k item ≡ true
      → Any (λ c. c ≡ mark_as_printed k d) cs
      → (run_calls p calls cs).1 ≡ true
      → IsMarked p item (run_calls p calls cs).0
  unfolding run_calls
  run_calls-marks item k d calls [] same h e = elim h [ ]
  run_calls-marks item k d calls (c ∷ cs) same h e = elim (Bool-cases (p.raises calls c)) [
    | inl t ↦ let q : false ≡ true = rw t at e in cc
    | inr u ↦ rw u (elim h [
      | here q ↦ run_calls-IsMarked item (c ∷ calls) cs (
          subst (λ b. IsMarked p item (b ∷ calls)) (sym q)
            (marked same (subst (λ b. p.raises calls b ≡ false) q u)))
      | there r ↦ run_calls-marks item k d (c ∷ calls) cs same r (rw u at e)
    ])
  ]

  back :
      (n : ℕ) (item : QueueItem) (items : List QueueItem)
      → Any (λ x. x ≡ item) items
      → Any (λ x. (n : ℕ) × (x ≡ restore_item n item)) (map (restore_item n) items)
  back n item [] h = elim h [ ]
  back n item (x ∷ items) (here e) = here (n, ap (restore_item n) e)
  back n item (x ∷ items) (there h) = there (back n item items h)

  finish_order-IsMarked :
      (item : QueueItem) (order_id : String) (d : OrderData) (s : Processing) (r : List Call × Bool)
      → IsMarked p item r.0
      → IsMarked p item (finish_order p order_id d s r).0.calls
  unfolding finish_order
  finish_order-IsMarked item order_id d s (calls, false) h = h
  finish_order-IsMarked item order_id d s (calls, true) h =
      run_calls-IsMarked item calls (notify_messenger d true ∷ []) h

  finish_order-returned :
      (order_id : String) (d : OrderData) (s : Processing) (r : List Call × Bool)
      → (finish_order p order_id d s r).1 ≡ true
      → r.1 ≡ true
  unfolding finish_order
  finish_order-returned order_id d s (calls, false) e = e
  finish_order-returned order_id d s (calls, true) e = refl

  order_calls-mark :
      (order_id : String) (d : OrderData) (queue items : List QueueItem)
      → Any (λ c. c ≡ mark_as_printed order_id (some d)) (order_calls order_id d queue items)
  unfolding order_calls
  order_calls-mark order_id d queue items =
      Any-append_right _ (print_calls queue items) _ (there (here refl))

  -- What is handled stays so, and the tried order's items are handled.
  module _ (item : QueueItem) (order_id : String) (first : QueueItem) (items : List QueueItem)
      (s : Processing) where
    abbrev order_data : OrderData
    order_data = get_or first.last_order_data []

    abbrev started : Processing
    started = record s { queue = update_where (has_order order_id) start_print s.queue }

    abbrev called : List Call × Bool
    called =
        run_calls p s.calls (order_calls order_id order_data started.queue (map start_print items))

    abbrev ended : Processing × Bool
    ended = finish_order p order_id order_data started called

    same_queue : ended.0.new_queue ≡ s.new_queue
    same_queue = finish_order-new_queue p order_id order_data started called

    print_order-keeps : IsHandled p s item → IsHandled p (print_order p order_id first items s) item
    unfolding print_order restore_items IsHandled
    print_order-keeps (inr m) =
        let m' = finish_order-IsMarked item order_id order_data started called (
          run_calls-IsMarked item s.calls
            (order_calls order_id order_data started.queue (map start_print items)) m) in
        elim (Bool-cases ended.1) [ inl t ↦ rw t (inr m') | inr u ↦ rw u (inr m') ]
    print_order-keeps (inl w) = elim (Bool-cases ended.1) [
      | inl t ↦ rw (t, same_queue) (inl w)
      | inr u ↦ rw (u, same_queue) (inl (Any-append_left _ s.new_queue _ w))
    ]

    print_order-handles :
        has_order order_id item ≡ true
        → Any (λ x. x ≡ item) items
        → IsHandled p (print_order p order_id first items s) item
    unfolding print_order restore_items IsHandled
    print_order-handles same m = elim (Bool-cases ended.1) [
      | inl t ↦ rw t (
          inr (
            finish_order-IsMarked item order_id order_data started called (
              run_calls-marks item order_id (some order_data) s.calls _ same
                (order_calls-mark order_id order_data started.queue (map start_print items))
                (finish_order-returned order_id order_data started called t))))
      | inr u ↦ rw (u, same_queue) (inl (Any-append_right _ s.new_queue _ (back _ item items m)))
    ]

  process_group-keeps :
      (item : QueueItem) (order_id : String) (items : List QueueItem) (s : Processing)
      → IsHandled p s item
      → IsHandled p (process_group p s order_id items).0 item
  unfolding process_group IsHandled
  process_group-keeps item order_id [] s h = h
  process_group-keeps item order_id (first ∷ rest) s h =
      elim (Bool-cases (leb p.max_queue_retries (retries first))) [
        | inl t ↦ rw t (elim h [
          | inl w ↦ inl w
          | inr m ↦ inr (run_calls-IsMarked item s.calls (limit_calls order_id first) m)
        ])
        | inr u ↦ rw u (print_order-keeps item order_id first (first ∷ rest) s h)
      ]

  process_group-handles :
      (item : QueueItem) (order_id : String) (items : List QueueItem) (s : Processing)
      → has_order order_id item ≡ true
      → Any (λ x. x ≡ item) items
      → (process_group p s order_id items).1 ≡ true
      → IsHandled p (process_group p s order_id items).0 item
  unfolding process_group limit_calls IsHandled
  process_group-handles item order_id [] s same m e = elim m [ ]
  process_group-handles item order_id (first ∷ rest) s same m e =
      elim (Bool-cases (leb p.max_queue_retries (retries first))) [
        | inl t ↦ rw t (
            inr (
              run_calls-marks item order_id first.last_order_data s.calls
                (limit_calls order_id first) same (here refl) (rw t at e)))
        | inr u ↦ rw u (print_order-handles item order_id first (first ∷ rest) s same m)
      ]

  process_groups-keeps :
      (item : QueueItem) (groups : List (String × List QueueItem)) (s : Processing)
      → IsHandled p s item
      → IsHandled p (process_groups p groups s).0 item
  unfolding process_groups
  process_groups-keeps item [] s h = h
  process_groups-keeps item ((order_id, items) ∷ groups) s h =
      let done = process_group p s order_id items in
      let h' = process_group-keeps item order_id items s h in
      elim (Bool-cases done.1) [
        | inl t ↦ rw t (process_groups-keeps item groups done.0 h')
        | inr u ↦ rw u h'
      ]

  process_groups-handles :
      (item : QueueItem) (groups : List (String × List QueueItem)) (s : Processing)
      → IsGrouped groups item
      → (process_groups p groups s).1 ≡ true
      → IsHandled p (process_groups p groups s).0 item
  unfolding process_groups IsGrouped
  process_groups-handles item [] s g e = elim g [ ]
  process_groups-handles item ((order_id, items) ∷ groups) s g e =
      let done = process_group p s order_id items in
      elim (Bool-cases done.1) [
        | inl t ↦ rw t (elim g [
          | here (same, m) ↦
              process_groups-keeps item groups done.0
                (process_group-handles item order_id items s same m t)
          | there r ↦ process_groups-handles item groups done.0 r (rw t at e)
        ])
        | inr u ↦ let q : false ≡ true = rw (u, u) at e in cc
      ]

  all-IsHandled :
      (queue : List QueueItem) (groups : List (String × List QueueItem)) (s : Processing)
      → All (IsGrouped groups) queue
      → (process_groups p groups s).1 ≡ true
      → All (IsHandled p (process_groups p groups s).0) queue
  all-IsHandled [] groups s g e = tt
  all-IsHandled (item ∷ queue) groups s g e =
      (process_groups-handles item groups s g.0 e, all-IsHandled queue groups s g.1 e)

  loud_process :
      (queue : List QueueItem) (printed : List (String × ℕ)) (calls : List Call)
      → p.is_quiet_time ≡ false
      → process p queue printed calls
        ≡ process_groups p
            (group_by_order queue)
            (record { queue = queue; printed = printed; calls = calls; new_queue = [] })
  unfolding process
  loud_process queue printed calls loud = rw loud refl

  -- Where `process` returns outside quiet time, no item of the queue is lost: each is in the new
  -- queue, with only its status and its number of tries set, or `mark_as_printed` was called for
  -- its order and returned.
  pub process_loses_nothing :
      (queue : List QueueItem) (printed : List (String × ℕ)) (calls : List Call)
      → p.is_quiet_time ≡ false
      → (process p queue printed calls).1 ≡ true
      → All (IsHandled p (process p queue printed calls).0) queue
  unfolding process
  process_loses_nothing queue printed calls loud e =
      subst (λ r. r.1 ≡ true → All (IsHandled p r.0) queue)
        (sym (loud_process queue printed calls loud))
        (all-IsHandled queue (group_by_order queue) _ (grouped queue)) e
