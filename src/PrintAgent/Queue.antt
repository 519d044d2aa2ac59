-- ===== src/PrintAgent/Queue.antt =====
-- PrintQueueProcessor of magazyn/services/print_agent_queue.py. The callbacks it is built with are
-- calls of the outside: a call either returns or raises, which may depend on all calls before it.
-- The items of a group are the queue's own objects, so a change of a group is one of the queue.
use retrievershop_suite.Prelude.{
  ℕ, String, Option, some, List, [], ◌∷◌, ◌++◌, map, Bool, true, false, ◌+◌, leb, if◌then◌else◌,
  get_or, str_eq, lookup_or, update_where,
}
use retrievershop_suite.OrderStatus.Service.{insert}

-- `last_order_data`: a dict, its values as JSON texts.
abbrev pub OrderData : Type 0
OrderData = List (String × String)

pub record QueueItem : Type 0 where
  pub order_id : String
  pub label_data : String
  pub ext : Option String
  pub last_order_data : Option OrderData
  pub status : Option String
  pub retry_count : Option ℕ

-- The calls of the callbacks, with their arguments.
pub data Call : Type 0 where
  save_queue : List QueueItem → Call
  print_label : String → String → String → Call
  consume_order_stock : String → String → Call
  mark_as_printed : String → Option OrderData → Call
  notify_messenger : OrderData → Bool → Call

pub record PrintQueueProcessor : Type 0 where
  pub is_quiet_time : Bool
  -- Whether a call raises, after the calls before it, the newest first.
  pub raises : List Call → Call → Bool
  pub now : List Call → ℕ
  pub max_queue_retries : ℕ

-- The objects that a run of `process` changes, and the calls made, the newest first.
pub record Processing : Type 0 where
  pub queue : List QueueItem
  pub printed : List (String × ℕ)
  pub calls : List Call
  pub new_queue : List QueueItem

abbrev pub retries : QueueItem → ℕ
retries item = get_or item.retry_count 0

abbrev pub has_order : String → QueueItem → Bool
has_order order_id item = str_eq order_id item.order_id

-- `grouped.setdefault(item["order_id"], []).append(item)`
unfoldable pub add_to_group :
    QueueItem → List (String × List QueueItem) → List (String × List QueueItem)
add_to_group item [] = (item.order_id, item ∷ []) ∷ []
add_to_group item ((k, items) ∷ groups) =
    let rest = add_to_group item groups in
    if has_order k item then (k, items ++ (item ∷ [])) ∷ groups else (k, items) ∷ rest

unfoldable pub group_into :
    List QueueItem → List (String × List QueueItem) → List (String × List QueueItem)
group_into [] grouped = grouped
group_into (item ∷ queue) grouped = group_into queue (add_to_group item grouped)

unfoldable pub group_by_order : List QueueItem → List (String × List QueueItem)
unfolding group_into
group_by_order queue = group_into queue []

-- The calls in turn, up to the first that raises; whether none did.
unfoldable pub run_calls : PrintQueueProcessor → List Call → List Call → List Call × Bool
run_calls p calls [] = (calls, true)
run_calls p calls (c ∷ cs) =
    let rest = run_calls p (c ∷ calls) cs in if p.raises calls c then (c ∷ calls, false) else rest

abbrev pub start_print : QueueItem → QueueItem
start_print item = record item { status = some "in_progress" }

unfoldable pub restore_item : ℕ → QueueItem → QueueItem
restore_item n item = record item { status = some "queued"; retry_count = some n }

abbrev pub label_call : QueueItem → Call
label_call item = print_label item.label_data (get_or item.ext "pdf") item.order_id

-- The calls of `_print_items`.
unfoldable pub print_calls : List QueueItem → List QueueItem → List Call
print_calls queue items = save_queue queue ∷ map label_call items

-- The calls for an order up to the mark, and the notice after it.
unfoldable pub order_calls : String → OrderData → List QueueItem → List QueueItem → List Call
unfolding print_calls
order_calls order_id order_data queue items =
    print_calls queue items
    ++ (consume_order_stock (lookup_or "products" "[]" order_data) order_id
        ∷ mark_as_printed order_id (some order_data)
        ∷ [])

-- The calls of `_is_retry_limit_reached` past the limit.
unfoldable pub limit_calls : String → QueueItem → List Call
limit_calls order_id first =
    mark_as_printed order_id first.last_order_data
    ∷ notify_messenger (get_or first.last_order_data []) false
    ∷ []

-- The `except` clause.
unfoldable pub restore_items : String → ℕ → List QueueItem → Processing → Processing
unfolding restore_item
restore_items order_id n items s = record s {
  queue = update_where (has_order order_id) (restore_item n) s.queue;
  new_queue = s.new_queue ++ map (restore_item n) items;
}

-- The `try` clause, after the calls up to the mark and whether all of them returned.
unfoldable pub finish_order :
    PrintQueueProcessor → String → OrderData → Processing → List Call × Bool → Processing × Bool
unfolding run_calls
finish_order p order_id order_data s (calls, false) = (record s { calls = calls }, false)
finish_order p order_id order_data s (calls, true) =
    let last = run_calls p calls (notify_messenger order_data true ∷ []) in
    (record s { printed = insert order_id (p.now calls) s.printed; calls = last.0 }, last.1)

unfoldable pub print_order :
    PrintQueueProcessor → String → QueueItem → List QueueItem → Processing → Processing
unfolding finish_order restore_items order_calls run_calls
print_order p order_id first items s =
    let order_data = get_or first.last_order_data [] in
    let started = record s { queue = update_where (has_order order_id) start_print s.queue } in
    let calls =
      run_calls p s.calls (order_calls order_id order_data started.queue (map start_print items)) in
    let ended = finish_order p order_id order_data started calls in
    if ended.1 then ended.0 else restore_items order_id (retries first + 1) items ended.0

-- One turn of the loop; false where an exception leaves `process`.
unfoldable pub process_group :
    PrintQueueProcessor → Processing → String → List QueueItem → Processing × Bool
unfolding run_calls limit_calls print_order
process_group p s order_id [] = (s, true)
process_group p s order_id (first ∷ rest) =
    if leb p.max_queue_retries (retries first)
    then (let last = run_calls p s.calls (limit_calls order_id first) in
        (record s { calls = last.0 }, last.1))
    else (print_order p order_id first (first ∷ rest) s, true)

unfoldable pub process_groups :
    PrintQueueProcessor → List (String × List QueueItem) → Processing → Processing × Bool
unfolding process_group
process_groups p [] s = (s, true)
process_groups p ((order_id, items) ∷ groups) s =
    let done = process_group p s order_id items in
    let rest = process_groups p groups done.0 in if done.1 then rest else done

-- What `process` returns is the new queue of the result.
unfoldable pub process :
    PrintQueueProcessor → List QueueItem → List (String × ℕ) → List Call → Processing × Bool
unfolding process_groups group_by_order
process p queue printed calls =
    let s : Processing = record {
      queue = queue;
      printed = printed;
      calls = calls;
      new_queue = [];
    } in
    if p.is_quiet_time
    then (record s { new_queue = queue }, true)
    else process_groups p (group_by_order queue) s
