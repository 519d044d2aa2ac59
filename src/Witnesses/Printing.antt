-- ===== src/Witnesses/Printing.antt =====
-- Runs of the printing agent on concrete queues.
use retrievershop_suite.Prelude.{
  length, select, ◌≤◌, arith, ℕ, ◌≡◌, refl, String, Option, some, none, List, [], ◌∷◌, Bool, true,
  false, All, ltb, if◌then◌else◌, str_eq,
}
use retrievershop_suite.PrintAgent.Queue.{
  QueueItem, Call, print_label, consume_order_stock, notify_messenger, Processing,
  PrintQueueProcessor, process, process_groups, process_group, print_order, finish_order, run_calls,
  order_calls, print_calls, limit_calls, restore_items, restore_item, group_by_order, group_into,
  add_to_group,
}
use retrievershop_suite.PrintAgent.Rounds.{
  IsWaiting, IsRun, done, round, process-IsWaiting, rounds_drain, process_returns, IsQuietPastLimit,
}
use retrievershop_suite.PrintAgent.Handled.{IsHandled, process_loses_nothing}
use retrievershop_suite.PrintAgent.Retry.{Attempt, returned, failed, Retry, Ended, retry_call}
use retrievershop_suite.PrintAgent.Attempts.{IsRight, retry_call_ends}

abbrev label : String → Option ℕ → QueueItem
label order_id tries = record {
  order_id = order_id;
  label_data = "JVBERi0=";
  ext = none;
  last_order_data = some (("products", "[]") ∷ []);
  status = some "queued";
  retry_count = tries;
}

-- The printer is out of paper for order 7; everything else works.
abbrev jammed : List Call → Call → Bool
jammed calls (print_label bytes ext order_id) = str_eq order_id "7"
jammed calls c = false

abbrev agent : PrintQueueProcessor
agent = record { is_quiet_time = false; raises = jammed; now = λ calls. 100; max_queue_retries = 1 }

abbrev two_orders : List QueueItem
two_orders = label "7" none ∷ label "8" none ∷ label "7" none ∷ []

abbrev no_orders : List QueueItem
no_orders = []

abbrev seven_again : List QueueItem
seven_again = label "7" (some 1) ∷ label "7" (some 1) ∷ []

one_order_back : (process agent two_orders [] []).0.new_queue ≡ seven_again
unfolding process process_groups process_group print_order finish_order run_calls order_calls
    print_calls limit_calls restore_items restore_item group_by_order group_into add_to_group
one_order_back = refl

one_order_out : (process agent seven_again [] []).0.new_queue ≡ []
unfolding process process_groups process_group print_order finish_order run_calls order_calls
    print_calls limit_calls restore_items restore_item group_by_order group_into add_to_group
one_order_out = refl

quiet_two : All (IsQuietPastLimit agent) two_orders
quiet_two = (λ h. cc, (λ h. cc, (λ h. cc, tt)))

quiet_seven : All (IsQuietPastLimit agent) seven_again
quiet_seven = (λ h. (λ calls o. refl, λ calls. refl), (λ h. (λ calls o. refl, λ calls. refl), tt))

-- Everything raises, but no order of the queue has reached the limit.
abbrev broken : PrintQueueProcessor
broken = record {
  is_quiet_time = false;
  raises = λ calls c. true;
  now = λ calls. 100;
  max_queue_retries = 1;
}

quiet_broken : All (IsQuietPastLimit broken) two_orders
quiet_broken = (λ h. cc, (λ h. cc, (λ h. cc, tt)))

process_returns_example : (process broken two_orders [] []).1 ≡ true
process_returns_example = process_returns broken two_orders [] [] quiet_broken

process_loses_nothing_example : All (IsHandled agent (process agent two_orders [] []).0) two_orders
process_loses_nothing_example =
    process_loses_nothing agent two_orders [] [] refl
      (process_returns agent two_orders [] [] quiet_two)

le : 0 ≤ 0
le = omega arith

process-IsWaiting_example : All (IsWaiting 1 1) (process agent two_orders [] []).0.new_queue
process-IsWaiting_example = process-IsWaiting agent 0 two_orders [] [] refl (le, (le, (le, tt)))

first-IsRun : IsRun 1 two_orders seven_again
first-IsRun = record {
  processor = agent;
  printed = [];
  calls = [];
  loud = refl;
  limited = refl;
  returns = process_returns agent two_orders [] [] quiet_two;
  new_queue = one_order_back;
}

second-IsRun : IsRun 1 seven_again no_orders
second-IsRun = record {
  processor = agent;
  printed = [];
  calls = [];
  loud = refl;
  limited = refl;
  returns = process_returns agent seven_again [] [] quiet_seven;
  new_queue = one_order_out;
}

rounds_drain_example : no_orders ≡ []
rounds_drain_example =
    rounds_drain 1 two_orders no_orders (round first-IsRun (round second-IsRun done))

abbrev third_time : ℕ → Attempt String
third_time n = if ltb n 2 then failed else returned "label"

abbrev patient : Retry
patient = record { max_attempts = 3; base_delay = 10; is_set = λ n. false; wait = λ n. false }

retry_call_ends_example :
    (e : Ended String) × (retry_call patient third_time ≡ some e) × IsRight patient third_time e
retry_call_ends_example = retry_call_ends patient third_time

-- The messenger is down: the notice of a printed order raises.
abbrev messenger_down : List Call → Call → Bool
messenger_down calls (notify_messenger order_data success) = success
messenger_down calls c = false

abbrev muted : PrintQueueProcessor
muted = record {
  is_quiet_time = false;
  raises = messenger_down;
  now = λ calls. 100;
  max_queue_retries = 10;
}

abbrev is_consumption : Call → Bool
is_consumption (consume_order_stock products order_id) = true
is_consumption c = false

abbrev one_order : List QueueItem
one_order = label "8" none ∷ []

abbrev first_try : Processing × Bool
first_try = process muted one_order [] []

abbrev second_try : Processing × Bool
second_try = process muted first_try.0.new_queue first_try.0.printed first_try.0.calls

-- Printed twice, the order's pieces are taken out of stock twice.
consumed_again : length (select is_consumption second_try.0.calls) ≡ 2
unfolding process process_groups process_group print_order finish_order run_calls order_calls
    print_calls limit_calls restore_items restore_item group_by_order group_into add_to_group
consumed_again = refl
