-- ===== src/Tests/Runs.antt =====
-- Runs of orders at concrete scenarios.
use delayed_order_sms_flink.Base.{
  ℕ, ◌+◌, ◌%◌, ◌≡◌, refl, true, false, none, some, List, [], ◌∷◌, All, Text, codes, text_eq,
  starts_with, strip_prefix, ends_with, remove_suffix, if◌then◌else◌, ℤ, pos, ok,
}
use delayed_order_sms_flink.Json.{
  Json, Items, Fields, int, str, arr, obj, nil, cons, end, field, get, is_true,
}
use delayed_order_sms_flink.Producer.{OrderKafkaProducer}
use delayed_order_sms_flink.Config.{SimulatorConfig}
use delayed_order_sms_flink.Loader.{Files, Loaded, load, load_into, load_many, put_loaded}
use delayed_order_sms_flink.Runner.Names.{OrderContext, as_template_context}
use delayed_order_sms_flink.Runner.Assign.{
  Random, pick, choices, random_assignments, assign_scenarios,
}
use delayed_order_sms_flink.Runner.Assign.Included.{AllIncluded, assign_scenarios-AllIncluded}
use delayed_order_sms_flink.Runner.Order.{run_single_order}
use delayed_order_sms_flink.Runner.Order.Messages.{Sends, Sends-run_single_order, item_count}
use delayed_order_sms_flink.Runner.Order.Keys.{KeyedAction, run_single_order-AllKeyed}
use delayed_order_sms_flink.Runner.Run.{Task, mixed_tasks}
use delayed_order_sms_flink.Runner.Run.Mixed.{TasksOf, mixed_tasks-TasksOf}
use delayed_order_sms_flink.Runner.Pool.{end}
use delayed_order_sms_flink.Tests.Orders.{quotients}

-- A generator that counts.
abbrev pub counter : Random
counter = record { State = ℕ; below = λ s n. (s % n, s + 1) }

abbrev config : SimulatorConfig (ℤ × ℕ)
config = record {
  kafka_bootstrap_servers = codes "localhost:9092";
  orders_topic = codes "Orders";
  scenario = codes "mixed-orders";
  orders_count = pos 3;
  order_id_prefix = codes "ord";
  event_delay_multiplier = (pos 1, 1);
  dry_run = true;
  random_seed = pos 42;
  max_workers = pos 2;
  pause_after_step = pos 0;
  pause_duration_seconds = pos 0;
}

abbrev on_time : Json (ℤ × ℕ)
on_time = obj (field (codes "scenarioName") (str (codes "on-time-orders")) end)

abbrev files : Files (ℤ × ℕ)
files name =
    if text_eq name (codes "on-time-orders.json")
    then some (ok on_time)
    else if text_eq name (codes "delayed-orders.json")
    then some (ok (obj end))
    else none

abbrev included : List Text
included = codes "on-time-orders" ∷ codes "delayed-orders" ∷ []

abbrev loaded : Loaded (ℤ × ℕ)
loaded = (codes "on-time-orders", on_time) ∷ (codes "delayed-orders", obj end) ∷ []

included-loaded : load_many files included ≡ ok loaded
unfolding load_many load_into load put_loaded text_eq ends_with starts_with remove_suffix
    strip_prefix
included-loaded = refl

drawn :
    assign_scenarios quotients counter end included (pos 3) 0
    ≡ ok (codes "on-time-orders" ∷ codes "delayed-orders" ∷ codes "on-time-orders" ∷ [], 3)
unfolding assign_scenarios random_assignments choices pick get is_true
drawn = refl

assign_scenarios-AllIncluded_example :
    AllIncluded included
      (codes "on-time-orders" ∷ codes "delayed-orders" ∷ codes "on-time-orders" ∷ [])
assign_scenarios-AllIncluded_example =
    assign_scenarios-AllIncluded quotients counter end included (pos 3) 0 drawn

mixed_tasks-TasksOf_example :
    (ts : List (Task (ℤ × ℕ))) × (mixed_tasks quotients counter config files (λ i. i) end included 0
      ≡ ok ts)
    × TasksOf files
        (codes "ord")
        (λ i. i)
        1
        (codes "on-time-orders" ∷ codes "delayed-orders" ∷ codes "on-time-orders" ∷ [])
        ts
mixed_tasks-TasksOf_example =
    mixed_tasks-TasksOf quotients counter config files (λ i. i) end included 0 included-loaded drawn

abbrev pub producer : OrderKafkaProducer
producer = record { topic = codes "Orders"; dry_run = false }

abbrev context : OrderContext
context = record {
  order_index = 1;
  order_id = codes "o-1";
  customer_id = codes "c-1";
  store_id = codes "s-1";
  base_time = 0;
}

abbrev first_event : Fields (ℤ × ℕ)
first_event =
    field (codes "step") (int (pos 1))
      (field (codes "value") (obj (field (codes "orderId") (str (codes "{{orderId}}")) end)) end)

abbrev second_event : Fields (ℤ × ℕ)
second_event = field (codes "duplicateOfStep") (int (pos 1)) end

abbrev events : Items (ℤ × ℕ)
events = cons (obj second_event) nil

abbrev scenario : Fields (ℤ × ℕ)
scenario = field (codes "events") (arr (cons (obj first_event) events)) end

Sends-run_single_order_example :
    Sends
      (item_count (cons (obj first_event) events))
      (run_single_order quotients config producer context scenario)
unfolding get text_eq
Sends-run_single_order_example =
    Sends-run_single_order quotients config producer context scenario (obj first_event) events refl

run_single_order-AllKeyed_example :
    All
      (KeyedAction producer (codes "o-1"))
      (run_single_order quotients config producer context scenario).0
unfolding get text_eq as_template_context
run_single_order-AllKeyed_example =
    run_single_order-AllKeyed quotients config producer context
      (
        ((refl, (refl, (refl, (refl, (refl, (refl, (refl, tt))))))), (refl, (refl, (refl, tt)))),
        (
          (
            (refl, (refl, (refl, (refl, (refl, (refl, (refl, (refl, (refl, (refl, tt)))))))))),
            (refl, (refl, (refl, tt))),
          ),
          (
            (
              (refl, (refl, (refl, (refl, (refl, (refl, (refl, tt))))))),
              (refl, (refl, (refl, tt))),
            ),
            tt,
          ),
        ),
      )
      scenario (cons (obj first_event) events) refl (refl, (refl, tt))
