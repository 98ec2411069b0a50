-- ===== src/Tests/Simulation.antt =====
-- `main` of the simulator at a concrete command line.
mod MixedRun
use delayed_order_sms_flink.Runner.Simulate.MixedRuns.{Assigned, Runs-mixed}
use delayed_order_sms_flink.Runner.Assign.{assign_scenarios, random_assignments, choices, pick}
use delayed_order_sms_flink.Runner.Pool.Flushing.{AllDone}
use delayed_order_sms_flink.Runner.Simulate.Sinks.{Sinks, wanted_producer, Simulates-Sinks}
use delayed_order_sms_flink.Runner.Simulate.Complete.{OrdersOf, Runs-complete}
use delayed_order_sms_flink.Time.Expression.{match_time, match_behind_now}
use delayed_order_sms_flink.Time.Resolve.{resolve_dynamic_times, parse_dynamic_time, dynamic_time}
use delayed_order_sms_flink.Runner.Event.{build_event_value, apply_eta_offset, or_warn, has}
use delayed_order_sms_flink.Template.{render_template, render_template_value}
use delayed_order_sms_flink.Runner.Order.{
  run_single_order, run_all, run_events, run_definition, run_event, wait, fresh, send, put_step,
  value_of, events_loop,
}
use delayed_order_sms_flink.Base.{
  ℕ, ◌≡◌, refl, true, none, some, List, [], ◌∷◌, map, codes, text_eq, starts_with, strip_prefix,
  ends_with, remove_suffix, replace, replace_from, if◌then◌else◌, ℤ, pos, Result, ok, arith, ◌*ℤ◌,
  subst, sym, Text,
}
use delayed_order_sms_flink.Number.{
  int_of_text, is_space, strip, strip_spaces_front, digits_of, int_of,
}
use delayed_order_sms_flink.Json.{
  Json, Fields, str, arr, obj, nil, cons, end, field, get, is_true, Items,
}
use delayed_order_sms_flink.Json.Dumps.{show, show_fuel}
use delayed_order_sms_flink.Producer.{OrderKafkaProducer, printed, flush, skipped, publish}
use delayed_order_sms_flink.Config.{
  SimulatorConfig, Arguments, getenv, env_bool, from_env, override, overrides_of, main_config,
  main_producer,
}
use delayed_order_sms_flink.Loader.{Files, load, load_many, load_into, put_loaded, get_loaded}
use delayed_order_sms_flink.Time.Digits.{is_decimal, int_of_digits}
use delayed_order_sms_flink.Runner.Names.{
  create_order_context, create_order_contexts, contexts_from, normalize_name, zero_filled,
  as_template_context, strip_dashes, strip_front, dash_runs,
}
use delayed_order_sms_flink.Runner.Trace.{Action, published, Trace, ◌>>=◌}
use delayed_order_sms_flink.Runner.Run.{
  Task, run_task, single_tasks, name_of, texts_of, mixed_tasks, tasks_from,
}
use delayed_order_sms_flink.Runner.Pool.{
  workers, submitted, finished, Pool, active, take, act, end, Schedule, none_left, further,
  all_returned, complete,
}
use delayed_order_sms_flink.Runner.Simulate.{
  Runs, executed, Simulates, configured, prepare, tasks_of, is_mixed_scenario, tasks_of_mixed,
}
use delayed_order_sms_flink.Tests.Orders.{quotients, truncate}
use delayed_order_sms_flink.Tests.Runs.{counter}

abbrev event : Fields (ℤ × ℕ)
event = field (codes "value") (obj (field (codes "a") (str (codes "b")) end)) end

abbrev scenario : Fields (ℤ × ℕ)
scenario = field (codes "events") (arr (cons (obj event) nil)) end

abbrev names : Items (ℤ × ℕ)
names = cons (str (codes "one")) nil

abbrev mixed_scenario : Fields (ℤ × ℕ)
mixed_scenario = field (codes "includedScenarios") (arr names) end

abbrev files : Files (ℤ × ℕ)
files name =
    if text_eq name (codes "one.json")
    then some (ok (obj scenario))
    else if text_eq name (codes "mixed.json")
    then some (ok (obj mixed_scenario))
    else none

abbrev arguments : Arguments
arguments = record {
  scenario = some (codes "one");
  orders_count = some (pos 1);
  kafka_bootstrap_servers = none;
  orders_topic = none;
  dry_run = true;
}

abbrev iterated : Json (ℤ × ℕ) → Result (List (Task (ℤ × ℕ)))
iterated v = ok []

abbrev config_for : Text → SimulatorConfig (ℤ × ℕ)
config_for name = record {
  kafka_bootstrap_servers = codes "localhost:9092";
  orders_topic = codes "Orders";
  scenario = name;
  orders_count = pos 1;
  order_id_prefix = codes "ord";
  event_delay_multiplier = (pos 1, 1);
  dry_run = true;
  random_seed = pos 42;
  max_workers = pos 10;
  pause_after_step = pos 0;
  pause_duration_seconds = pos 0;
}

abbrev config : SimulatorConfig (ℤ × ℕ)
config = config_for (codes "one")

configuration : main_config quotients arguments [] ≡ ok config
unfolding main_config from_env override overrides_of getenv env_bool int_of_text strip
    strip_spaces_front is_space digits_of text_eq is_decimal int_of_digits
configuration = refl

abbrev tasks : List (Task (ℤ × ℕ))
tasks = (create_order_context (codes "ord") 1 (codes "one") 0, obj scenario) ∷ []

prepared : prepare quotients counter files (λ i. 0) iterated config 0 ≡ ok tasks
unfolding prepare tasks_of is_mixed_scenario is_true get text_eq load single_tasks name_of
    create_order_contexts contexts_from ends_with starts_with strip_prefix remove_suffix
prepared = refl

abbrev value : Json (ℤ × ℕ)
value = obj (field (codes "a") (str (codes "b")) end)

abbrev message : Action (ℤ × ℕ)
message = published (printed (codes "Orders") (str (codes "ord-one-0001")) value)

abbrev one_message : Trace (ℤ × ℕ) (Unit {0})
one_message = (message ∷ [], ok tt)

abbrev dry_producer : OrderKafkaProducer
dry_producer = record { topic = codes "Orders"; dry_run = true }

one_task :
    (name : Text)
    → run_task quotients
        (config_for name)
        dry_producer
        (create_order_context (codes "ord") 1 (codes "one") 0, obj scenario)
      ≡ one_message
unfolding run_task run_single_order run_all run_events run_definition run_event wait value_of
    events_loop fresh send publish render_template render_template_value build_event_value get
    text_eq is_true put_step ◌>>=◌ resolve_dynamic_times parse_dynamic_time dynamic_time match_time
    match_behind_now strip_prefix replace replace_from starts_with as_template_context
    apply_eta_offset or_warn has int_of create_order_context normalize_name zero_filled show
    show_fuel truncate ◌*ℤ◌ strip_dashes strip_front dash_runs remove_suffix
one_task name = refl

-- One thread takes the order, publishes its message and ends.
abbrev ended : Pool (ℤ × ℕ)
ended = record { slots = finished (ok tt) ∷ []; log = (0, message) ∷ [] }

alone : Schedule (workers (pos 10)) 3 (submitted (one_message ∷ [])) ended
unfolding submitted workers active
alone =
    further
      (further (further none_left (take [] [] one_message [] tt (omega arith)))
        (act [] [] message [] (ok tt) []))
      (end [] [] (ok tt) ((0, message) ∷ []))

ran :
    Runs quotients counter files
      (λ i. 0)
      iterated
      config
      dry_producer
      0
      ((0, message) ∷ [])
      (ok skipped)
unfolding complete flush
ran =
    executed tasks prepared
      (subst (λ t. Schedule (workers (pos 10)) 3 (submitted (t ∷ [])) ended)
        (sym (one_task (codes "one"))) alone)
      (all_returned (refl, tt))

Runs-complete_example :
    (ts : List (Task (ℤ × ℕ))) × (prepare quotients counter files (λ i. 0) iterated config 0
      ≡ ok ts)
    × OrdersOf scenario (pos 1) ts
    × AllDone 0 (map (run_task quotients config dry_producer) ts) ((0, message) ∷ [])
    × (skipped ≡ flush dry_producer)
unfolding load text_eq ends_with starts_with strip_prefix is_mixed_scenario is_true get
Runs-complete_example =
    Runs-complete quotients counter files (λ i. 0) iterated config scenario dry_producer 0 refl refl
      ran

simulated :
    Simulates quotients counter files
      (λ i. 0)
      iterated
      arguments
      []
      (λ seed. 0)
      ((0, message) ∷ [])
      (ok skipped)
unfolding main_producer
simulated = configured config configuration ran

Simulates-Sinks_example : Sinks (wanted_producer arguments []) ((0, message) ∷ []) (ok skipped)
Simulates-Sinks_example =
    Simulates-Sinks quotients counter files (λ i. 0) iterated arguments [] (λ seed. 0) simulated
