-- ===== src/Tests/Simulation/MixedRun.antt =====
-- A mixed run at a concrete scenario.
use delayed_order_sms_flink.Runner.Simulate.MixedRuns.{Assigned, Runs-mixed}
use delayed_order_sms_flink.Runner.Assign.{assign_scenarios, random_assignments, choices, pick}
use delayed_order_sms_flink.Runner.Pool.Flushing.{AllDone}
use delayed_order_sms_flink.Base.{
  ℕ, ◌≡◌, refl, List, [], ◌∷◌, map, codes, text_eq, starts_with, strip_prefix, ends_with,
  remove_suffix, ℤ, pos, ok, subst, sym,
}
use delayed_order_sms_flink.Json.{get, is_true}
use delayed_order_sms_flink.Producer.{flush, skipped}
use delayed_order_sms_flink.Config.{SimulatorConfig}
use delayed_order_sms_flink.Loader.{load, load_many, load_into, put_loaded, get_loaded}
use delayed_order_sms_flink.Runner.Run.{Task, run_task, texts_of, mixed_tasks, tasks_from}
use delayed_order_sms_flink.Runner.Pool.{workers, submitted, Schedule, all_returned, complete}
use delayed_order_sms_flink.Runner.Simulate.{
  Runs, executed, prepare, tasks_of, is_mixed_scenario, tasks_of_mixed,
}
use delayed_order_sms_flink.Tests.Orders.{quotients}
use delayed_order_sms_flink.Tests.Runs.{counter}
use delayed_order_sms_flink.Tests.Simulation.{
  config_for, files, names, mixed_scenario, iterated, tasks, message, one_task, dry_producer, ended,
  alone,
}

abbrev mixed_config : SimulatorConfig (ℤ × ℕ)
mixed_config = config_for (codes "mixed")

prepared_mixed : prepare quotients counter files (λ i. 0) iterated mixed_config 0 ≡ ok tasks
unfolding prepare tasks_of tasks_of_mixed texts_of mixed_tasks is_mixed_scenario is_true get text_eq
    load load_many load_into put_loaded get_loaded tasks_from assign_scenarios random_assignments
    choices pick ends_with starts_with strip_prefix remove_suffix
prepared_mixed = refl

ran_mixed :
    Runs quotients counter files
      (λ i. 0)
      iterated
      mixed_config
      dry_producer
      0
      ((0, message) ∷ [])
      (ok skipped)
unfolding complete flush
ran_mixed =
    executed tasks prepared_mixed
      (subst (λ t. Schedule (workers (pos 10)) 3 (submitted (t ∷ [])) ended)
        (sym (one_task (codes "mixed"))) alone)
      (all_returned (refl, tt))

Runs-mixed_example :
    (ts : List (Task (ℤ × ℕ))) × (prepare quotients counter files (λ i. 0) iterated mixed_config 0
      ≡ ok ts)
    × Assigned quotients counter files
        (λ i. 0)
        iterated
        mixed_config
        mixed_scenario
        (codes "one" ∷ [])
        0
        ts
    × AllDone 0 (map (run_task quotients mixed_config dry_producer) ts) ((0, message) ∷ [])
    × (skipped ≡ flush dry_producer)
unfolding load text_eq ends_with starts_with strip_prefix is_mixed_scenario is_true get texts_of
Runs-mixed_example =
    Runs-mixed quotients counter files (λ i. 0) iterated mixed_config mixed_scenario names
      (codes "one" ∷ []) dry_producer 0 refl refl refl refl ran_mixed
