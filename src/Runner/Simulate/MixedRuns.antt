-- ===== src/Runner/Simulate/MixedRuns.antt =====
-- What a mixed run that returns has done.
use delayed_order_sms_flink.Base.{
  ℕ, ◌≡◌, refl, sym, ◌∙◌, subst, true, some, List, map, Text, codes, Result, ok, >>=-eq-ok,
  ok-injective,
}
use delayed_order_sms_flink.Json.{Json, Items, Fields, obj, arr, get_or, null}
use delayed_order_sms_flink.Json.Numbers.{Floats}
use delayed_order_sms_flink.Config.{SimulatorConfig}
use delayed_order_sms_flink.Loader.{Files, Loaded, load, load_many}
use delayed_order_sms_flink.Producer.{OrderKafkaProducer, Flush, flush}
use delayed_order_sms_flink.Runner.Assign.{Random, assign_scenarios}
use delayed_order_sms_flink.Runner.Assign.Included.{AllIncluded, assign_scenarios-AllIncluded}
use delayed_order_sms_flink.Runner.Trace.{Action}
use delayed_order_sms_flink.Runner.Run.{Task, texts_of, mixed_tasks, run_task}
use delayed_order_sms_flink.Runner.Run.Mixed.{TasksOf, mixed_tasks-TasksOf}
use delayed_order_sms_flink.Runner.Pool.Flushing.{AllDone}
use delayed_order_sms_flink.Runner.Simulate.{
  is_mixed_scenario, tasks_of_mixed, tasks_of, prepare, Runs,
}
use delayed_order_sms_flink.Runner.Simulate.Complete.{Runs-AllDone}

module _ (fl : Floats) (rng : Random) (files : Files fl.Float) (clock : ℕ → ℕ)
    (iterated : Json fl.Float → Result (List (Task fl.Float)))
    (config : SimulatorConfig fl.Float) where
  -- The tasks are those of an assignment of the included scenarios.
  abbrev pub Assigned : Fields fl.Float → List Text → rng.State → List (Task fl.Float) → Type 0
  Assigned scenario included s tasks =
      (r : List Text × rng.State) × (assign_scenarios fl rng scenario included config.orders_count s
        ≡ ok r)
      × AllIncluded included r.0
      × TasksOf files config.order_id_prefix clock 1 r.0 tasks

  mixed_tasks-ok :
      (scenario : Fields fl.Float) (included : List Text) (s : rng.State)
      {tasks : List (Task fl.Float)}
      → mixed_tasks fl rng config files clock scenario included s ≡ ok tasks
      → (loaded : Loaded fl.Float) × (r : List Text × rng.State) × (load_many files included
          ≡ ok loaded)
        × (assign_scenarios fl rng scenario included config.orders_count s ≡ ok r)
  unfolding mixed_tasks
  mixed_tasks-ok scenario included s h =
      let (loaded, hl, h1) = >>=-eq-ok (load_many files included) _ h in
      let (r, ha, h2) =
        >>=-eq-ok (assign_scenarios fl rng scenario included config.orders_count s) _ h1 in
      (loaded, r, hl, ha)

  Assigned-mixed_tasks :
      (scenario : Fields fl.Float) (included : List Text) (s : rng.State)
      {tasks : List (Task fl.Float)}
      → mixed_tasks fl rng config files clock scenario included s ≡ ok tasks
      → Assigned scenario included s tasks
  Assigned-mixed_tasks scenario included s h =
      let (loaded, r, hl, ha) = mixed_tasks-ok scenario included s h in
      let (ts, made, of) =
        mixed_tasks-TasksOf fl rng config files clock scenario included s hl ha in
      (
        r,
        ha,
        assign_scenarios-AllIncluded fl rng scenario included config.orders_count s ha,
        subst (TasksOf files config.order_id_prefix clock 1 r.0) (ok-injective (sym made ∙ h)) of,
      )

  Assigned-prepare :
      (scenario : Fields fl.Float) (names : Items fl.Float) (included : List Text) (s : rng.State)
      {tasks : List (Task fl.Float)}
      → load files config.scenario ≡ ok (obj scenario)
      → is_mixed_scenario fl scenario ≡ true
      → get_or (codes "includedScenarios") null scenario ≡ arr names
      → texts_of names ≡ some included
      → prepare fl rng files clock iterated config s ≡ ok tasks
      → Assigned scenario included s tasks
  unfolding prepare tasks_of tasks_of_mixed
  Assigned-prepare scenario names included s found mixed listed texts h =
      Assigned-mixed_tasks scenario included s
        (rw (found, mixed, listed, tasks_of_mixed, texts) at h)

  -- A mixed run that returns has made one order for each scenario that `_assign_scenarios` assigns,
  -- numbered from 1 in their order, each with the scenario that `load` gives for the name, which is
  -- one of the included ones. Each order has had all of its effects in their order and has
  -- returned, and the producer was flushed, however the threads took turns. `includedScenarios` is
  -- a list of texts.
  pub Runs-mixed :
      (scenario : Fields fl.Float) (names : Items fl.Float) (included : List Text)
      (producer : OrderKafkaProducer) (s : rng.State) {log : List (ℕ × Action fl.Float)} {f : Flush}
      → load files config.scenario ≡ ok (obj scenario)
      → is_mixed_scenario fl scenario ≡ true
      → get_or (codes "includedScenarios") null scenario ≡ arr names
      → texts_of names ≡ some included
      → Runs fl rng files clock iterated config producer s log (ok f)
      → (tasks : List (Task fl.Float)) × (prepare fl rng files clock iterated config s ≡ ok tasks)
        × Assigned scenario included s tasks
        × AllDone 0 (map (run_task fl config producer) tasks) log
        × (f ≡ flush producer)
  Runs-mixed scenario names included producer s found mixed listed texts runs =
      let (tasks, h, done, flushed) =
        Runs-AllDone fl rng files clock iterated config producer s runs refl in
      (
        tasks,
        h,
        Assigned-prepare scenario names included s found mixed listed texts h,
        done,
        flushed,
      )
