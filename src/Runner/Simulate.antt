-- ===== src/Runner/Simulate.antt =====
-- `SimulatorRunner.run` as a whole, and `main` of main.py: the tasks are made, the threads run
-- them, and the producer is flushed. The prints are left out.
pub mod Sinks
pub mod Complete
pub mod MixedRuns
use delayed_order_sms_flink.Base.{
  ℕ, ◌+◌, ◌≡◌, Bool, Option, none, some, List, [], ◌∷◌, map, Text, codes, if◌then◌else◌, ℤ, Result,
  ok, err, ◌>>=◌, Error, attribute_error, type_error,
}
use delayed_order_sms_flink.Json.{
  Json, Items, Fields, null, bool, int, float, str, arr, obj, nil, cons, get_or, is_true,
}
use delayed_order_sms_flink.Json.Numbers.{Floats}
use delayed_order_sms_flink.Config.{
  SimulatorConfig, Arguments, Environment, main_config, main_producer,
}
use delayed_order_sms_flink.Loader.{Files, load}
use delayed_order_sms_flink.Producer.{OrderKafkaProducer, Flush}
use delayed_order_sms_flink.Runner.Assign.{Random}
use delayed_order_sms_flink.Runner.Trace.{Action}
use delayed_order_sms_flink.Runner.Run.{Task, texts_of, single_tasks, mixed_tasks, run_task}
use delayed_order_sms_flink.Runner.Pool.{Pool, workers, submitted, Schedule, Executed, complete}

-- `_is_mixed_scenario`
unfoldable pub is_mixed_scenario : (fl : Floats) → Fields fl.Float → Bool
is_mixed_scenario fl scenario =
    is_true fl.is_true (get_or (codes "includedScenarios") null scenario)

module _ (fl : Floats) (rng : Random) (files : Files fl.Float) (clock : ℕ → ℕ)
    -- What becomes of a text or an object as `includedScenarios`, which are iterated too, is left
    -- open.
    (iterated : Json fl.Float → Result (List (Task fl.Float)))
    (config : SimulatorConfig fl.Float) where
  -- `load_many` at a list with a name that is no text: the names in front of it are loaded first.
  unfoldable pub load_odd : Items fl.Float → Result (List (Task fl.Float))
  load_odd (cons (str name) names) = load files name >>= λ _. load_odd names
  load_odd _ = err attribute_error

  -- `_run_mixed_scenario` up to the tasks, where `includedScenarios` counts as true
  unfoldable pub tasks_of_mixed :
      Fields fl.Float → Json fl.Float → rng.State → Result (List (Task fl.Float))
  tasks_of_mixed scenario (arr names) s = elim (texts_of names) [
    | some included ↦ mixed_tasks fl rng config files clock scenario included s
    | none ↦ load_odd names
  ]
  tasks_of_mixed scenario (str t) s = iterated (str t)
  tasks_of_mixed scenario (obj fs) s = iterated (obj fs)
  tasks_of_mixed scenario _ s = err type_error

  unfoldable pub tasks_of : Json fl.Float → rng.State → Result (List (Task fl.Float))
  tasks_of (obj scenario) s =
      if is_mixed_scenario fl scenario
      then tasks_of_mixed scenario (get_or (codes "includedScenarios") null scenario) s
      else single_tasks fl rng config files clock scenario
  tasks_of _ s = err attribute_error

  -- The tasks of a run
  unfoldable pub prepare : rng.State → Result (List (Task fl.Float))
  prepare s = do scenario ← load files config.scenario; tasks_of scenario s

  -- `run`: the effects of the orders, each with the place of its task, and how it ends. The
  -- threads may take turns in any way.
  pub data Runs (producer : OrderKafkaProducer) (s : rng.State)
      : List (ℕ × Action fl.Float) → Result Flush → Type 0 where
    raised : (e : Error) → prepare s ≡ err e → Runs producer s [] (err e)
    executed :
        (tasks : List (Task fl.Float)) {n : ℕ} {q : Pool fl.Float} {r : Result (Unit {0})}
        → prepare s ≡ ok tasks
        → Schedule
            (workers config.max_workers)
            n
            (submitted (map (run_task fl config producer) tasks))
            q
        → Executed q.slots r
        → Runs producer s q.log (complete producer r)

-- `main`: `seeded` is `random.Random` at a seed.
pub data Simulates (fl : Floats) (rng : Random) (files : Files fl.Float) (clock : ℕ → ℕ)
    (iterated : Json fl.Float → Result (List (Task fl.Float))) (args : Arguments)
    (env : Environment) (seeded : ℤ → rng.State)
    : List (ℕ × Action fl.Float) → Result Flush → Type 0 where
  misconfigured :
      (e : Error)
      → main_config fl args env ≡ err e
      → Simulates fl rng files clock iterated args env seeded [] (err e)
  configured :
      (config : SimulatorConfig fl.Float) {log : List (ℕ × Action fl.Float)} {r : Result Flush}
      → main_config fl args env ≡ ok config
      → Runs fl rng files clock iterated config
          (main_producer config)
          (seeded config.random_seed)
          log
          r
      → Simulates fl rng files clock iterated args env seeded log r
