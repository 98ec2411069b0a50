-- ===== src/Runner/Run.antt =====
-- `run` of runner.py: the tasks of a run, and what each of them is.
pub mod Mixed
use delayed_order_sms_flink.Base.{
  ℕ, ◌+◌, Bool, true, false, Option, none, some, List, [], ◌∷◌, map, Text, codes, if◌then◌else◌, ℤ,
  pos, ltb_ℤ, Result, ok, err, ◌>>=◌, attribute_error, value_error,
}
use delayed_order_sms_flink.Json.{
  Json, Items, Fields, null, bool, int, float, str, arr, obj, nil, cons, get_or, is_true,
}
use delayed_order_sms_flink.Json.Numbers.{Floats}
use delayed_order_sms_flink.Config.{SimulatorConfig}
use delayed_order_sms_flink.Loader.{Files, Loaded, get_loaded, load, load_many}
use delayed_order_sms_flink.Producer.{OrderKafkaProducer}
use delayed_order_sms_flink.Runner.Names.{OrderContext, create_order_context, create_order_contexts}
use delayed_order_sms_flink.Runner.Assign.{Random, assign_scenarios}
use delayed_order_sms_flink.Runner.Trace.{Trace, lift}
use delayed_order_sms_flink.Runner.Order.{run_single_order}

-- An order and its scenario.
abbrev pub Task : Type 0 → Type 0
Task F = OrderContext × Json F

-- What a scenario's name may be.
unfoldable pub name_of : {F : Type 0} → Json F → Result Text
name_of (str s) = ok s
name_of _ = err attribute_error

-- `includedScenarios` as a list of texts
unfoldable pub texts_of : {F : Type 0} → Items F → Option (List Text)
texts_of nil = some []
texts_of (cons (str s) xs) = elim (texts_of xs) [ none ↦ none | some names ↦ some (s ∷ names) ]
texts_of (cons _ xs) = none

-- `enumerate(assignments, start=i)`
unfoldable pub tasks_from :
    {F : Type 0} → Text → (ℕ → ℕ) → Loaded F → ℕ → List Text → Result (List (Task F))
tasks_from prefix clock loaded i [] = ok []
tasks_from prefix clock loaded i (scenario_name ∷ names) = do
  scenario ← get_loaded scenario_name loaded
  rest ← tasks_from prefix clock loaded (i + 1) names
  ok ((create_order_context prefix i scenario_name (clock i), scenario) ∷ rest)

module _ (fl : Floats) (rng : Random) (config : SimulatorConfig fl.Float) (files : Files fl.Float)
    (clock : ℕ → ℕ) where
  -- `_run_single_scenario`: the name is read when a context is made.
  unfoldable pub single_tasks : Fields fl.Float → Result (List (Task fl.Float))
  single_tasks fs =
      let named = do
        name ← name_of (get_or (codes "scenarioName") (str config.scenario) fs)
        ok (
            map (λ context. (context, obj fs))
              (create_order_contexts config.order_id_prefix name config.orders_count clock))
      in if ltb_ℤ (pos 0) config.orders_count then named else ok []

  -- `_run_mixed_scenario` at a list of texts that is not empty
  unfoldable pub mixed_tasks :
      Fields fl.Float → List Text → rng.State → Result (List (Task fl.Float))
  mixed_tasks mixed included s = do
    loaded ← load_many files included
    (assignments, s') ← assign_scenarios fl rng mixed included config.orders_count s
    tasks_from config.order_id_prefix clock loaded 1 assignments

-- What a thread does with a task: a scenario that is no object has no `get`.
unfoldable pub run_task :
    (fl : Floats)
    → SimulatorConfig fl.Float
    → OrderKafkaProducer
    → Task fl.Float
    → Trace fl.Float (Unit {0})
run_task fl config producer (context, obj fs) = run_single_order fl config producer context fs
run_task fl config producer (context, _) = lift (err attribute_error)
