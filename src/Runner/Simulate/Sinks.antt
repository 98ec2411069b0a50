-- ===== src/Runner/Simulate/Sinks.antt =====
-- Where the messages of a run go.
use delayed_order_sms_flink.Base.{
  ℕ, ◌≡◌, refl, ap, ap₂, sym, ◌∙◌, subst, Bool, true, false, ◌||◌, none, some, List, [], ◌∷◌, map,
  All, codes, Result, ok, err, >>=-eq-ok, ok-injective, Bool-cases, inl, inr, ℤ, if◌then◌else◌,
}
use delayed_order_sms_flink.Json.{Json, null, bool, int, float, str, arr, obj}
use delayed_order_sms_flink.Json.Numbers.{Floats}
use delayed_order_sms_flink.Number.{int_of_text}
use delayed_order_sms_flink.Config.{
  SimulatorConfig, Arguments, Environment, env_bool, getenv_or, from_env, override, text_or,
  given_or, overrides_of, main_config, main_producer,
}
use delayed_order_sms_flink.Loader.{Files}
use delayed_order_sms_flink.Producer.{OrderKafkaProducer, Flush, flushed, flush}
use delayed_order_sms_flink.Runner.Assign.{Random}
use delayed_order_sms_flink.Runner.Trace.{Action}
use delayed_order_sms_flink.Runner.Order.Sinks.{ActionGoesTo, run_single_order-AllGo}
use delayed_order_sms_flink.Runner.Run.{Task, run_task}
use delayed_order_sms_flink.Runner.Pool.{workers, complete}
use delayed_order_sms_flink.Runner.Pool.Log.{AllLogged, AllLogged-Schedule}
use delayed_order_sms_flink.Runner.Simulate.{
  Runs, raised, executed, Simulates, misconfigured, configured,
}

module _ (fl : Floats) (config : SimulatorConfig fl.Float) (producer : OrderKafkaProducer) where
  run_task-AllGo :
      (task : Task fl.Float) → All (ActionGoesTo producer) (run_task fl config producer task).0
  unfolding run_task
  run_task-AllGo (context, obj scenario) =
      run_single_order-AllGo fl config producer context scenario
  run_task-AllGo (context, null) = tt
  run_task-AllGo (context, bool b) = tt
  run_task-AllGo (context, int n) = tt
  run_task-AllGo (context, float x) = tt
  run_task-AllGo (context, str s) = tt
  run_task-AllGo (context, arr xs) = tt

  run_tasks-AllGo :
      (tasks : List (Task fl.Float))
      → All (λ t. All (ActionGoesTo producer) t.0) (map (run_task fl config producer) tasks)
  run_tasks-AllGo [] = tt
  run_tasks-AllGo (task ∷ tasks) = (run_task-AllGo task, run_tasks-AllGo tasks)

-- Only a run that is not dry waits for the library.
complete-flushed :
    (producer : OrderKafkaProducer) (r : Result (Unit {0}))
    → complete producer r ≡ ok flushed
    → producer.dry_run ≡ false
unfolding complete flush
complete-flushed producer (ok _) h = elim (Bool-cases producer.dry_run) [
  | inl e ↦ absurd (let e' = ok-injective (rw e at h) in cc)
  | inr e ↦ e
]
complete-flushed producer (err x) h = cc

-- What the messages of a run meet, and its end
abbrev pub Sinks : {F : Type 0} → OrderKafkaProducer → List (ℕ × Action F) → Result Flush → Type 0
Sinks producer log r =
    AllLogged (ActionGoesTo producer) log × (r ≡ ok flushed → producer.dry_run ≡ false)

-- The topic and the mode that the command line and the environment ask for
abbrev pub wanted_producer : Arguments → Environment → OrderKafkaProducer
wanted_producer args env = record {
  topic = text_or args.orders_topic (getenv_or (codes "ORDERS_TOPIC") (codes "Orders") env);
  dry_run = args.dry_run || env_bool (codes "DRY_RUN") false env;
}

module _ (fl : Floats) where
  from_env-wanted :
      (env : Environment) {c : SimulatorConfig fl.Float}
      → from_env fl env ≡ ok c
      → (c.orders_topic ≡ getenv_or (codes "ORDERS_TOPIC") (codes "Orders") env)
        × (c.dry_run ≡ env_bool (codes "DRY_RUN") false env)
  unfolding from_env
  from_env-wanted env h =
      let (_, _, h1) =
        >>=-eq-ok (int_of_text (getenv_or (codes "ORDERS_COUNT") (codes "100") env)) _ h in
      let (_, _, h2) =
        >>=-eq-ok (fl.of_text (getenv_or (codes "EVENT_DELAY_MULTIPLIER") (codes "1.0") env)) _
          h1 in
      let (_, _, h3) =
        >>=-eq-ok (int_of_text (getenv_or (codes "RANDOM_SEED") (codes "42") env)) _ h2 in
      let (_, _, h4) =
        >>=-eq-ok (int_of_text (getenv_or (codes "MAX_WORKERS") (codes "10") env)) _ h3 in
      let (_, _, h5) =
        >>=-eq-ok (int_of_text (getenv_or (codes "PAUSE_AFTER_STEP") (codes "0") env)) _ h4 in
      let (_, _, h6) =
        >>=-eq-ok (int_of_text (getenv_or (codes "PAUSE_DURATION_SECONDS") (codes "0") env)) _ h5 in
      let same = ok-injective h6 in
      (sym (ap (λ c. c.orders_topic) same), sym (ap (λ c. c.dry_run) same))

  dry_run-or :
      (asked set : Bool) → given_or (if asked then some true else none) set ≡ (asked || set)
  dry_run-or true set = refl
  dry_run-or false set = refl

  main_producer-wanted :
      (args : Arguments) (env : Environment) {config : SimulatorConfig fl.Float}
      → main_config fl args env ≡ ok config
      → main_producer config ≡ wanted_producer args env
  unfolding main_config main_producer override overrides_of
  main_producer-wanted args env h =
      let (c, hc, h') = >>=-eq-ok (from_env fl env) _ h in
      let (topic, dry) = from_env-wanted env hc in
      sym (ap main_producer (ok-injective h'))
      ∙ ap₂ (λ t d. record { topic = text_or args.orders_topic t; dry_run = d }) topic
          (dry_run-or args.dry_run c.dry_run ∙ ap (λ b. args.dry_run || b) dry)

module _ (fl : Floats) (rng : Random) (files : Files fl.Float) (clock : ℕ → ℕ)
    (iterated : Json fl.Float → Result (List (Task fl.Float))) where
  Runs-Sinks :
      (config : SimulatorConfig fl.Float) (producer : OrderKafkaProducer) (s : rng.State)
      {log : List (ℕ × Action fl.Float)} {r : Result Flush}
      → Runs fl rng files clock iterated config producer s log r
      → Sinks producer log r
  Runs-Sinks config producer s (raised e h) = (tt, λ h. cc)
  Runs-Sinks config producer s (executed tasks {q = q} {r = r} h schedule ends) = (
    AllLogged-Schedule (ActionGoesTo producer) (workers config.max_workers) _
        (run_tasks-AllGo fl config producer tasks) schedule,
    complete-flushed producer r,
  )

  -- Where `main` sends the messages, from the command line and the environment: in a dry run, which
  -- `--dry-run` or the variable DRY_RUN asks for, every message is printed, none is handed to the
  -- library, and the library is not waited for; in any other run every message is handed to it. Each
  -- names the topic of `--orders-topic` if one is given, of ORDERS_TOPIC otherwise, or Orders.
  pub Simulates-Sinks :
      (args : Arguments) (env : Environment) (seeded : ℤ → rng.State)
      {log : List (ℕ × Action fl.Float)} {r : Result Flush}
      → Simulates fl rng files clock iterated args env seeded log r
      → Sinks (wanted_producer args env) log r
  Simulates-Sinks args env seeded (misconfigured e h) = (tt, λ h. cc)
  Simulates-Sinks args env seeded (configured config {log} {r} h runs) =
      subst (λ producer. Sinks producer log r) (main_producer-wanted fl args env h)
        (Runs-Sinks config (main_producer config) (seeded config.random_seed) runs)
