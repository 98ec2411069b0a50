-- ===== src/Config.antt =====
-- simulator/src/order_simulator/config.py, and how main.py makes the configuration of a run.
use delayed_order_sms_flink.Base.{
  Bool, true, false, ◌||◌, Option, none, some, List, [], ◌∷◌, map, Text, codes, text_eq,
  if◌then◌else◌, ℤ, Result, ok, ◌>>=◌,
}
use delayed_order_sms_flink.Json.Numbers.{Floats}
use delayed_order_sms_flink.Number.{int_of_text}
use delayed_order_sms_flink.Runner.Names.{to_lower}
use delayed_order_sms_flink.Producer.{OrderKafkaProducer}

-- `os.environ`
abbrev pub Environment : Type 0
Environment = List (Text × Text)

unfoldable pub getenv : Text → Environment → Option Text
getenv name [] = none
getenv name ((k, v) ∷ env) = if text_eq k name then some v else getenv name env

-- `os.getenv(name, default)`
abbrev pub getenv_or : Text → Text → Environment → Text
getenv_or name default env = elim (getenv name env) [ none ↦ default | some v ↦ v ]

-- `value.lower() in ("1", "true", "yes", "y")`. No character outside ASCII has one of these
-- letters as its small letter.
abbrev pub is_yes : Text → Bool
is_yes value =
    let lower = map to_lower value in
    text_eq lower (codes "1")
    || text_eq lower (codes "true")
    || text_eq lower (codes "yes")
    || text_eq lower (codes "y")

unfoldable pub env_bool : Text → Bool → Environment → Bool
env_bool name default env = elim (getenv name env) [ none ↦ default | some v ↦ is_yes v ]

pub record SimulatorConfig (F : Type 0) : Type 0 where
  pub kafka_bootstrap_servers : Text
  pub orders_topic : Text
  pub scenario : Text
  pub orders_count : ℤ
  pub order_id_prefix : Text
  pub event_delay_multiplier : F
  pub dry_run : Bool
  pub random_seed : ℤ
  pub max_workers : ℤ
  pub pause_after_step : ℤ
  pub pause_duration_seconds : ℤ

module _ (fl : Floats) where
  -- The numbers are read in the order of the fields, and the first that is none raises.
  unfoldable pub from_env : Environment → Result (SimulatorConfig fl.Float)
  from_env env = do
    orders_count ← int_of_text (getenv_or (codes "ORDERS_COUNT") (codes "100") env)
    multiplier ← fl.of_text (getenv_or (codes "EVENT_DELAY_MULTIPLIER") (codes "1.0") env)
    random_seed ← int_of_text (getenv_or (codes "RANDOM_SEED") (codes "42") env)
    max_workers ← int_of_text (getenv_or (codes "MAX_WORKERS") (codes "10") env)
    pause_after_step ← int_of_text (getenv_or (codes "PAUSE_AFTER_STEP") (codes "0") env)
    pause_duration ← int_of_text (getenv_or (codes "PAUSE_DURATION_SECONDS") (codes "0") env)
    ok (record {
      kafka_bootstrap_servers =
          getenv_or (codes "KAFKA_BOOTSTRAP_SERVERS") (codes "localhost:9092") env;
      orders_topic = getenv_or (codes "ORDERS_TOPIC") (codes "Orders") env;
      scenario = getenv_or (codes "SCENARIO") (codes "mixed-orders") env;
      orders_count = orders_count;
      order_id_prefix = getenv_or (codes "ORDER_ID_PREFIX") (codes "ord") env;
      event_delay_multiplier = multiplier;
      dry_run = env_bool (codes "DRY_RUN") false env;
      random_seed = random_seed;
      max_workers = max_workers;
      pause_after_step = pause_after_step;
      pause_duration_seconds = pause_duration;
    })

-- The arguments of `override`.
pub record Overrides : Type 0 where
  pub scenario : Option Text
  pub orders_count : Option ℤ
  pub dry_run : Option Bool
  pub kafka_bootstrap_servers : Option Text
  pub orders_topic : Option Text

-- `given or present`: an empty text counts as absent.
abbrev pub text_or : Option Text → Text → Text
text_or none present = present
text_or (some []) present = present
text_or (some (c ∷ s)) present = c ∷ s

-- `given if given is not None else present`
abbrev pub given_or {ℓ} : {A : Type ℓ} → Option A → A → A
given_or none present = present
given_or (some a) present = a

unfoldable pub override : {F : Type 0} → Overrides → SimulatorConfig F → SimulatorConfig F
override o c = record {
  kafka_bootstrap_servers = text_or o.kafka_bootstrap_servers c.kafka_bootstrap_servers;
  orders_topic = text_or o.orders_topic c.orders_topic;
  scenario = text_or o.scenario c.scenario;
  orders_count = given_or o.orders_count c.orders_count;
  order_id_prefix = c.order_id_prefix;
  event_delay_multiplier = c.event_delay_multiplier;
  dry_run = given_or o.dry_run c.dry_run;
  random_seed = c.random_seed;
  max_workers = c.max_workers;
  pause_after_step = c.pause_after_step;
  pause_duration_seconds = c.pause_duration_seconds;
}

-- What `parse_args` returns.
pub record Arguments : Type 0 where
  pub scenario : Option Text
  pub orders_count : Option ℤ
  pub kafka_bootstrap_servers : Option Text
  pub orders_topic : Option Text
  pub dry_run : Bool

-- `args.scenario`, or the variable SCENARIO_FILE where there is none
abbrev pub scenario_arg : Option Text → Environment → Option Text
scenario_arg none env = getenv (codes "SCENARIO_FILE") env
scenario_arg (some s) env = some s

unfoldable pub overrides_of : Arguments → Environment → Overrides
overrides_of args env = record {
  scenario = scenario_arg args.scenario env;
  orders_count = args.orders_count;
  dry_run = if args.dry_run then some true else none;
  kafka_bootstrap_servers = args.kafka_bootstrap_servers;
  orders_topic = args.orders_topic;
}

-- The configuration that `main` makes.
unfoldable pub main_config :
    (fl : Floats) → Arguments → Environment → Result (SimulatorConfig fl.Float)
main_config fl args env = do config ← from_env fl env; ok (override (overrides_of args env) config)

-- The producer that `main` makes.
unfoldable pub main_producer : {F : Type 0} → SimulatorConfig F → OrderKafkaProducer
main_producer config = record { topic = config.orders_topic; dry_run = config.dry_run }
