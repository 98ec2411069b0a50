-- ===== src/E2e/Phases.antt =====
-- `main` of run_e2e.py at its parsed arguments: the services are started, the job is built and
-- submitted, the scenarios run, and the services go. Its prints are left out.
pub mod Rounds
pub mod Exit
pub mod Success
use delayed_order_sms_flink.Base.{
  ℕ, Bool, true, false, not, Option, none, some, List, [], ◌∷◌, ◌++◌, Text, codes, text_eq,
  if◌then◌else◌, ℤ, pos, int_eq, Result, ok, err, called_process_error,
}
use delayed_order_sms_flink.Json.Dumps.{show_int}
use delayed_order_sms_flink.E2e.{
  E2EResult, Outcome, failed, counted, scenarios, scenario_result, exit_code,
}
use delayed_order_sms_flink.E2e.Host.{
  Completed, Host, Effect, returns, reads, lift, ◌>>=◌, ◌>>◌, subprocess_run, sleep,
}
use delayed_order_sms_flink.E2e.Polling.{poll_healthy}
use delayed_order_sms_flink.E2e.Counting.{consume_sms_count}
use delayed_order_sms_flink.E2e.Build.{build_flink_jar, find_jar, flink_jar_name}

pub record E2eArguments : Type 0 where
  pub no_cleanup : Bool
  pub orders_count : ℤ

abbrev pub succeeded : Completed → Bool
succeeded result = int_eq result.returncode (pos 0)

abbrev pub compose_down : List Text
compose_down = codes "docker" ∷ codes "compose" ∷ codes "down" ∷ codes "-v" ∷ []

abbrev pub compose_up : List Text
compose_up = codes "docker" ∷ codes "compose" ∷ codes "up" ∷ codes "-d" ∷ []

abbrev pub create_topics : List Text
create_topics =
    codes "docker"
    ∷ codes "exec"
    ∷ codes "kafka"
    ∷ codes "bash"
    ∷ codes "-c"
    ∷ (codes "kafka-topics --bootstrap-server kafka:29092 --create --if-not-exists --topic Orders "
        ++ codes "--partitions 3 --replication-factor 1 --config cleanup.policy=compact "
        ++ codes "--config min.cleanable.dirty.ratio=0.01 --config segment.ms=60000 && "
        ++ codes "kafka-topics --bootstrap-server kafka:29092 --create --if-not-exists "
        ++ codes "--topic sms-commands --partitions 3 --replication-factor 1 && "
        ++ codes "kafka-topics --bootstrap-server kafka:29092 --create --if-not-exists "
        ++ codes "--topic dead-letter-events --partitions 3 --replication-factor 1")
    ∷ []

abbrev pub chown_checkpoints : Text → List Text
chown_checkpoints container =
    codes "docker"
    ∷ codes "exec"
    ∷ codes "-u"
    ∷ codes "root"
    ∷ container
    ∷ codes "chown"
    ∷ codes "-R"
    ∷ codes "flink:flink"
    ∷ codes "/opt/flink/checkpoints"
    ∷ codes "/opt/flink/savepoints"
    ∷ []

abbrev pub copy_jar : Text → List Text
copy_jar jar =
    codes "docker" ∷ codes "cp" ∷ jar ∷ (codes "flink-jobmanager:/tmp/" ++ flink_jar_name) ∷ []

abbrev pub flink_run : List Text
flink_run =
    codes "docker"
    ∷ codes "exec"
    ∷ codes "flink-jobmanager"
    ∷ codes "flink"
    ∷ codes "run"
    ∷ codes "-d"
    ∷ codes "-c"
    ∷ codes "com.company.delayedordersms.DelayedOrderSmsJob"
    ∷ (codes "/tmp/" ++ flink_jar_name)
    ∷ codes "--kafka.bootstrap.servers"
    ∷ codes "kafka:29092"
    ∷ codes "--orders.topic"
    ∷ codes "Orders"
    ∷ codes "--sms.commands.topic"
    ∷ codes "sms-commands"
    ∷ codes "--consumer.group.id"
    ∷ codes "delayed-order-sms-flink"
    ∷ codes "--checkpoint.storage.path"
    ∷ codes "file:///opt/flink/checkpoints"
    ∷ codes "--parallelism"
    ∷ codes "1"
    ∷ []

-- `run_scenario`
abbrev pub simulator_command : Text → ℤ → List Text
simulator_command name orders_count =
    codes "docker"
    ∷ codes "compose"
    ∷ codes "--profile"
    ∷ codes "e2e"
    ∷ codes "run"
    ∷ codes "--rm"
    ∷ codes "simulator"
    ∷ codes "--scenario"
    ∷ name
    ∷ codes "--orders-count"
    ∷ show_int orders_count
    ∷ codes "--kafka-bootstrap-servers"
    ∷ codes "kafka:29092"
    ∷ codes "--orders-topic"
    ∷ codes "Orders"
    ∷ []

-- `SCENARIO_WAIT_SECONDS.get(scenario, 15)`
unfoldable pub wait_seconds : Text → ℕ
wait_seconds name =
    if text_eq name (codes "eta-updated-orders")
    then 25
    else if text_eq name (codes "mixed-orders")
    then 25
    else 15

module _ ⦃H : Host⦄ where
  -- `if not ...: return 1`, where nothing is what a loop that does not end gives
  abbrev pub and_then : Option Bool → Effect (Option Bool) → Effect (Option Bool)
  and_then none rest = returns none
  and_then (some false) rest = returns (some false)
  and_then (some true) rest = rest

  -- Phase 1
  unfoldable pub start_services : Effect (Option Bool)
  start_services = do
    _ ← subprocess_run compose_down none
    _ ← sleep 3
    result ← subprocess_run compose_up none
    healthy ← (if succeeded result then poll_healthy 120 else returns (some false))
    and_then healthy (do
      _ ← subprocess_run create_topics none
      _ ← subprocess_run (chown_checkpoints (codes "flink-jobmanager")) none
      _ ← subprocess_run (chown_checkpoints (codes "flink-taskmanager")) none
      returns (some true))

  -- `check=True`
  abbrev pub checked : Completed → Effect (Unit {0})
  checked result = if succeeded result then returns tt else lift (err called_process_error)

  -- The job's file goes into the container, and the job is started. Its id is only printed.
  unfoldable pub submit_jar : Option Text → Effect (Option Bool)
  submit_jar none = returns (some false)
  submit_jar (some jar) = do
    copied ← subprocess_run (copy_jar jar) none
    _ ← checked copied
    _ ← subprocess_run flink_run none
    _ ← sleep 5
    returns (some true)

  -- Phase 2
  unfoldable pub submit_job : Effect (Option Bool)
  submit_job = do
    built ← build_flink_jar
    and_then (some built) (do found ← reads find_jar; jar ← lift found; submit_jar jar)

  -- What one scenario gives
  unfoldable pub outcome_of : ℤ → Text → Effect Outcome
  outcome_of orders_count name = do
    result ← subprocess_run (simulator_command name orders_count) none
    if succeeded result
        then (sleep (wait_seconds name)
            >> (do raw_count ← consume_sms_count 30000 100; returns (counted raw_count)))
        else returns failed

  -- Phase 3, from a running total on
  unfoldable pub run_in_turn : ℤ → List Text → ℤ → Effect (List E2EResult)
  run_in_turn orders_count [] previous_total = returns []
  run_in_turn orders_count (name ∷ names) previous_total = do
    outcome ← outcome_of orders_count name
    round ← lift (scenario_result name outcome previous_total)
    results ← run_in_turn orders_count names round.1
    returns (round.0 ∷ results)

  -- Phase 5
  unfoldable pub tear_down : Bool → Effect (Unit {0})
  tear_down no_cleanup =
      if no_cleanup then returns tt else (subprocess_run compose_down none >> returns tt)

  -- Phases 3 to 5
  unfoldable pub test_scenarios : E2eArguments → Effect (Option ℕ)
  test_scenarios args = do
    results ← run_in_turn args.orders_count scenarios (pos 0)
    _ ← tear_down args.no_cleanup
    returns (some (exit_code results))

  -- The exit code, behind the phases 1 and 2
  unfoldable pub go_on : E2eArguments → Option Bool → Effect (Option ℕ)
  go_on args none = returns none
  go_on args (some false) = returns (some 1)
  go_on args (some true) = test_scenarios args

  unfoldable pub main : E2eArguments → Effect (Option ℕ)
  main args = do
    started ← start_services
    submitted ← and_then started submit_job
    go_on args submitted
