-- ===== src/Lib.antt =====
-- The delayed order SMS system. The order simulator reads a scenario, makes orders, and publishes
-- the events of each order to a Kafka topic; the Flink job reads the topic, keeps the latest update
-- of each order, and puts out one SMS command for an order that is not delivered in time.
--
-- The parts and their files. The first are in simulator/src/order_simulator.
--   * Time: time_utils.py. Expression is `_TIME_EXPRESSION_PATTERN`, a matcher that returns the
--     groups (the source has a regular expression); Resolve is `parse_dynamic_time`,
--     `parse_offset` and `resolve_dynamic_times`; Clock has the ranges of `timedelta` and
--     `datetime`, and Calendar `to_iso_z` with `isoformat`. A time is the number of microseconds
--     since the start of the year 1, in UTC, and below `max_time` for the years up to 9999.
--   * Template: template_renderer.py.
--   * Json: the values that `json` reads. Json/Dumps is `json.dumps` with the arguments of
--     `publish`, and UTF-8. Number is `int` at such a value.
--   * Producer: kafka_producer.py, up to the calls of `confluent_kafka`: a call of `publish` gives
--     the topic, the key and the value that are handed over, or the printed document of a dry run.
--   * Runner: runner.py. Names is `OrderContext`, `_normalize_name`, `_create_order_context` and
--     `_create_order_contexts`; Assign is `_assign_scenarios`; Event is `_build_event_value`;
--     Order is `_run_single_order`, where Trace lists the effects in their order up to the first
--     error; Run is the tasks of `_run_single_scenario` and `_run_mixed_scenario`; Pool is
--     `_execute_tasks` as steps of threads on the tasks, and the flush at the end of `run`;
--     Simulate is `run` as a whole, and `main` of main.py.
--   * Config: config.py, and the configuration that `main` of main.py makes of the arguments.
--   * Loader: scenario_loader.py, with the files of the directory as an argument.
--   * Flink: flink-job/src/main/java/com/company/delayedordersms. Model is the classes of the
--     package model, and Process is processor/DelayedOrderProcessFunction.java at one key.
--     TimerService is Flink's, of which the laws are its documentation. A handler that throws has
--     no result. `History` is what may happen at a key: updates arrive, and timers that are
--     registered fire; in `Lives` the state may also expire, at any moment. Job is the pipeline of
--     DelayedOrderSmsJob.java, with serde/OrderStateDeserializationFunction.java: a record is
--     parsed and keyed, and the process function runs at its key. In the relation `Job` records
--     are read and timers fire in any order; the entries of its log go to the topics.
--   * E2e: e2e-tests/run_e2e.py. E2e has the expectations and the loop over the scenarios at given
--     outcomes; Polling is `poll_healthy` and `poll_job_running`, Build `build_flink_jar`, Counting
--     `consume_sms_count`, JobId the loop of `main` that looks for the id of the job, and Phases
--     `main`; Submit is `submit_flink_job`, which `main` does not call. All run on a machine, the
--     record `Host` of E2e/Host, which stands for the processes, the clock, the files and HTTP; a
--     piece of code lists the calls that it makes.
--   * Base: lists, texts, integers and results. Tests: runs at concrete data.
-- A text is a list of code points. Python's exceptions are the errors of a `Result`. The order of
-- the entries of a `dict` is the order of insertion.
--
-- Parameters. Python's `float` is the record `Floats` of Json/Numbers, whose operations are not
-- defined here; what the division of two ints is relied on for is the record `DividesExactly`,
-- which Tests/Orders gives for exact quotients. Flink's timers are the record `TimerService`, which
-- Tests/ListTimers gives as a list of times. The machine that the end-to-end tests run on is the
-- record `Host`, of which only the clock has laws: it does not go back, and `time.sleep` waits as
-- long as it is told. Tests/Machine gives one. Its clock counts nanoseconds, where Python has a
-- `float` of seconds. `random.Random` is the record `Random`. `utc_now`
-- is an argument. Jackson's parser of the updates is an argument of `Job`, and so is the key under
-- which Flink puts an order without an id, if it takes one.
--
-- Bounds. `show_fuel`, the decimal digits of a number n, has the fuel n + 1, and a number has
-- no more digits than that. The digits that `\d` and `int` read are those of Unicode 14. `int`
-- reads 4300 digits at most. A polling loop has one round of fuel
-- more than its timeout has seconds, and a round sleeps for two. The other loops are structural.
--
-- Threads. A step of Pool is one effect of one task, so the log of the steps is an interleaving of
-- the effects. Which thread comes next is left open. The tasks are submitted one after the other
-- while threads run already: a task that is not submitted yet counts as one that waits.
--
-- Not modelled: what is printed, `argparse`, and `includedScenarios` that is a text or an object
-- (what becomes of it is an argument of `prepare`). Of the Flink job, JobConfig, the JSON that
-- the serialisers write, the settings of the sources and sinks, and restarts from a checkpoint. The delivery reports of the Kafka library have no effect but a print.
pub mod Base
pub mod Json
pub mod Time
pub mod Number
pub mod Template
pub mod Producer
pub mod Config
pub mod Loader
pub mod Runner
pub mod Flink
pub mod E2e
mod Tests
