-- ===== src/Tests/Topics.antt =====
-- The Flink job at a record that cannot be parsed, an order and its timer.
use delayed_order_sms_flink.Base.{
  ◌≤◌, ◌≡◌, refl, true, false, Option, none, some, List, [], ◌∷◌, ◌++◌, map, Text, codes, text_eq,
  pos, if◌then◌else◌,
}
use delayed_order_sms_flink.Tests.ListTimers.{list_timers, has_timer, delete_timer, register_timer}
use delayed_order_sms_flink.Tests.Deliveries.{update, delay_state}
use delayed_order_sms_flink.Flink.Model.{
  created, OrderState, is_terminal, is_terminal_status, to_epoch_milli, delay_sms,
}
use delayed_order_sms_flink.Flink.Process.{
  process_stored, Output, sms, counted, delayed_orders_detected, sms_commands_emitted,
  emit_delay_sms, delete_registered_timer, register_or_update_timer, deliver_or_wait,
  process_current, process_valid, process_element, is_valid, timer_current, on_timer, fire, History,
}
use delayed_order_sms_flink.Flink.Process.Once.{recorded}
use delayed_order_sms_flink.Flink.Job.{
  Entry, unparsed, of_order, key_by, KeyedState, untouched_keys, put_key, at_key, process_keyed,
  read_record, Job, started, read, timed,
}
use delayed_order_sms_flink.Flink.Job.Orders.{outputs_of, updates_of, History-Job}
use delayed_order_sms_flink.Flink.Job.Addressed.{command_id_of}
use delayed_order_sms_flink.Flink.Job.Commands.{sms_topic, record_count, record_count-Job}
use delayed_order_sms_flink.Flink.Job.Failures.{parse_failures, all_unreadable, parse_failures-Job}

-- A parser that reads one text.
unfoldable reader : Text → Option (Option OrderState)
reader value = if text_eq value (codes "created") then some (some (update created 50 10)) else none

abbrev order : Text
order = codes "o-1"

abbrev waiting_keys : KeyedState
waiting_keys =
    put_key order
      (record {
        state = some (delay_state created 50 10 false (some (pos 50)));
        timers = pos 50 ∷ [];
      })
      untouched_keys

abbrev sent_keys : KeyedState
sent_keys =
    put_key order (record { state = some (delay_state created 50 10 true none); timers = [] })
      waiting_keys

abbrev sent : List Output
sent =
    counted delayed_orders_detected
    ∷ counted sms_commands_emitted
    ∷ sms (delay_sms (delay_state created 50 10 false (some (pos 50))) (pos 55))
    ∷ []

abbrev values : List Text
values = codes "created" ∷ codes "broken" ∷ []

abbrev log : List Entry
log = (([] ++ (unparsed (codes "broken") ∷ [])) ++ []) ++ map (of_order order) sent

job : Job reader none values log sent_keys
unfolding read_record process_keyed key_by at_key reader text_eq process_element process_valid
    process_stored process_current deliver_or_wait is_valid is_terminal is_terminal_status
    to_epoch_milli delete_registered_timer register_or_update_timer register_timer delete_timer
    has_timer fire on_timer timer_current emit_delay_sms delay_sms
job =
    timed order (pos 50) (pos 55) sent_keys (map (of_order order) sent)
      (read (codes "created") (pos 10) (pos 10) waiting_keys []
        (read (codes "broken") (pos 5) (pos 5) untouched_keys (unparsed (codes "broken") ∷ [])
          started refl)
        refl)
      refl refl

History-Job_example :
    History (updates_of reader none order values) (outputs_of order log) (sent_keys order)
History-Job_example = History-Job reader none order job

record_count-Job_example :
    (record_count (command_id_of order) (sms_topic log) ≤ 1)
    × (record_count (command_id_of order) (sms_topic log) ≡ recorded (sent_keys order))
record_count-Job_example = record_count-Job order job

parse_failures-Job_example : parse_failures log ≡ all_unreadable reader none values
parse_failures-Job_example = parse_failures-Job job
