-- ===== src/Tests/Deliveries.antt =====
-- The updates and the timer of one order.
use delayed_order_sms_flink.Base.{
  ℕ, ◌+◌, ◌*◌, ◌≤◌, ◌≡◌, ◌≢◌, refl, Bool, true, false, Option, none, some, List, [], ◌∷◌, ◌++◌,
  codes, ℤ, pos, inr,
}
use delayed_order_sms_flink.Tests.ListTimers.{list_timers, has_timer, delete_timer, register_timer}
use delayed_order_sms_flink.Flink.Model.{
  OrderStatus, created, accepted, OrderState, OrderDelayState, is_terminal, is_terminal_status,
  to_epoch_milli, delay_sms,
}
use delayed_order_sms_flink.Flink.Process.{
  process_stored, Output, sms, counted, delayed_orders_detected, sms_commands_emitted,
  stale_updates_ignored, Keyed, emit_delay_sms, delete_registered_timer, register_or_update_timer,
  deliver_or_wait, process_current, process_valid, process_element, is_valid, is_stale_update,
  timer_current, on_timer, fire, History, untouched, element, fired, is_before,
}
use delayed_order_sms_flink.Flink.Process.Once.{sms_count, recorded, sms_count-History}
use delayed_order_sms_flink.Flink.Process.Updates.{HasItsTimer}
use delayed_order_sms_flink.Flink.Process.Timers.{HasItsTimer-History, OrderDue, OrderDue-History}
use delayed_order_sms_flink.Flink.Process.Expiry.{
  Lives, unseen, updated, timed_out, expired, sms_count-Lives,
}
use delayed_order_sms_flink.Flink.Process.Total.{process_element-ne-none}
use delayed_order_sms_flink.Flink.Process.Latest.{HoldsLatest, HoldsLatest-History}

-- An update of the order, with the times in milliseconds.
abbrev pub update : OrderStatus → ℕ → ℕ → OrderState
update status expected last = record {
  order_id = some (codes "o-1");
  customer_id = some (codes "c-1");
  store_id = some (codes "s-1");
  status = some status;
  expected_delivery_time = some (pos (expected * 1000000));
  last_updated_at = some (pos (last * 1000000));
}

abbrev pub delay_state : OrderStatus → ℕ → ℕ → Bool → Option ℤ → OrderDelayState
delay_state status expected last sent timer = record {
  order_id = some (codes "o-1");
  customer_id = some (codes "c-1");
  store_id = some (codes "s-1");
  current_status = some status;
  expected_delivery_time = some (pos (expected * 1000000));
  last_updated_at = some (pos (last * 1000000));
  delay_sms_emitted = sent;
  registered_timer_time = timer;
}

abbrev waiting_order : Keyed
waiting_order = record {
  state = some (delay_state accepted 90 20 false (some (pos 90)));
  timers = pos 90 ∷ [];
}

-- Created, accepted with a later delivery, and the first update once more.
waiting :
    History
      (update created 50 10 ∷ update accepted 90 20 ∷ update created 50 10 ∷ [])
      (counted stale_updates_ignored ∷ [])
      waiting_order
unfolding process_element process_valid process_stored process_current deliver_or_wait is_valid
    is_stale_update is_before is_terminal is_terminal_status to_epoch_milli delete_registered_timer
    register_or_update_timer register_timer delete_timer has_timer
waiting =
    element (update created 50 10) (pos 30) (pos 30) waiting_order
      (counted stale_updates_ignored ∷ [])
      (element (update accepted 90 20) (pos 20) (pos 20) waiting_order []
        (element (update created 50 10) (pos 10) (pos 10)
          (record {
            state = some (delay_state created 50 10 false (some (pos 50)));
            timers = pos 50 ∷ [];
          })
          [] untouched refl)
        refl)
      refl

abbrev sent_order : Keyed
sent_order = record { state = some (delay_state accepted 90 20 true none); timers = [] }

abbrev sent_outputs : List Output
sent_outputs =
    counted delayed_orders_detected
    ∷ counted sms_commands_emitted
    ∷ sms (delay_sms (delay_state accepted 90 20 false (some (pos 90))) (pos 95))
    ∷ []

timer_test : fire (pos 90) (pos 95) waiting_order ≡ some (sent_order, sent_outputs)
unfolding fire on_timer timer_current emit_delay_sms is_terminal is_terminal_status to_epoch_milli
    delete_timer delay_sms
timer_test = refl

sent :
    History
      (update created 50 10 ∷ update accepted 90 20 ∷ update created 50 10 ∷ [])
      ((counted stale_updates_ignored ∷ []) ++ sent_outputs)
      sent_order
unfolding has_timer
sent = fired (pos 90) (pos 95) sent_order sent_outputs waiting refl timer_test

sms_count-History_example :
    (sms_count ((counted stale_updates_ignored ∷ []) ++ sent_outputs) ≤ 1)
    × (sms_count ((counted stale_updates_ignored ∷ []) ++ sent_outputs) ≡ recorded sent_order)
sms_count-History_example = sms_count-History sent

HasItsTimer-History_example : HasItsTimer waiting_order.state waiting_order.timers
HasItsTimer-History_example = HasItsTimer-History waiting

OrderDue-History_example :
    (r : Keyed × List Output) × (fire (pos 90) (pos 95) waiting_order ≡ some r)
    × OrderDue (pos 90) (pos 95) waiting_order r
unfolding has_timer
OrderDue-History_example = OrderDue-History (pos 90) (pos 95) waiting refl

process_element-ne-none_example :
    process_element (update accepted 90 20) (pos 20) (pos 20) waiting_order ≢ none
unfolding to_epoch_milli
process_element-ne-none_example =
    process_element-ne-none (update accepted 90 20) (pos 20) (pos 20) waiting_order
      (inr (pos 90, refl))

HoldsLatest-History_example :
    HoldsLatest
      (update created 50 10 ∷ update accepted 90 20 ∷ update created 50 10 ∷ [])
      waiting_order.state
HoldsLatest-History_example = HoldsLatest-History waiting

-- The order gets a second SMS when its last update comes again after the state has expired.
again_outputs : List Output
again_outputs =
    counted delayed_orders_detected
    ∷ counted sms_commands_emitted
    ∷ sms (delay_sms (delay_state accepted 90 20 false none) (pos 900))
    ∷ []

sent_again : Lives 1 ((([] ++ []) ++ sent_outputs) ++ again_outputs) sent_order
unfolding again_outputs process_element process_valid process_stored process_current deliver_or_wait
    is_valid is_stale_update is_before is_terminal is_terminal_status to_epoch_milli
    delete_registered_timer register_or_update_timer register_timer delete_timer has_timer
    emit_delay_sms delay_sms
sent_again =
    updated (update accepted 90 20) (pos 900) (pos 900) sent_order again_outputs
      (expired (
        timed_out (pos 90) (pos 95) sent_order sent_outputs
          (updated (update accepted 90 20) (pos 20) (pos 20) waiting_order [] unseen refl) refl
          timer_test))
      refl

sms_count-Lives_example : sms_count ((([] ++ []) ++ sent_outputs) ++ again_outputs) ≤ 1 + 1
sms_count-Lives_example = sms_count-Lives sent_again

second_sms : sms_count ((([] ++ []) ++ sent_outputs) ++ again_outputs) ≡ 2
unfolding sms_count again_outputs
second_sms = refl
