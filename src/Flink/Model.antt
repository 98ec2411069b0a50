-- ===== src/Flink/Model.antt =====
-- The classes of the package `model`: OrderStatus, OrderState, OrderDelayState and SmsCommand. A
-- reference that may be null is an `Option`. An `Instant` is its nanoseconds since 1970.
use delayed_order_sms_flink.Base.{
  ◌/◌, ◌^◌, Bool, true, false, ◌&&◌, not, Option, none, some, Text, codes, ◌++◌, ℤ, pos, negsuc,
  ltb_ℤ, neg, if◌then◌else◌,
}

pub data OrderStatus : Type 0 where
  created accepted picked_up delivered cancelled : OrderStatus

unfoldable pub is_terminal_status : OrderStatus → Bool
is_terminal_status delivered = true
is_terminal_status cancelled = true
is_terminal_status _ = false

-- The fields that the job reads.
pub record OrderState : Type 0 where
  pub order_id : Option Text
  pub customer_id : Option Text
  pub store_id : Option Text
  pub status : Option OrderStatus
  pub expected_delivery_time : Option ℤ
  pub last_updated_at : Option ℤ

pub record OrderDelayState : Type 0 where
  pub order_id : Option Text
  pub customer_id : Option Text
  pub store_id : Option Text
  pub current_status : Option OrderStatus
  pub expected_delivery_time : Option ℤ
  pub last_updated_at : Option ℤ
  pub delay_sms_emitted : Bool
  pub registered_timer_time : Option ℤ

abbrev pub from_order_state : OrderState → OrderDelayState
from_order_state o = record {
  order_id = o.order_id;
  customer_id = o.customer_id;
  store_id = o.store_id;
  current_status = o.status;
  expected_delivery_time = o.expected_delivery_time;
  last_updated_at = o.last_updated_at;
  delay_sms_emitted = false;
  registered_timer_time = none;
}

-- The flag and the timer stay.
abbrev pub update_from : OrderState → OrderDelayState → OrderDelayState
update_from o s = record {
  order_id = o.order_id;
  customer_id = o.customer_id;
  store_id = o.store_id;
  current_status = o.status;
  expected_delivery_time = o.expected_delivery_time;
  last_updated_at = o.last_updated_at;
  delay_sms_emitted = s.delay_sms_emitted;
  registered_timer_time = s.registered_timer_time;
}

unfoldable pub is_terminal : OrderDelayState → Bool
is_terminal s = elim s.current_status [ none ↦ false | some status ↦ is_terminal_status status ]

-- The fields that are not constants.
pub record SmsCommand : Type 0 where
  pub command_id : Text
  pub order_id : Option Text
  pub customer_id : Option Text
  pub store_id : Option Text
  pub expected_delivery_time : Option ℤ
  pub created_at : ℤ

-- `state.getOrderId() + ":DELAY_SMS"`: a null is written out.
abbrev pub or_null : Option Text → Text
or_null none = codes "null"
or_null (some t) = t

unfoldable pub delay_sms : OrderDelayState → ℤ → SmsCommand
delay_sms s created_at = record {
  command_id = or_null s.order_id ++ codes ":DELAY_SMS";
  order_id = s.order_id;
  customer_id = s.customer_id;
  store_id = s.store_id;
  expected_delivery_time = s.expected_delivery_time;
  created_at = created_at;
}

-- `Math.floorDiv(nanoseconds, 1000000)`
abbrev pub floor_milli : ℤ → ℤ
floor_milli (pos n) = pos (n / 1000000)
floor_milli (negsuc n) = negsuc (n / 1000000)

-- `toEpochMilli` throws where the result is no `long`.
unfoldable pub to_epoch_milli : ℤ → Option ℤ
to_epoch_milli t =
    let ms = floor_milli t in
    if ltb_ℤ ms (pos (2 ^ 63)) && not (ltb_ℤ ms (neg (pos (2 ^ 63)))) then some ms else none
