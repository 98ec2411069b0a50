-- ===== src/Runner/Event.antt =====
-- `_build_event_value` of runner.py: the value of an event, with its delivery time moved by an
-- `etaOffset`.
pub mod Offset
use delayed_order_sms_flink.Base.{
  ℕ, Bool, true, false, Option, none, some, Text, codes, text_eq, contains, if◌then◌else◌, Result,
  ok, err, ◌>>=◌, Error, value_error, type_error,
}
use delayed_order_sms_flink.Json.{
  Json, Items, Fields, null, bool, int, float, str, arr, obj, nil, cons, end, field, get, put,
}
use delayed_order_sms_flink.Json.Numbers.{Floats}
use delayed_order_sms_flink.Time.Clock.{add_time}
use delayed_order_sms_flink.Time.Calendar.{to_iso_z}
use delayed_order_sms_flink.Time.Resolve.{parse_offset, resolve_dynamic_times}
use delayed_order_sms_flink.Template.{render_template}
use delayed_order_sms_flink.Runner.Names.{OrderContext, as_template_context}

abbrev pub eta_offset_key : Text
eta_offset_key = codes "etaOffset"

abbrev pub eta_key : Text
eta_key = codes "expectedDeliveryTime"

unfoldable pub has : {F : Type 0} → Text → Fields F → Bool
has k fs = elim (get k fs) [ none ↦ false | some _ ↦ true ]

module _ {F : Type 0} where
  unfoldable pub lists_text : Text → Items F → Bool
  lists_text k nil = false
  lists_text k (cons (str s) xs) = let rest = lists_text k xs in if text_eq s k then true else rest
  lists_text k (cons _ xs) = lists_text k xs

  -- `"expectedDeliveryTime" in resolved`, for each kind of value
  unfoldable pub mentions_eta : Json F → Result Bool
  mentions_eta (obj fs) = ok (has eta_key fs)
  mentions_eta (arr xs) = ok (lists_text eta_key xs)
  mentions_eta (str s) = ok (contains eta_key s)
  mentions_eta _ = err type_error

  -- `resolved["expectedDeliveryTime"] = time`
  unfoldable pub set_eta : Text → Json F → Result (Json F)
  set_eta time (obj fs) = ok (obj (put eta_key (str time) fs))
  set_eta time _ = err type_error

-- The value, and whether the warning was printed.
pub record Built (F : Type 0) : Type 0 where
  pub value : Json F
  pub warned : Bool

-- `except (ValueError, TypeError)`: the value stays as it was.
unfoldable pub or_warn : {F : Type 0} → Json F → Result (Json F) → Result (Built F)
or_warn resolved (ok v) = ok (record { value = v; warned = false })
or_warn resolved (err value_error) = ok (record { value = resolved; warned = true })
or_warn resolved (err type_error) = ok (record { value = resolved; warned = true })
or_warn resolved (err e) = err e

module _ (fl : Floats) (context : OrderContext) where
  -- The body of the `try`.
  unfoldable pub move_eta : Json fl.Float → Json fl.Float → Result (Json fl.Float)
  move_eta offset resolved = do
    delta ← parse_offset fl.is_true offset
    time ← add_time context.base_time delta
    set_eta (to_iso_z time) resolved

  unfoldable pub apply_eta_offset : Option (Json fl.Float) → Json fl.Float → Result (Built fl.Float)
  apply_eta_offset none resolved = ok (record { value = resolved; warned = false })
  apply_eta_offset (some offset) resolved = do
    mentioned ← mentions_eta resolved
    if mentioned
        then or_warn resolved (move_eta offset resolved)
        else ok (record { value = resolved; warned = false })

  unfoldable pub build_event_value : Json fl.Float → Fields fl.Float → Result (Built fl.Float)
  build_event_value template event = do
    resolved ←
        resolve_dynamic_times context.base_time
          (render_template (as_template_context context) template)
    apply_eta_offset (get eta_offset_key event) resolved
