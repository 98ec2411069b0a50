-- ===== src/Tests/Events.antt =====
-- The values of events at concrete documents.
use delayed_order_sms_flink.Tests.Orders.{quotients}
use delayed_order_sms_flink.Template.{render_template}
use delayed_order_sms_flink.Runner.Names.{OrderContext, as_template_context}
use delayed_order_sms_flink.Runner.Event.{
  eta_offset_key, eta_key, has, or_warn, set_eta, build_event_value,
}
use delayed_order_sms_flink.Runner.Event.Offset.{
  expression, build_event_value-expression, build_event_value_overflow,
}
use delayed_order_sms_flink.Base.{
  ℕ, ◌+◌, ◌*◌, ◌≡◌, refl, some, Text, codes, text_eq, starts_with, strip_prefix, replace,
  replace_from, ℤ, ok, err, ◌>>=◌, overflow_error, arith,
}
use delayed_order_sms_flink.Json.{Fields, str, obj, end, field, get}
use delayed_order_sms_flink.Time.Digits.{is_decimal, digit_value, decimal, int_of_digits}
use delayed_order_sms_flink.Time.Expression.{
  TimeMatch, minus, minutes, hours, take_sign, span_digits, take_unit, match_time, match_behind_now,
}
use delayed_order_sms_flink.Time.Clock.{second, day, timedelta, add_time, sub_time}
use delayed_order_sms_flink.Time.Calendar.{
  find_month, find_year, date_of, padded, date_text, clock_text, isoformat, to_iso_z,
}
use delayed_order_sms_flink.Time.Resolve.{
  span, resolve_match, dynamic_time, parse_dynamic_time, resolve_dynamic_times,
}
use delayed_order_sms_flink.Template.{render_template_value}

abbrev evening : ℕ
evening = 739747 * day + 70200 * second

abbrev context : OrderContext
context = record {
  order_index = 1;
  order_id = codes "ord-delayed-0001";
  customer_id = codes "customer-0001";
  store_id = codes "store-0001";
  base_time = evening;
}

abbrev fields : Fields (ℤ × ℕ)
fields = field (codes "orderId") (str (codes "{{orderId}}")) (field eta_key (str (codes "now")) end)

abbrev resolved_fields : Fields (ℤ × ℕ)
resolved_fields =
    field (codes "orderId") (str (codes "ord-delayed-0001"))
      (field eta_key (str (codes "2026-05-12T19:30:00Z")) end)

fields-resolved :
    resolve_dynamic_times context.base_time
      (render_template (as_template_context context) (obj fields))
    ≡ ok (obj resolved_fields)
unfolding resolve_dynamic_times parse_dynamic_time dynamic_time resolve_match span int_of_digits
    digit_value decimal timedelta sub_time add_time match_time match_behind_now take_sign
    span_digits take_unit strip_prefix is_decimal to_iso_z isoformat date_text clock_text date_of
    find_year find_month padded replace replace_from starts_with render_template
    render_template_value as_template_context
fields-resolved = refl

abbrev with_offset : Text → Fields (ℤ × ℕ)
with_offset s = field eta_offset_key (str s) end

abbrev ten_minutes_before : TimeMatch
ten_minutes_before = record { sign = some minus; amount = some (codes "10"); unit = some minutes }

ten_minutes-matched : match_time (expression (codes "-10m")) ≡ some ten_minutes_before
unfolding match_time match_behind_now take_sign span_digits take_unit strip_prefix is_decimal
ten_minutes-matched = refl

build_event_value-expression_example :
    build_event_value quotients context (obj fields) (with_offset (codes "-10m"))
    ≡ or_warn (obj resolved_fields) (do
      t ← parse_dynamic_time (expression (codes "-10m")) evening
      set_eta t (obj resolved_fields))
unfolding has get text_eq
build_event_value-expression_example =
    build_event_value-expression quotients context (obj fields) (with_offset (codes "-10m"))
      resolved_fields fields-resolved refl (codes "-10m") refl (λ e. cc) ten_minutes-matched
      (omega arith)

-- 25 * 10 ^ 9 hours
abbrev many_hours : TimeMatch
many_hours = record { sign = some minus; amount = some (codes "25000000000"); unit = some hours }

many_hours-matched : match_time (expression (codes "-25000000000h")) ≡ some many_hours
unfolding match_time match_behind_now strip_prefix take_sign span_digits take_unit is_decimal
many_hours-matched = refl

many_hours-read : int_of_digits (codes "25000000000") ≡ ok 25000000000
unfolding int_of_digits decimal is_decimal digit_value
many_hours-read = refl

build_event_value_overflow_example :
    build_event_value quotients context (obj fields) (with_offset (codes "-25000000000h"))
    ≡ err overflow_error
unfolding has get text_eq
build_event_value_overflow_example =
    build_event_value_overflow quotients context (obj fields) (with_offset (codes "-25000000000h"))
      resolved_fields fields-resolved refl (codes "-25000000000h") many_hours 25000000000 (λ e. cc)
      refl many_hours-matched (λ e. cc) many_hours-read (omega arith)
