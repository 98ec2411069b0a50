-- ===== src/Tests.antt =====
-- Runs of the model at concrete data, and the theorems at inputs that meet their hypotheses.
mod Rendering
mod Orders
mod Events
mod Runs
mod Threads
mod Simulation
mod ListTimers
mod Machine
mod EndToEnd
mod Topics
mod Deliveries
mod Verdicts
use delayed_order_sms_flink.Base.{
  ℕ, zero, suc, ◌+◌, ◌*◌, ◌/◌, ◌^◌, ◌≤◌, ◌<◌, ◌≡◌, ◌≢◌, refl, Bool, true, false, Option, none, some,
  List, [], ◌∷◌, ◌++◌, map, length, All, Text, codes, text_eq, starts_with, strip_prefix, replace,
  replace_from, ltb, if◌then◌else◌, ℤ, pos, negsuc, pos_part, neg_part, neg, ltb_ℤ, ◌-ℤ◌, ◌*ℤ◌,
  ◌+ℤ◌, Result, ok, err, ◌>>=◌, Error, ◌==◌, Bool-cases, inl, inr, value_error, zero_division_error,
  overflow_error, arith,
}
use delayed_order_sms_flink.Json.{
  Json, Items, Fields, null, bool, int, float, str, arr, obj, nil, cons, end, field, get, put,
  is_true,
}
use delayed_order_sms_flink.Json.Numbers.{Floats}
use delayed_order_sms_flink.Json.Dumps.{show_fuel, show}
use delayed_order_sms_flink.Time.Digits.{
  AllDecimal, is_decimal, digit_value, decimal, int_of_digits,
}
use delayed_order_sms_flink.Time.Expression.{
  TimeMatch, plus, minus, seconds, milliseconds, days, take_sign, span_digits, at_end, take_unit,
  match_time, match_behind_now,
}
use delayed_order_sms_flink.Time.Expression.Grammar.{
  IsTail, nothing, line_break, match_time-spelling,
}
use delayed_order_sms_flink.Time.Expression.Spells.{Spells, match_time-Spells}
use delayed_order_sms_flink.Time.Clock.{second, day, timedelta, negate, add_time, sub_time}
use delayed_order_sms_flink.Time.Calendar.{
  find_month, find_year, date_of, padded, date_text, clock_text, isoformat, to_iso_z,
}
use delayed_order_sms_flink.Time.Calendar.RoundTrip.{read_iso, read_iso-to_iso_z}
use delayed_order_sms_flink.Time.Resolve.{
  span, resolve_match, dynamic_time, parse_dynamic_time, offset_of, offset_match, parse_offset_text,
  resolve_dynamic_times,
}
use delayed_order_sms_flink.Time.Resolve.Agreement.{shifted, parse_dynamic_time-parse_offset_text}
use delayed_order_sms_flink.Time.Resolve.Shape.{Resolves, resolve_dynamic_times_idem}
use delayed_order_sms_flink.Template.{render_template_value}
use delayed_order_sms_flink.Template.Segments.{
  plain, variable, source, lookup, value_in, render_template_value-source,
}
use delayed_order_sms_flink.Runner.Names.{
  dash_runs, strip_front, strip_dashes, normalize_name, zero_filled, create_order_context,
  create_order_contexts, contexts_from,
}
use delayed_order_sms_flink.Runner.Names.Unique.{
  index_of_id, indices_from, index-create_order_contexts,
}
use delayed_order_sms_flink.Runner.Assign.{distribute}
use delayed_order_sms_flink.Runner.Assign.Quota.{DividesExactly, weights, total}
use delayed_order_sms_flink.Runner.Assign.Fair.{IsFair, distribute-IsFair}

-- 2026-05-12, half past seven in the evening
abbrev evening : ℕ
evening = 739747 * day + 70200 * second

iso_test : to_iso_z (evening + 2500) ≡ codes "2026-05-12T19:30:00.002500Z"
unfolding to_iso_z isoformat date_text clock_text date_of find_year find_month padded replace
    replace_from starts_with strip_prefix
iso_test = refl

minus_ten : TimeMatch
minus_ten = record { sign = some minus; amount = some (codes "10"); unit = some milliseconds }

match_test : match_time (codes "now-10ms") ≡ some minus_ten
unfolding minus_ten match_time match_behind_now take_sign span_digits take_unit strip_prefix
    is_decimal
match_test = refl

no_match_test : match_time (codes "now-10x") ≡ none
unfolding match_time match_behind_now take_sign span_digits take_unit strip_prefix is_decimal
no_match_test = refl

-- `int` reads the digits of other scripts.
arabic_test : int_of_digits (0x661 ∷ 0x665 ∷ []) ≡ ok 15
unfolding int_of_digits digit_value
arabic_test = refl

match_time-spelling_example :
    match_time (codes "now" ++ (codes "-10ms" ++ codes "")) ≡ some minus_ten
unfolding minus_ten is_decimal
match_time-spelling_example =
    match_time-spelling minus_ten {t = []} (λ e. cc, (refl, (refl, tt))) nothing

match_time-Spells_example : Spells (codes "now-10ms") minus_ten
match_time-Spells_example = match_time-Spells (codes "now-10ms") minus_ten match_test

read_iso-to_iso_z_example : read_iso (to_iso_z evening) ≡ some evening
read_iso-to_iso_z_example = read_iso-to_iso_z evening (omega arith)

parse_dynamic_time-parse_offset_text_example :
    parse_dynamic_time (codes "now-10ms") evening
    ≡ shifted evening (parse_offset_text (codes "now-10ms"))
parse_dynamic_time-parse_offset_text_example =
    parse_dynamic_time-parse_offset_text (codes "now-10ms") minus_ten evening match_test
      (omega arith)

snapshot : Json ℕ
snapshot = obj (field (codes "at") (str (codes "now-10ms")) (field (codes "n") (int (pos 1)) end))

resolved_snapshot : Json ℕ
resolved_snapshot = obj (
    field (codes "at") (str (codes "2026-05-12T19:29:59.990000Z"))
      (field (codes "n") (int (pos 1)) end))

resolve_test : resolve_dynamic_times evening snapshot ≡ ok resolved_snapshot
unfolding snapshot resolved_snapshot resolve_dynamic_times parse_dynamic_time dynamic_time
    resolve_match span int_of_digits digit_value decimal timedelta sub_time add_time match_time
    match_behind_now take_sign span_digits take_unit strip_prefix is_decimal to_iso_z isoformat
    date_text clock_text date_of find_year find_month padded replace replace_from starts_with
resolve_test = refl

resolve_dynamic_times_idem_example :
    Resolves evening snapshot resolved_snapshot
    × (resolve_dynamic_times 0 resolved_snapshot ≡ ok resolved_snapshot)
resolve_dynamic_times_idem_example = resolve_dynamic_times_idem evening 0 snapshot resolve_test
