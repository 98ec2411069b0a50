-- ===== src/Runner/Event/Offset.antt =====
-- What an `etaOffset` does to the value of an event.
use delayed_order_sms_flink.Base.{
  ℕ, ◌*◌, ltb, Option, ◌≤◌, ◌<◌, ◌≡◌, ◌≢◌, refl, sym, ◌∙◌, ap, Bool, true, none, some, [], ◌∷◌,
  ◌++◌, Text, codes, strip_prefix, ok, err, ◌>>=◌, overflow_error, Result-cases, arith, inl, inr,
  false,
}
use delayed_order_sms_flink.Json.{Json, Fields, str, obj, get, is_true}
use delayed_order_sms_flink.Json.Numbers.{Floats}
use delayed_order_sms_flink.Time.Digits.{int_of_digits}
use delayed_order_sms_flink.Time.Clock.{day, max_time, timedelta, add_time}
use delayed_order_sms_flink.Time.Expression.{Sign, plus, minus, TimeMatch, match_time}
use delayed_order_sms_flink.Time.Resolve.{
  amount_or_zero, unit_us, parse_offset, parse_offset_text, offset_value, offset_match, offset_of,
  span, parse_dynamic_time, behind_now, resolve_dynamic_times,
}
use delayed_order_sms_flink.Time.Resolve.Agreement.{shifted, parse_dynamic_time-parse_offset_text}
use delayed_order_sms_flink.Template.{render_template}
use delayed_order_sms_flink.Runner.Names.{OrderContext, as_template_context}
use delayed_order_sms_flink.Runner.Event.{
  eta_offset_key, eta_key, has, mentions_eta, set_eta, or_warn, move_eta, apply_eta_offset,
  build_event_value,
}

-- The time expression that an offset stands for.
abbrev pub expression : Text → Text
expression s = codes "now" ++ behind_now s

parse_offset_text-expression : (s : Text) → parse_offset_text s ≡ parse_offset_text (expression s)
unfolding parse_offset_text strip_prefix
parse_offset_text-expression s = refl

parse_offset-str :
    {F : Type 0} (f : F → Bool) (s : Text) → s ≢ [] → parse_offset f (str s) ≡ parse_offset_text s
unfolding parse_offset offset_value is_true
parse_offset-str f [] h = absurd (h refl)
parse_offset-str f (c ∷ s) h = refl

-- Too many days for a time span.
span_overflow :
    (m : TimeMatch) (n : ℕ)
    → int_of_digits (amount_or_zero m.amount) ≡ ok n
    → 1000000000 * day ≤ n * unit_us m.unit
    → span m ≡ err overflow_error
unfolding span timedelta
span_overflow m n read large =
    rw read (
      let over : ltb (n * unit_us m.unit) (1000000000 * day) ≡ false = ground arith in rw over refl)

offset_of_overflow :
    (o : Option Sign) (m : TimeMatch)
    → o ≢ none
    → span m ≡ err overflow_error
    → offset_of o m ≡ err overflow_error
unfolding offset_of
offset_of_overflow none m signed h = absurd (signed refl)
offset_of_overflow (some plus) m signed h = h
offset_of_overflow (some minus) m signed h = rw h refl

overflowing :
    (s : Text) (m : TimeMatch) (n : ℕ)
    → match_time (expression s) ≡ some m
    → m.sign ≢ none
    → int_of_digits (amount_or_zero m.amount) ≡ ok n
    → 1000000000 * day ≤ n * unit_us m.unit
    → parse_offset_text s ≡ err overflow_error
unfolding parse_offset_text offset_match
overflowing s m n matched signed read large =
    ap offset_match matched ∙ offset_of_overflow m.sign m signed (span_overflow m n read large)

module _ (fl : Floats) (context : OrderContext) (template : Json fl.Float)
    (event fs : Fields fl.Float)
    (resolved : resolve_dynamic_times context.base_time
        (render_template (as_template_context context) template)
      ≡ ok (obj fs))
    (mentioned : has eta_key fs ≡ true) where
  build_of_offset :
      {offset : Json fl.Float}
      → get eta_offset_key event ≡ some offset
      → build_event_value fl context template event
        ≡ or_warn (obj fs) (move_eta fl context offset (obj fs))
  unfolding build_event_value apply_eta_offset mentions_eta
  build_of_offset h = rw (resolved, h, mentioned)

  module _ (s : Text) (given : get eta_offset_key event ≡ some (str s)) (nonempty : s ≢ []) where
    move_eta-shifted :
        move_eta fl context (str s) (obj fs)
        ≡ (do t ← shifted context.base_time (parse_offset_text s); set_eta t (obj fs))
    unfolding move_eta
    move_eta-shifted =
        rw (parse_offset-str fl.is_true s nonempty) (elim (Result-cases (parse_offset_text s)) [
          | inl (d, e) ↦ rw e (elim (Result-cases (add_time context.base_time d)) [
            | inl (t, e') ↦ rw e'
            | inr (x, e') ↦ rw e'
          ])
          | inr (x, e) ↦ rw e
        ])

    -- An offset has the effect that its time expression, which stands behind `now`, would have had
    -- in the place of the delivery time: the resolved expression replaces the delivery time, and an
    -- error that it raises is handled as the two classes that are caught, or is raised.
    pub build_event_value-expression :
        {m : TimeMatch}
        → match_time (expression s) ≡ some m
        → context.base_time < max_time
        → build_event_value fl context template event
          ≡ or_warn
              (obj fs)
              (do t ← parse_dynamic_time (expression s) context.base_time; set_eta t (obj fs))
    build_event_value-expression {m} matched in_range =
        build_of_offset given
        ∙ ap (or_warn (obj fs)) (
            move_eta-shifted
            ∙ ap (λ r. r >>= λ t. set_eta t (obj fs))
                (ap (shifted context.base_time) (parse_offset_text-expression s)
                  ∙ sym (
                      parse_dynamic_time-parse_offset_text (expression s) m context.base_time
                        matched in_range)))

    -- An offset that is no expression changes nothing, and the warning is printed.
    build_event_value_of_no_match :
        match_time (expression s) ≡ none
        → build_event_value fl context template event
          ≡ ok (record { value = obj fs; warned = true })
    unfolding parse_offset_text offset_match or_warn
    build_event_value_of_no_match unmatched =
        build_of_offset given
        ∙ ap (or_warn (obj fs)) (
            move_eta-shifted
            ∙ ap (λ o. shifted context.base_time (offset_match o) >>= λ t. set_eta t (obj fs))
                unmatched)

  -- An offset with a sign, either one, whose amount `int` reads and which comes to 10 ^ 9 days or
  -- more in its unit raises an `OverflowError`, which is not caught.
  pub build_event_value_overflow :
      (s : Text) (m : TimeMatch) (n : ℕ)
      → s ≢ []
      → get eta_offset_key event ≡ some (str s)
      → match_time (expression s) ≡ some m
      → m.sign ≢ none
      → int_of_digits (amount_or_zero m.amount) ≡ ok n
      → 1000000000 * day ≤ n * unit_us m.unit
      → build_event_value fl context template event ≡ err overflow_error
  unfolding or_warn
  build_event_value_overflow s m n nonempty given matched signed read large =
      build_of_offset given
      ∙ ap (or_warn (obj fs)) (
          move_eta-shifted s given nonempty
          ∙ ap (λ r. shifted context.base_time r >>= λ t. set_eta t (obj fs))
              (overflowing s m n matched signed read large))
