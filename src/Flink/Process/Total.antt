-- ===== src/Flink/Process/Total.antt =====
-- When the handler of an update throws.
use delayed_order_sms_flink.Base.{
  ◌≡◌, ◌≢◌, ◌⊎◌, true, false, Option-cases, Option, none, some, ℤ, arith, Bool-cases, inl, inr,
}
use delayed_order_sms_flink.Flink.TimerService.{TimerService}
use delayed_order_sms_flink.Flink.Model.{
  OrderState, OrderDelayState, from_order_state, update_from, to_epoch_milli,
}
use delayed_order_sms_flink.Flink.Process.{
  process_stored, Keyed, expected_milli, process_current, process_valid, process_element, is_valid,
  is_before, is_stale_update, present,
}

-- The milliseconds of the expected time, which the handlers read.
abbrev pub milli_of : OrderState → Option ℤ
milli_of o = elim o.expected_delivery_time [ none ↦ none | some t ↦ to_epoch_milli t ]

module _ ⦃T : TimerService⦄ where
  process_current-ne-none :
      (c : OrderDelayState) (now later : ℤ) (ts : T.Timers) (ms : ℤ)
      → expected_milli c ≡ some ms
      → process_current c now later ts ≢ none
  unfolding process_current
  process_current-ne-none c now later ts ms h e = ground arith

  is_before-ne-none : (a b : Option ℤ) → present a ≡ true → is_before a b ≢ none
  unfolding is_before
  is_before-ne-none (some t) (some u) h e = ground arith
  is_before-ne-none (some t) none h e = ground arith
  is_before-ne-none none b h e = ground arith

  valid-times :
      (o : OrderState)
      → is_valid o ≡ true
      → (present o.expected_delivery_time ≡ true) × (present o.last_updated_at ≡ true)
  unfolding is_valid
  valid-times o h = (ground arith, ground arith)

  process_valid-ne-none :
      (o : OrderState) (now later : ℤ) (state : Option OrderDelayState) (timers : T.Timers) (ms : ℤ)
      → is_valid o ≡ true
      → milli_of o ≡ some ms
      → process_valid o now later (record { state = state; timers = timers }) ≢ none
  unfolding process_valid process_stored is_stale_update
  process_valid-ne-none o now later none timers ms valid h e =
      process_current-ne-none (from_order_state o) now later timers ms h e
  process_valid-ne-none o now later (some c) timers ms valid h e =
      elim (Option-cases (is_before o.last_updated_at c.last_updated_at)) [
        | inl thrown ↦
            is_before-ne-none o.last_updated_at c.last_updated_at (valid-times o valid).1 thrown
        | inr (true, e') ↦ ground arith
        | inr (false, e') ↦
            process_current-ne-none (update_from o c) now later timers ms h (rw e' at e)
      ]

  -- `processElement` returns for every update, at every state: for one that is not valid, whichever
  -- field is missing, and for a valid one whose expected time of delivery is a number of
  -- milliseconds that a `long` holds.
  pub process_element-ne-none :
      (o : OrderState) (now later : ℤ) (k : Keyed)
      → (is_valid o ≡ false) ⊎ ((ms : ℤ) × (milli_of o ≡ some ms))
      → process_element o now later k ≢ none
  unfolding process_element
  process_element-ne-none o now later k h e = elim (Bool-cases (is_valid o)) [
    | inl valid ↦ elim h [
      | inl invalid ↦ ground arith
      | inr (ms, fits) ↦
          process_valid-ne-none o now later k.state k.timers ms valid fits (rw valid at e)
    ]
    | inr invalid ↦ ground arith
  ]
