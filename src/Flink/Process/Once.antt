-- ===== src/Flink/Process/Once.antt =====
-- An order gets one SMS at most.
use delayed_order_sms_flink.Base.{
  some-injective, ℕ, ◌+◌, ◌≤◌, ◌≡◌, refl, subst, Bool, true, false, none, some, List, [], ◌∷◌, ◌++◌,
  ℤ, ltb_ℤ, arith, Bool-cases, Option-cases, inl, inr,
}
use delayed_order_sms_flink.Flink.TimerService.{TimerService}
use delayed_order_sms_flink.Flink.Model.{
  OrderState, OrderDelayState, is_terminal, to_epoch_milli, from_order_state, update_from,
}
use delayed_order_sms_flink.Flink.Process.{
  process_stored, Output, stale_updates_ignored, sms, dead_letter, counted, Keyed, emit_delay_sms,
  delete_registered_timer, register_or_update_timer, expected_milli, deliver_or_wait,
  process_current, process_valid, process_element, is_valid, is_stale_update, timer_current,
  on_timer, fire, History, untouched, element, fired,
}

abbrev is_sms : Output → ℕ
is_sms (sms c) = 1
is_sms (dead_letter i s) = 0
is_sms (counted m) = 0

unfoldable pub sms_count : List Output → ℕ
sms_count [] = 0
sms_count (o ∷ os) = is_sms o + sms_count os

pub sms_count-append : (xs ys : List Output) → sms_count (xs ++ ys) ≡ sms_count xs + sms_count ys
unfolding sms_count
sms_count-append [] ys = omega arith
sms_count-append (x ∷ xs) ys = omega (arith, sms_count-append xs ys)

abbrev flag : Bool → ℕ
flag true = 1
flag false = 0

module _ ⦃T : TimerService⦄ where
  -- 1 where the state says that the SMS was sent.
  abbrev pub recorded : Keyed → ℕ
  recorded k = elim k.state [ none ↦ 0 | some s ↦ flag s.delay_sms_emitted ]

  -- A handler puts out the SMS that it records.
  abbrev CountsSms : ℕ → Keyed × List Output → Type 0
  CountsSms n (k, out) = n + sms_count out ≡ recorded k

  CountsSms-deliver_or_wait :
      (c : OrderDelayState) (expected now later : ℤ) (ts : T.Timers)
      → c.delay_sms_emitted ≡ false
      → CountsSms 0 (deliver_or_wait c expected now later ts)
  unfolding deliver_or_wait delete_registered_timer register_or_update_timer emit_delay_sms
      sms_count
  CountsSms-deliver_or_wait c expected now later ts h = ground arith

  CountsSms-deleted :
      (c : OrderDelayState) (ts : T.Timers)
      → CountsSms (flag c.delay_sms_emitted) (
        record {
          state = some (delete_registered_timer c ts).0;
          timers = (delete_registered_timer c ts).1;
        },
        [],
      )
  unfolding delete_registered_timer sms_count
  CountsSms-deleted c ts = ground arith

  CountsSms-process_current :
      (c : OrderDelayState) (now later : ℤ) (ts : T.Timers) {r : Keyed × List Output}
      → process_current c now later ts ≡ some r
      → CountsSms (flag c.delay_sms_emitted) r
  unfolding process_current delete_registered_timer sms_count
  CountsSms-process_current c now later ts {r} h = elim (Bool-cases (is_terminal c)) [
    | inl e ↦
        subst (CountsSms (flag c.delay_sms_emitted)) (some-injective (rw e at h))
          (CountsSms-deleted c ts)
    | inr e ↦ elim (Bool-cases c.delay_sms_emitted) [
      | inl e' ↦
          subst (CountsSms (flag c.delay_sms_emitted)) (some-injective (rw (e, e') at h))
            (ground arith)
      | inr e' ↦ elim (Option-cases (expected_milli c)) [
        | inl e'' ↦ absurd (ground arith)
        | inr (x, e'') ↦ rw e' (
            subst (CountsSms 0) (some-injective (rw (e, e', e'') at h))
              (CountsSms-deliver_or_wait c x now later ts e'))
      ]
    ]
  ]

  -- What puts out no SMS and keeps the state.
  CountsSms-quiet : (k : Keyed) → CountsSms (recorded k) (k, counted stale_updates_ignored ∷ [])
  unfolding sms_count
  CountsSms-quiet k = omega arith

  CountsSms-process_valid :
      (incoming : OrderState) (now later : ℤ) (k : Keyed) {r : Keyed × List Output}
      → process_valid incoming now later k ≡ some r
      → CountsSms (recorded k) r
  unfolding process_valid process_stored
  CountsSms-process_valid incoming now later k {r} h = elim (Option-cases k.state) [
    | inl e ↦
        rw e (CountsSms-process_current (from_order_state incoming) now later k.timers (rw e at h))
    | inr (c, e) ↦ elim (Option-cases (is_stale_update incoming c)) [
      | inl e' ↦ absurd (ground arith)
      | inr (true, e') ↦ rw e (
          subst (CountsSms (flag c.delay_sms_emitted)) (some-injective (rw (e, e') at h))
            (CountsSms-quiet (record { state = some c; timers = k.timers })))
      | inr (false, e') ↦
          rw e (
            CountsSms-process_current (update_from incoming c) now later k.timers (rw (e, e') at h))
    ]
  ]

  pub CountsSms-process_element :
      (incoming : OrderState) (now later : ℤ) (k : Keyed) {r : Keyed × List Output}
      → process_element incoming now later k ≡ some r
      → CountsSms (recorded k) r
  unfolding process_element sms_count
  CountsSms-process_element incoming now later k {r} h = elim (Bool-cases (is_valid incoming)) [
    | inl e ↦ CountsSms-process_valid incoming now later k (rw e at h)
    | inr e ↦ subst (CountsSms (recorded k)) (some-injective (rw e at h)) (omega arith)
  ]

  CountsSms-emit :
      (c : OrderDelayState) (now : ℤ) (ts : T.Timers) → CountsSms 0 (emit_delay_sms c now ts)
  unfolding emit_delay_sms sms_count
  CountsSms-emit c now ts = omega arith

  CountsSms-timer_current :
      (c : OrderDelayState) (timestamp now : ℤ) (k : Keyed) {r : Keyed × List Output}
      → k.state ≡ some c
      → timer_current c timestamp now k ≡ some r
      → CountsSms (flag c.delay_sms_emitted) r
  unfolding timer_current sms_count
  CountsSms-timer_current c timestamp now k {r} at_c h =
      let quiet : CountsSms (flag c.delay_sms_emitted) (k, []) = rw at_c (omega arith) in
      let kept : some (k, []) ≡ some r → CountsSms (flag c.delay_sms_emitted) r =
        λ e. subst (CountsSms (flag c.delay_sms_emitted)) (some-injective e) quiet in
      elim (Bool-cases (is_terminal c)) [
        | inl e ↦ kept (rw e at h)
        | inr e ↦ elim (Bool-cases c.delay_sms_emitted) [
          | inl e' ↦ kept (rw (e, e') at h)
          | inr e' ↦ elim (Option-cases c.expected_delivery_time) [
            | inl e2 ↦ kept (rw (e, e', e2) at h)
            | inr (t, e2) ↦ elim (Option-cases (to_epoch_milli t)) [
              | inl e3 ↦ absurd (ground arith)
              | inr (expected, e3) ↦ elim (Bool-cases (ltb_ℤ timestamp expected)) [
                | inl e4 ↦ kept (rw (e, e', e2, e3, e4) at h)
                | inr e4 ↦ rw e' (
                    subst (CountsSms 0) (some-injective (rw (e, e', e2, e3, e4) at h))
                      (CountsSms-emit c now k.timers))
              ]
            ]
          ]
        ]
      ]

  pub CountsSms-on_timer :
      (timestamp now : ℤ) (k : Keyed) {r : Keyed × List Output}
      → on_timer timestamp now k ≡ some r
      → CountsSms (recorded k) r
  unfolding on_timer sms_count
  CountsSms-on_timer timestamp now k {r} h = elim (Option-cases k.state) [
    | inl e ↦ rw e (subst (CountsSms 0) (some-injective (rw e at h)) (omega arith))
    | inr (c, e) ↦ rw e (
        CountsSms-timer_current c timestamp now (record { state = some c; timers = k.timers }) refl
          (rw e at h))
  ]

  pub recorded-le : (k : Keyed) → recorded k ≤ 1
  recorded-le k = elim (Option-cases k.state) [
    | inl e ↦ rw e (omega arith)
    | inr (c, e) ↦ rw e (elim (Bool-cases c.delay_sms_emitted) [
      | inl e' ↦ rw e' (omega arith)
      | inr e' ↦ rw e' (omega arith)
    ])
  ]

  sms_count-recorded :
      {ins : List OrderState} {outs : List Output} {k : Keyed}
      → History ins outs k
      → sms_count outs ≡ recorded k
  unfolding sms_count fire
  sms_count-recorded untouched = refl
  sms_count-recorded (element {outs = outs} {k = k} incoming now later k' out h e) = omega (
    arith,
    sms_count-append outs out,
    sms_count-recorded h,
    CountsSms-process_element incoming now later k e,
  )
  sms_count-recorded (fired {outs = outs} {k = k} timestamp now k' out h due e) =
      omega (
        arith,
        sms_count-append outs out,
        sms_count-recorded h,
        CountsSms-on_timer timestamp now _ e,
      )

  -- Whatever updates arrive at an order and whatever timers fire, in any order and at any times, with
  -- duplicates and late updates among them, one SMS at most is put out, and it is put out exactly if
  -- the state says so. The state does not expire.
  pub sms_count-History :
      {ins : List OrderState} {outs : List Output} {k : Keyed}
      → History ins outs k
      → (sms_count outs ≤ 1) × (sms_count outs ≡ recorded k)
  sms_count-History {k = k} h =
      (omega (arith, sms_count-recorded h, recorded-le k), sms_count-recorded h)
