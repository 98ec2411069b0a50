-- ===== src/Flink/Process/Stored.antt =====
-- A handler stores the update that it handles.
use delayed_order_sms_flink.Base.{
  some-injective, ◌≡◌, refl, subst, sym, ◌∙◌, Option, none, some, List, [], ℤ, ltb_ℤ, int_eq, arith,
  Bool-cases, Option-cases, inl, inr,
}
use delayed_order_sms_flink.Flink.TimerService.{TimerService}
use delayed_order_sms_flink.Flink.Model.{OrderState, OrderDelayState, is_terminal}
use delayed_order_sms_flink.Flink.Process.{
  Output, Keyed, emit_delay_sms, delete_registered_timer, register_or_update_timer, expected_milli,
  deliver_or_wait, process_current,
}

-- The update that the state was made of.
abbrev pub view : OrderDelayState → OrderState
view c = record {
  order_id = c.order_id;
  customer_id = c.customer_id;
  store_id = c.store_id;
  status = c.current_status;
  expected_delivery_time = c.expected_delivery_time;
  last_updated_at = c.last_updated_at;
}

-- The state holds the update.
abbrev pub Holds : OrderState → Option OrderDelayState → Type 0
Holds o none = ⊥
Holds o (some c) = view c ≡ o

module _ ⦃T : TimerService⦄ where
  Holds-delete :
      (c : OrderDelayState) (ts : T.Timers) → view (delete_registered_timer c ts).0 ≡ view c
  unfolding delete_registered_timer
  Holds-delete c ts = elim (Option-cases c.registered_timer_time) [
    | inl e ↦ rw e refl
    | inr (t, e) ↦ rw e refl
  ]

  Holds-register :
      (c : OrderDelayState) (expected : ℤ) (ts : T.Timers)
      → view (register_or_update_timer c expected ts).0 ≡ view c
  unfolding register_or_update_timer
  Holds-register c expected ts = elim (Option-cases c.registered_timer_time) [
    | inl e ↦ rw e refl
    | inr (t, e) ↦ elim (Bool-cases (int_eq t expected)) [
      | inl e' ↦ rw (e, e') refl
      | inr e' ↦ rw (e, e') refl
    ]
  ]

  Holds-deliver_or_wait :
      (c : OrderDelayState) (expected now later : ℤ) (ts : T.Timers)
      → Holds (view c) (deliver_or_wait c expected now later ts).0.state
  unfolding deliver_or_wait emit_delay_sms
  Holds-deliver_or_wait c expected now later ts = elim (Bool-cases (ltb_ℤ now expected)) [
    | inl e ↦ rw e (Holds-register c expected ts)
    | inr e ↦ rw e (Holds-delete c ts)
  ]

  pub Holds-process_current :
      (c : OrderDelayState) (now later : ℤ) (ts : T.Timers) {r : Keyed × List Output}
      → process_current c now later ts ≡ some r
      → Holds (view c) r.0.state
  unfolding process_current
  Holds-process_current c now later ts {r} h =
      let held : Keyed × List Output → Type 0 = λ r. Holds (view c) r.0.state in
      elim (Bool-cases (is_terminal c)) [
        | inl e ↦ subst held (some-injective (rw e at h)) (Holds-delete c ts)
        | inr e ↦ elim (Bool-cases c.delay_sms_emitted) [
          | inl e' ↦
              let eq : process_current c now later ts
                  ≡ some (record { state = some c; timers = ts }, []) =
                rw (e, e') refl in
              subst held (some-injective (sym eq ∙ h)) refl
          | inr e' ↦ elim (Option-cases (expected_milli c)) [
            | inl e2 ↦ absurd (ground arith)
            | inr (x, e2) ↦
                subst held (some-injective (rw (e, e', e2) at h))
                  (Holds-deliver_or_wait c x now later ts)
          ]
        ]
      ]
