-- ===== src/Flink/Job/Addressed.antt =====
-- The state at a key and the SMS that is put out there are of the order with this id.
use delayed_order_sms_flink.Base.{
  some-injective, ◌≡◌, refl, subst, true, Option, none, some, List, [], All, Text, codes, ◌++◌, ℤ,
  ltb_ℤ, arith, Bool-cases, Option-cases, inl, inr, false,
}
use delayed_order_sms_flink.Flink.TimerService.{TimerService}
use delayed_order_sms_flink.Flink.Model.{
  OrderState, OrderDelayState, is_terminal, to_epoch_milli, from_order_state, update_from,
  delay_sms,
}
use delayed_order_sms_flink.Flink.Process.{
  process_stored, Output, sms, dead_letter, counted, Keyed, emit_delay_sms, delete_registered_timer,
  register_or_update_timer, expected_milli, deliver_or_wait, process_current, process_valid,
  process_element, is_valid, is_stale_update, timer_current, on_timer, fire,
}

-- The id of the command for an order
abbrev pub command_id_of : Text → Text
command_id_of id = id ++ codes ":DELAY_SMS"

abbrev pub SmsFor : Text → Output → Type 0
SmsFor key (sms c) = (c.order_id ≡ some key) × (c.command_id ≡ command_id_of key)
SmsFor key (dead_letter i s) = Unit
SmsFor key (counted m) = Unit

abbrev pub IsOfOrder : Text → Option OrderDelayState → Type 0
IsOfOrder key none = Unit
IsOfOrder key (some s) = s.order_id ≡ some key

module _ ⦃T : TimerService⦄ where
  -- What a handler gives at a key is of this order.
  abbrev pub IsAddressed : Text → Keyed × List Output → Type 0
  IsAddressed key (k, out) = IsOfOrder key k.state × All (SmsFor key) out

  IsAddressed-emit :
      (key : Text) (c : OrderDelayState) (time : ℤ) (ts : T.Timers)
      → c.order_id ≡ some key
      → IsAddressed key (emit_delay_sms c time ts)
  unfolding emit_delay_sms delay_sms
  IsAddressed-emit key c time ts h = (h, (tt, (tt, ((h, rw h refl), tt))))

  IsOfOrder-deleted :
      (key : Text) (c : OrderDelayState) (ts : T.Timers)
      → c.order_id ≡ some key
      → (delete_registered_timer c ts).0.order_id ≡ some key
  unfolding delete_registered_timer
  IsOfOrder-deleted key c ts h = ground arith

  IsOfOrder-registered :
      (key : Text) (c : OrderDelayState) (time : ℤ) (ts : T.Timers)
      → c.order_id ≡ some key
      → (register_or_update_timer c time ts).0.order_id ≡ some key
  unfolding register_or_update_timer
  IsOfOrder-registered key c time ts h = ground arith

  IsAddressed-deliver_or_wait :
      (key : Text) (c : OrderDelayState) (expected now later : ℤ) (ts : T.Timers)
      → c.order_id ≡ some key
      → IsAddressed key (deliver_or_wait c expected now later ts)
  unfolding deliver_or_wait
  IsAddressed-deliver_or_wait key c expected now later ts h =
      elim (Bool-cases (ltb_ℤ now expected)) [
        | inl e ↦ rw e (IsOfOrder-registered key c expected ts h, tt)
        | inr e ↦ rw e (
            IsAddressed-emit key (delete_registered_timer c ts).0 later
              (delete_registered_timer c ts).1 (IsOfOrder-deleted key c ts h))
      ]

  IsAddressed-process_current :
      (key : Text) (c : OrderDelayState) (now later : ℤ) (ts : T.Timers) {r : Keyed × List Output}
      → process_current c now later ts ≡ some r
      → c.order_id ≡ some key
      → IsAddressed key r
  unfolding process_current
  IsAddressed-process_current key c now later ts {r} h of_order =
      elim (Bool-cases (is_terminal c)) [
        | inl e ↦
            subst (IsAddressed key) (some-injective (rw e at h))
              (IsOfOrder-deleted key c ts of_order, tt)
        | inr e ↦ elim (Bool-cases c.delay_sms_emitted) [
          | inl e' ↦ subst (IsAddressed key) (some-injective (rw (e, e') at h)) (of_order, tt)
          | inr e' ↦ elim (Option-cases (expected_milli c)) [
            | inl e2 ↦ absurd (ground arith)
            | inr (x, e2) ↦
                subst (IsAddressed key) (some-injective (rw (e, e', e2) at h))
                  (IsAddressed-deliver_or_wait key c x now later ts of_order)
          ]
        ]
      ]

  IsAddressed-process_valid :
      (key : Text) (incoming : OrderState) (now later : ℤ) (k : Keyed) {r : Keyed × List Output}
      → process_valid incoming now later k ≡ some r
      → incoming.order_id ≡ some key
      → IsOfOrder key k.state
      → IsAddressed key r
  unfolding process_valid process_stored
  IsAddressed-process_valid key incoming now later k {r} h id held = elim (Option-cases k.state) [
    | inl e ↦
        IsAddressed-process_current key (from_order_state incoming) now later k.timers (rw e at h)
          id
    | inr (c, e) ↦ elim (Option-cases (is_stale_update incoming c)) [
      | inl e' ↦ absurd (ground arith)
      | inr (true, e') ↦
          subst (IsAddressed key) (some-injective (rw (e, e') at h))
            (subst (IsOfOrder key) e held, (tt, tt))
      | inr (false, e') ↦
          IsAddressed-process_current key (update_from incoming c) now later k.timers
            (rw (e, e') at h) id
    ]
  ]

  -- An update without an id is not valid.
  pub IsAddressed-process_element :
      (key : Text) (incoming : OrderState) (now later : ℤ) (k : Keyed) {r : Keyed × List Output}
      → process_element incoming now later k ≡ some r
      → (is_valid incoming ≡ true → incoming.order_id ≡ some key)
      → IsOfOrder key k.state
      → IsAddressed key r
  unfolding process_element
  IsAddressed-process_element key incoming now later k {r} h id held =
      elim (Bool-cases (is_valid incoming)) [
        | inl e ↦ IsAddressed-process_valid key incoming now later k (rw e at h) (id e) held
        | inr e ↦ subst (IsAddressed key) (some-injective (rw e at h)) (held, (tt, (tt, tt)))
      ]

  IsAddressed-timer_current :
      (key : Text) (c : OrderDelayState) (timestamp now : ℤ) (k : Keyed) {r : Keyed × List Output}
      → timer_current c timestamp now k ≡ some r
      → c.order_id ≡ some key
      → IsOfOrder key k.state
      → IsAddressed key r
  unfolding timer_current
  IsAddressed-timer_current key c timestamp now k {r} h id held =
      let kept : some (k, []) ≡ some r → IsAddressed key r =
        λ e. subst (IsAddressed key) (some-injective e) (held, tt) in
      elim (Bool-cases (is_terminal c)) [
        | inl e ↦ kept (rw e at h)
        | inr e ↦ elim (Bool-cases c.delay_sms_emitted) [
          | inl e' ↦ kept (rw (e, e') at h)
          | inr e' ↦ elim (Option-cases c.expected_delivery_time) [
            | inl e2 ↦ kept (rw (e, e', e2) at h)
            | inr (t, e2) ↦ elim (Option-cases (to_epoch_milli t)) [
              | inl e3 ↦ absurd (ground arith)
              | inr (expected, e3) ↦ elim (Bool-cases (ltb_ℤ timestamp expected)) [
                | inl e4 ↦ kept (rw (e, e', e2, e3, e4) at h)
                | inr e4 ↦
                    subst (IsAddressed key) (some-injective (rw (e, e', e2, e3, e4) at h))
                      (IsAddressed-emit key c now k.timers id)
              ]
            ]
          ]
        ]
      ]

  pub IsAddressed-fire :
      (key : Text) (timestamp now : ℤ) (k : Keyed) {r : Keyed × List Output}
      → fire timestamp now k ≡ some r
      → IsOfOrder key k.state
      → IsAddressed key r
  unfolding fire on_timer
  IsAddressed-fire key timestamp now k {r} h held = elim (Option-cases k.state) [
    | inl e ↦ subst (IsAddressed key) (some-injective (rw e at h)) (held, tt)
    | inr (c, e) ↦
        IsAddressed-timer_current key c timestamp now
          (record { state = k.state; timers = T.delete timestamp k.timers }) (rw e at h)
          (subst (IsOfOrder key) e held) held
  ]
