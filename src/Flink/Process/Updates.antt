-- ===== src/Flink/Process/Updates.antt =====
-- The timer of an order behind an update.
use delayed_order_sms_flink.Base.{
  some-injective, ◌≡◌, refl, ap, subst, sym, ◌∙◌, true, false, Option, none, some, List, [], ◌∷◌, ℤ,
  ltb_ℤ, int_eq, int_eq-eq, arith, Bool-cases, Option-cases, inl, inr, ◌⊎◌,
}
use delayed_order_sms_flink.Flink.TimerService.{TimerService}
use delayed_order_sms_flink.Flink.Model.{
  OrderState, OrderDelayState, is_terminal, from_order_state, update_from,
}
use delayed_order_sms_flink.Flink.Process.{
  process_stored, Output, stale_updates_ignored, counted, Keyed, emit_delay_sms,
  delete_registered_timer, register_or_update_timer, expected_milli, deliver_or_wait,
  process_current, process_valid, process_element, is_valid, is_stale_update,
}

module _ ⦃T : TimerService⦄ where
  abbrev pub NoTimer : T.Timers → Type 0
  NoTimer ts = (t : ℤ) → T.has t ts ≡ false

  -- There is a timer for this time and for no other.
  abbrev pub OneTimer : ℤ → T.Timers → Type 0
  OneTimer time ts = (t : ℤ) → T.has t ts ≡ int_eq time t

  pub NoTimer-delete : (time : ℤ) (ts : T.Timers) → OneTimer time ts → NoTimer (T.delete time ts)
  NoTimer-delete time ts own t = rw (T.has-delete t time ts, own t) (ground arith)

  OneTimer-register : (time : ℤ) (ts : T.Timers) → NoTimer ts → OneTimer time (T.register time ts)
  OneTimer-register time ts none_left t = rw (T.has-register t time ts, none_left t) (ground arith)

  -- An order that is closed or has its SMS has no timer; any other order has one, at its expected
  -- time of delivery.
  abbrev pub HasItsTimer : Option OrderDelayState → T.Timers → Type 0
  HasItsTimer none ts = NoTimer ts
  HasItsTimer (some c) ts =
      (c.registered_timer_time ≡ none)
        × (NoTimer ts)
        × ((is_terminal c ≡ true) ⊎ (c.delay_sms_emitted ≡ true))
      ⊎ (expected : ℤ) × (c.registered_timer_time ≡ some expected)
        × (OneTimer expected ts)
        × (expected_milli c ≡ some expected)
        × (is_terminal c ≡ false)
        × (c.delay_sms_emitted ≡ false)

  -- What is known of the timer before an update is stored.
  abbrev Pending : OrderDelayState → T.Timers → Type 0
  Pending c ts =
      ((c.registered_timer_time ≡ none) × (NoTimer ts))
      ⊎ ((t : ℤ) × (c.registered_timer_time ≡ some t)
          × (OneTimer t ts)
          × (c.delay_sms_emitted ≡ false))

  -- The timer is gone, and the state names none.
  abbrev Deleted : OrderDelayState → OrderDelayState × T.Timers → Type 0
  Deleted c (d, ts) =
      (d.registered_timer_time ≡ none)
      × (NoTimer ts)
      × (is_terminal d ≡ is_terminal c)
      × (d.delay_sms_emitted ≡ c.delay_sms_emitted)

  Deleted-delete_registered_timer :
      (c : OrderDelayState) (ts : T.Timers)
      → Pending c ts
      → Deleted c (delete_registered_timer c ts)
  unfolding delete_registered_timer is_terminal
  Deleted-delete_registered_timer c ts (inl (e, none_left)) = rw e (refl, none_left, refl, refl)
  Deleted-delete_registered_timer c ts (inr (t, e, own, h)) =
      rw e (refl, NoTimer-delete t ts own, refl, refl)

  HasItsTimer-register :
      (c : OrderDelayState) (expected : ℤ) (ts : T.Timers)
      → Pending c ts
      → expected_milli c ≡ some expected
      → is_terminal c ≡ false
      → c.delay_sms_emitted ≡ false
      → HasItsTimer
          (some (register_or_update_timer c expected ts).0)
          (register_or_update_timer c expected ts).1
  unfolding register_or_update_timer is_terminal
  HasItsTimer-register c expected ts (inl (e, none_left)) at active unsent =
      rw e (inr (expected, refl, OneTimer-register expected ts none_left, at, active, unsent))
  HasItsTimer-register c expected ts (inr (t, e, own, h)) at active unsent =
      elim (Bool-cases (int_eq t expected)) [
        | inl same ↦
            rw (e, same)
              (inr (t, refl, own, at ∙ ap some (sym (int_eq-eq t expected same)), active, unsent))
        | inr other ↦
            rw (e, other)
              (inr (
                expected,
                refl,
                OneTimer-register expected (T.delete t ts) (NoTimer-delete t ts own),
                at,
                active,
                unsent,
              ))
      ]

  -- The invariant of what a handler gives.
  abbrev pub Timed : Keyed × List Output → Type 0
  Timed (k, out) = HasItsTimer k.state k.timers

  Timed-deliver_or_wait :
      (c : OrderDelayState) (expected now later : ℤ) (ts : T.Timers)
      → Pending c ts
      → expected_milli c ≡ some expected
      → is_terminal c ≡ false
      → c.delay_sms_emitted ≡ false
      → Timed (deliver_or_wait c expected now later ts)
  unfolding deliver_or_wait emit_delay_sms
  Timed-deliver_or_wait c expected now later ts pending at active unsent =
      elim (Bool-cases (ltb_ℤ now expected)) [
        | inl e ↦ rw e (HasItsTimer-register c expected ts pending at active unsent)
        | inr e ↦
            let (_, none_left, _, _) = Deleted-delete_registered_timer c ts pending in
            rw e (inl (refl, none_left, inr refl))
      ]

  -- A state whose timer is gone and that needs none.
  HasItsTimer-closed :
      (c : OrderDelayState) (ts : T.Timers)
      → Pending c ts
      → is_terminal c ≡ true
      → HasItsTimer (some (delete_registered_timer c ts).0) (delete_registered_timer c ts).1
  HasItsTimer-closed c ts pending closed =
      let (unnamed, none_left, same, _) = Deleted-delete_registered_timer c ts pending in
      inl (unnamed, none_left, inl (same ∙ closed))

  Pending-sent :
      (c : OrderDelayState) (ts : T.Timers)
      → Pending c ts
      → c.delay_sms_emitted ≡ true
      → HasItsTimer (some c) ts
  Pending-sent c ts (inl (unnamed, none_left)) sent = inl (unnamed, none_left, inr sent)
  Pending-sent c ts (inr (t, e, own, unsent)) sent = cc

  Timed-process_current :
      (c : OrderDelayState) (now later : ℤ) (ts : T.Timers) {r : Keyed × List Output}
      → Pending c ts
      → process_current c now later ts ≡ some r
      → Timed r
  unfolding process_current
  Timed-process_current c now later ts {r} pending h = elim (Bool-cases (is_terminal c)) [
    | inl e ↦ subst Timed (some-injective (rw e at h)) (HasItsTimer-closed c ts pending e)
    | inr e ↦ elim (Bool-cases c.delay_sms_emitted) [
      | inl e' ↦
          let eq : process_current c now later ts
              ≡ some (record { state = some c; timers = ts }, []) =
            rw (e, e') refl in
          subst Timed (some-injective (sym eq ∙ h)) (Pending-sent c ts pending e')
      | inr e' ↦ elim (Option-cases (expected_milli c)) [
        | inl e2 ↦ absurd (ground arith)
        | inr (x, e2) ↦
            subst Timed (some-injective (rw (e, e', e2) at h))
              (Timed-deliver_or_wait c x now later ts pending e2 e e')
      ]
    ]
  ]

  -- The timer of an order is as it was when the order is updated.
  Pending-update_from :
      (incoming : OrderState) (c : OrderDelayState) (ts : T.Timers)
      → HasItsTimer (some c) ts
      → Pending (update_from incoming c) ts
  Pending-update_from incoming c ts (inl (unnamed, none_left, _)) = inl (unnamed, none_left)
  Pending-update_from incoming c ts (inr (t, e, own, _, _, unsent)) = inr (t, e, own, unsent)

  pub Timed-process_element :
      (incoming : OrderState) (now later : ℤ) (k : Keyed) {r : Keyed × List Output}
      → HasItsTimer k.state k.timers
      → process_element incoming now later k ≡ some r
      → Timed r
  unfolding process_element process_valid process_stored
  Timed-process_element incoming now later k {r} inv h = elim (Bool-cases (is_valid incoming)) [
    | inr e ↦ subst Timed (some-injective (rw e at h)) inv
    | inl e ↦ elim (Option-cases k.state) [
      | inl e' ↦
          let held : NoTimer k.timers = rw e' at inv in
          Timed-process_current (from_order_state incoming) now later k.timers (inl (refl, held))
            (rw (e, e') at h)
      | inr (c, e') ↦
          let held : HasItsTimer (some c) k.timers = rw e' at inv in
          elim (Option-cases (is_stale_update incoming c)) [
            | inl e2 ↦ absurd (ground arith)
            | inr (true, e2) ↦
                let eq : process_element incoming now later k
                    ≡ some (k, counted stale_updates_ignored ∷ []) =
                  rw (e, e', e2) refl in
                subst Timed (some-injective (sym eq ∙ h)) inv
            | inr (false, e2) ↦
                Timed-process_current (update_from incoming c) now later k.timers
                  (Pending-update_from incoming c k.timers held) (rw (e, e', e2) at h)
          ]
    ]
  ]
