-- ===== src/Flink/Process/Timers.antt =====
-- The timers of an order, over all that may happen to it.
use delayed_order_sms_flink.Base.{
  some-injective, ◌≡◌, refl, ap, subst, sym, ◌∙◌, true, false, Option, none, some, List, ℤ, ltb_ℤ,
  int_eq-eq, arith, Option-cases, inl, inr,
}
use delayed_order_sms_flink.Flink.TimerService.{TimerService}
use delayed_order_sms_flink.Flink.Model.{OrderState, OrderDelayState, is_terminal, to_epoch_milli}
use delayed_order_sms_flink.Flink.Process.{
  Output, Keyed, emit_delay_sms, expected_milli, timer_current, on_timer, fire, History, untouched,
  element, fired,
}
use delayed_order_sms_flink.Flink.Process.Updates.{
  HasItsTimer, NoTimer, OneTimer, NoTimer-delete, Timed, Timed-process_element,
}

lt_irrefl : (a : ℤ) → ltb_ℤ a a ≡ false
lt_irrefl a = ground arith

module _ ⦃T : TimerService⦄ where
  -- The timer of an open order sends its SMS.
  fire-emit_delay_sms :
      (c : OrderDelayState) (t now : ℤ) (ts : T.Timers)
      → expected_milli c ≡ some t
      → is_terminal c ≡ false
      → c.delay_sms_emitted ≡ false
      → fire t now (record { state = some c; timers = ts })
        ≡ some (emit_delay_sms c now (T.delete t ts))
  unfolding fire on_timer timer_current
  fire-emit_delay_sms c t now ts at active unsent = elim (Option-cases c.expected_delivery_time) [
    | inl e ↦ absurd (ground arith)
    | inr (u, e) ↦
        let milli : to_epoch_milli u ≡ some t = rw e at at in
        simp (active, unsent, e, milli, lt_irrefl t) refl
  ]

  -- The order that a timer is of.
  abbrev pub OrderDue : ℤ → ℤ → Keyed → Keyed × List Output → Type 0
  OrderDue timestamp now k r =
      (c : OrderDelayState) × (k.state ≡ some c)
      × (expected_milli c ≡ some timestamp)
      × (is_terminal c ≡ false)
      × (c.delay_sms_emitted ≡ false)
      × (r ≡ emit_delay_sms c now (T.delete timestamp k.timers))
      × NoTimer r.0.timers

  -- The timer that fires is the one that the order has.
  one_fires :
      {t : ℤ} (timestamp : ℤ) {timers : T.Timers}
      → OneTimer t timers
      → T.has timestamp timers ≡ true
      → t ≡ timestamp
  one_fires {t} timestamp own due = int_eq-eq t timestamp (sym (own timestamp) ∙ due)

  OrderDue-emit_delay_sms :
      (timestamp now : ℤ) (c : OrderDelayState) (timers : T.Timers)
      → OneTimer timestamp timers
      → expected_milli c ≡ some timestamp
      → is_terminal c ≡ false
      → c.delay_sms_emitted ≡ false
      → OrderDue timestamp now
          (record { state = some c; timers = timers })
          (emit_delay_sms c now (T.delete timestamp timers))
  unfolding emit_delay_sms
  OrderDue-emit_delay_sms timestamp now c timers own at active unsent =
      (c, refl, at, active, unsent, refl, NoTimer-delete timestamp timers own)

  -- The handler of a timer that is registered does not throw, and sends the SMS of its order.
  pub OrderDue-fire :
      (timestamp now : ℤ) (state : Option OrderDelayState) (timers : T.Timers)
      → HasItsTimer state timers
      → T.has timestamp timers ≡ true
      → (r : Keyed × List Output) × (fire timestamp now (record { state = state; timers = timers })
          ≡ some r)
        × OrderDue timestamp now (record { state = state; timers = timers }) r
  OrderDue-fire timestamp now none timers none_left due =
      absurd (let never = none_left timestamp in cc)
  OrderDue-fire timestamp now (some c) timers (inl (_, none_left, _)) due =
      absurd (let never = none_left timestamp in cc)
  OrderDue-fire timestamp now (some c) timers (inr (t, named, own, at, active, unsent)) due =
      let same : t ≡ timestamp = one_fires timestamp own due in
      let at' : expected_milli c ≡ some timestamp = at ∙ ap some same in
      (
        emit_delay_sms c now (T.delete timestamp timers),
        fire-emit_delay_sms c timestamp now timers at' active unsent,
        OrderDue-emit_delay_sms timestamp now c timers (subst (λ t. OneTimer t timers) same own) at'
            active unsent,
      )

  HasItsTimer-due :
      (timestamp now : ℤ) (k : Keyed) {r : Keyed × List Output}
      → OrderDue timestamp now k r
      → Timed r
  unfolding emit_delay_sms
  HasItsTimer-due timestamp now k {r} (c, _, _, _, _, same, none_left) =
      subst (λ state. HasItsTimer state r.0.timers) (sym (ap (λ r. r.0.state) same))
        (inl (refl, none_left, inr refl))

  -- At every moment, an order that is open and has no SMS has exactly one timer, at the millisecond
  -- of its latest expected time of delivery, and any other order has none. The state does not
  -- expire.
  pub HasItsTimer-History :
      {ins : List OrderState} {outs : List Output} {k : Keyed}
      → History ins outs k
      → HasItsTimer k.state k.timers
  HasItsTimer-History untouched = T.has-nothing
  HasItsTimer-History (element {k = k} incoming now later k' out h e) =
      Timed-process_element incoming now later k (HasItsTimer-History h) e
  HasItsTimer-History (fired {k = k} timestamp now k' out h due e) =
      let (r, sent, order) =
        OrderDue-fire timestamp now k.state k.timers (HasItsTimer-History h) due in
      subst Timed (some-injective (sym sent ∙ e)) (HasItsTimer-due timestamp now k order)

  -- A timer that fires is never a stale one: it is of an open order without an SMS whose expected
  -- time of delivery it is, and its handler does not throw, sends the SMS of the order and leaves no
  -- timer. The state does not expire.
  pub OrderDue-History :
      {ins : List OrderState} {outs : List Output} {k : Keyed} (timestamp now : ℤ)
      → History ins outs k
      → T.has timestamp k.timers ≡ true
      → (r : Keyed × List Output) × (fire timestamp now k ≡ some r) × OrderDue timestamp now k r
  OrderDue-History {k = k} timestamp now h due =
      OrderDue-fire timestamp now k.state k.timers (HasItsTimer-History h) due
