-- ===== src/Flink/Process.antt =====
-- DelayedOrderProcessFunction: what happens at one key, the id of an order. The timers are those
-- of Flink's timer service at this key. A handler gives the state and the timers behind it and what
-- it puts out, or nothing where it throws.
pub mod Once
pub mod Updates
pub mod Timers
pub mod Stored
pub mod Latest
pub mod Total
pub mod Expiry
use delayed_order_sms_flink.Base.{
  ℕ, ◌+◌, ◌≡◌, Bool, true, false, ◌&&◌, not, Option, none, some, List, [], ◌∷◌, ◌++◌, Text, ℤ, pos,
  ltb_ℤ, int_eq, if◌then◌else◌,
}
use delayed_order_sms_flink.Flink.TimerService.{TimerService}
use delayed_order_sms_flink.Flink.Model.{
  OrderStatus, OrderState, OrderDelayState, from_order_state, update_from, is_terminal, SmsCommand,
  delay_sms, to_epoch_milli,
}

pub data Metric : Type 0 where
  delayed_orders_detected sms_commands_emitted stale_updates_ignored invalid_messages : Metric

pub data Output : Type 0 where
  -- `out.collect`
  sms : SmsCommand → Output
  -- `context.output`: the event names the id and the status
  dead_letter : Option Text → Option OrderStatus → Output
  counted : Metric → Output

abbrev pub with_timer : Option ℤ → OrderDelayState → OrderDelayState
with_timer t s = record {
  order_id = s.order_id;
  customer_id = s.customer_id;
  store_id = s.store_id;
  current_status = s.current_status;
  expected_delivery_time = s.expected_delivery_time;
  last_updated_at = s.last_updated_at;
  delay_sms_emitted = s.delay_sms_emitted;
  registered_timer_time = t;
}

abbrev pub emitted : OrderDelayState → OrderDelayState
emitted s = record {
  order_id = s.order_id;
  customer_id = s.customer_id;
  store_id = s.store_id;
  current_status = s.current_status;
  expected_delivery_time = s.expected_delivery_time;
  last_updated_at = s.last_updated_at;
  delay_sms_emitted = true;
  registered_timer_time = none;
}

abbrev present {ℓ} : {A : Type ℓ} → Option A → Bool
present none = false
present (some a) = true

unfoldable pub is_valid : OrderState → Bool
is_valid o =
    present o.order_id
    && (present o.status && (present o.expected_delivery_time && present o.last_updated_at))

-- `isBefore`: false where the state has no time. Where it has one and the update has none, it throws.
unfoldable pub is_before : Option ℤ → Option ℤ → Option Bool
is_before incoming none = some false
is_before none (some u) = none
is_before (some t) (some u) = some (ltb_ℤ t u)

unfoldable pub is_stale_update : OrderState → OrderDelayState → Option Bool
is_stale_update incoming current = is_before incoming.last_updated_at current.last_updated_at

-- `getExpectedDeliveryTime().toEpochMilli()`, which throws at a null too
abbrev pub expected_milli : OrderDelayState → Option ℤ
expected_milli current = elim current.expected_delivery_time [
  | none ↦ none
  | some t ↦ to_epoch_milli t
]

module _ ⦃T : TimerService⦄ where
  -- The value state of the key, and its timers.
  pub record Keyed : Type 0 where
    pub state : Option OrderDelayState
    pub timers : T.Timers

  abbrev pub Handled : Type 0
  Handled = Option (Keyed × List Output)

  -- `emitDelaySms`
  unfoldable pub emit_delay_sms : OrderDelayState → ℤ → T.Timers → Keyed × List Output
  emit_delay_sms current time timers = (
    record { state = some (emitted current); timers = timers },
    counted delayed_orders_detected
        ∷ counted sms_commands_emitted
        ∷ sms (delay_sms current time)
        ∷ [],
  )

  -- `deleteRegisteredTimer`
  unfoldable pub delete_registered_timer : OrderDelayState → T.Timers → OrderDelayState × T.Timers
  delete_registered_timer current timers = elim current.registered_timer_time [
    | none ↦ (current, timers)
    | some t ↦ (with_timer none current, T.delete t timers)
  ]

  -- `registerOrUpdateTimer`
  unfoldable pub register_or_update_timer :
      OrderDelayState → ℤ → T.Timers → OrderDelayState × T.Timers
  register_or_update_timer current time timers = elim current.registered_timer_time [
    | none ↦ (with_timer (some time) current, T.register time timers)
    | some t ↦
        if int_eq t time
        then (current, timers)
        else (with_timer (some time) current, T.register time (T.delete t timers))
  ]

  -- The end of `processElement`, at the time in milliseconds
  unfoldable pub deliver_or_wait : OrderDelayState → ℤ → ℤ → ℤ → T.Timers → Keyed × List Output
  deliver_or_wait current expected now later timers =
      if not (ltb_ℤ now expected)
      then (let (c, ts) = delete_registered_timer current timers in emit_delay_sms c later ts)
      else (let (c, ts) = register_or_update_timer current expected timers in
          (record { state = some c; timers = ts }, []))

  -- `processElement` behind the checks, at the state that the update gives
  unfoldable pub process_current : OrderDelayState → ℤ → ℤ → T.Timers → Handled
  process_current current now later timers =
      if is_terminal current
      then (let (c, ts) = delete_registered_timer current timers in
          some (record { state = some c; timers = ts }, []))
      else if current.delay_sms_emitted
      then some (record { state = some current; timers = timers }, [])
      else (elim (expected_milli current) [
        | none ↦ none
        | some expected ↦ some (deliver_or_wait current expected now later timers)
      ])

  -- `processElement` at a key that has a state, behind the test for a stale update
  unfoldable pub process_stored :
      Option Bool → OrderState → OrderDelayState → ℤ → ℤ → Keyed → Handled
  process_stored none incoming current now later k = none
  process_stored (some true) incoming current now later k =
      some (k, counted stale_updates_ignored ∷ [])
  process_stored (some false) incoming current now later k =
      process_current (update_from incoming current) now later k.timers

  unfoldable pub process_valid : OrderState → ℤ → ℤ → Keyed → Handled
  process_valid incoming now later k = elim k.state [
    | none ↦ process_current (from_order_state incoming) now later k.timers
    | some current ↦ process_stored (is_stale_update incoming current) incoming current now later k
  ]

  -- `processElement`. The time service is read twice.
  unfoldable pub process_element : OrderState → ℤ → ℤ → Keyed → Handled
  process_element incoming now later k =
      if is_valid incoming
      then process_valid incoming now later k
      else some (k, dead_letter incoming.order_id incoming.status ∷ counted invalid_messages ∷ [])

  unfoldable pub timer_current : OrderDelayState → ℤ → ℤ → Keyed → Handled
  timer_current current timestamp now k =
      if is_terminal current
      then some (k, [])
      else if current.delay_sms_emitted
      then some (k, [])
      else (elim current.expected_delivery_time [
        | none ↦ some (k, [])
        | some t ↦ elim (to_epoch_milli t) [
          | none ↦ none
          | some expected ↦ some (
              if not (ltb_ℤ timestamp expected)
              then emit_delay_sms current now k.timers
              else (k, []))
        ]
      ])

  -- `onTimer`. Flink has taken the timer away before the call.
  unfoldable pub on_timer : ℤ → ℤ → Keyed → Handled
  on_timer timestamp now k = elim k.state [
    | none ↦ some (k, [])
    | some current ↦ timer_current current timestamp now k
  ]

  -- A timer that is registered fires when its time has come.
  unfoldable pub fire : ℤ → ℤ → Keyed → Handled
  fire timestamp now k =
      on_timer timestamp now (record { state = k.state; timers = T.delete timestamp k.timers })

  -- What a key has been given so far, what was put out, and what it has now. The state does not
  -- expire.
  pub data History : List OrderState → List Output → Keyed → Type 0 where
    untouched : History [] [] (record { state = none; timers = T.nothing })
    element :
        {ins : List OrderState} {outs : List Output} {k : Keyed} (incoming : OrderState)
        (now later : ℤ) (k' : Keyed) (out : List Output)
        → History ins outs k
        → process_element incoming now later k ≡ some (k', out)
        → History (incoming ∷ ins) (outs ++ out) k'
    fired :
        {ins : List OrderState} {outs : List Output} {k : Keyed} (timestamp now : ℤ) (k' : Keyed)
        (out : List Output)
        → History ins outs k
        → T.has timestamp k.timers ≡ true
        → fire timestamp now k ≡ some (k', out)
        → History ins (outs ++ out) k'
