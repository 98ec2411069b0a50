-- ===== src/Runner/Order.antt =====
-- `_run_single_order` of runner.py: the events of one order, in the order of the scenario.
pub mod Messages
pub mod Actions
pub mod Keys
pub mod Sinks
use delayed_order_sms_flink.Base.{
  Bool, true, false, ◌&&◌, not, List, [], ◌∷◌, Option, none, some, codes, if◌then◌else◌, ℤ, pos,
  ltb_ℤ, int_eq, ◌==◌, pos_part, neg_part, err, value_error, type_error, attribute_error,
}
use delayed_order_sms_flink.Json.{
  Json, Items, Fields, null, int, str, arr, obj, nil, cons, get, get_or, is_true,
}
use delayed_order_sms_flink.Json.Numbers.{Floats}
use delayed_order_sms_flink.Number.{int_of}
use delayed_order_sms_flink.Template.{render_template}
use delayed_order_sms_flink.Producer.{OrderKafkaProducer, publish}
use delayed_order_sms_flink.Config.{SimulatorConfig}
use delayed_order_sms_flink.Runner.Names.{OrderContext, as_template_context}
use delayed_order_sms_flink.Runner.Event.{build_event_value}
use delayed_order_sms_flink.Runner.Trace.{
  Action, slept, paused, warned, published, Trace, returns, lift, emit, ◌>>=◌, ◌>>◌,
}

-- `published_by_step`
abbrev pub Steps : Type 0 → Type 0
Steps F = List (ℤ × Json F)

module _ {F : Type 0} where
  unfoldable pub get_step : ℤ → Steps F → Option (Json F)
  get_step k [] = none
  get_step k ((j, v) ∷ steps) = if int_eq j k then some v else get_step k steps

  unfoldable pub put_step : ℤ → Json F → Steps F → Steps F
  put_step k v [] = (k, v) ∷ []
  put_step k v ((j, w) ∷ steps) = if int_eq j k then (k, v) ∷ steps else (j, w) ∷ put_step k v steps

  abbrev when : Bool → Action F → Trace F (Unit {0})
  when true a = emit a
  when false a = returns tt

module _ (fl : Floats) (config : SimulatorConfig fl.Float) (producer : OrderKafkaProducer)
    (context : OrderContext) where
  -- The waits in front of an event; the step of the event is the result.
  unfoldable pub wait : Fields fl.Float → Trace fl.Float ℤ
  wait event = do
    step ← lift (int_of fl (get_or (codes "step") (int (pos 0)) event))
    delay ← lift (int_of fl (get_or (codes "delayAfterPreviousEventMs") (int (pos 0)) event))
    scaled ← lift (fl.scale delay config.event_delay_multiplier)
    adjusted ← lift (fl.to_int scaled)
    when (ltb_ℤ (pos 0) adjusted) (slept adjusted)
    when
        (not (int_eq config.pause_after_step (pos 0))
          && int_eq step config.pause_after_step
          && ltb_ℤ (pos 0) config.pause_duration_seconds)
        (paused config.pause_duration_seconds)
    returns step

  again_of : Option (Json fl.Float) → Trace fl.Float (Json fl.Float)
  again_of none = lift (err value_error)
  again_of (some v) = returns v

  -- The value of an event that repeats a step.
  unfoldable pub duplicate : Json fl.Float → Steps fl.Float → Trace fl.Float (Json fl.Float)
  unfolding again_of
  duplicate of_step steps = do k ← lift (int_of fl of_step); again_of (get_step k steps)

  -- The value of an event with a template, and its place among the steps.
  unfoldable pub fresh :
      ℤ → Fields fl.Float → Steps fl.Float → Trace fl.Float (Json fl.Float × Steps fl.Float)
  fresh step event steps =
      let template = get_or (codes "value") null event in
      let built = do
        b ← lift (build_event_value fl context template event)
        when b.warned warned
        returns (b.value, put_step step b.value steps)
      in if is_true fl.is_true template then built else lift (err value_error)

  unfoldable pub value_of :
      Option (Json fl.Float)
      → ℤ
      → Fields fl.Float
      → Steps fl.Float
      → Trace fl.Float (Json fl.Float × Steps fl.Float)
  value_of (some of_step) step event steps = do v ← duplicate of_step steps; returns (v, steps)
  value_of none step event steps = fresh step event steps

  unfoldable pub send : Json fl.Float → Fields fl.Float → Trace fl.Float (Unit {0})
  send value event = do
    let message_key = get_or (codes "messageKey") (str (codes "{{orderId}}")) event
    let key = render_template (as_template_context context) message_key
    message ← lift (publish fl.repr producer key value)
    emit (published message)

  -- One round of the loop, with the steps behind it.
  unfoldable pub run_event : Fields fl.Float → Steps fl.Float → Trace fl.Float (Steps fl.Float)
  unfolding value_of
  run_event event steps = do
    step ← wait event
    (value, steps') ← value_of (get (codes "duplicateOfStep") event) step event steps
    send value event
    returns steps'

  unfoldable pub run_definition : Json fl.Float → Steps fl.Float → Trace fl.Float (Steps fl.Float)
  run_definition (obj event) steps = run_event event steps
  run_definition _ steps = lift (err attribute_error)

  unfoldable pub run_events : Items fl.Float → Steps fl.Float → Trace fl.Float (Unit {0})
  run_events nil steps = returns tt
  run_events (cons event events) steps = do
    steps' ← run_definition event steps
    run_events events steps'

  -- What is iterated: an object gives its keys and a string its characters, which are no objects.
  unfoldable pub events_loop : Json fl.Float → Trace fl.Float (Unit {0})
  events_loop (arr events) = run_events events []
  events_loop (obj fs) = lift (err attribute_error)
  events_loop (str s) = lift (err attribute_error)
  events_loop _ = lift (err type_error)

  unfoldable pub run_all : Json fl.Float → Trace fl.Float (Unit {0})
  unfolding events_loop
  run_all events =
      let ran = events_loop events in
      if is_true fl.is_true events then ran else lift (err value_error)

  unfoldable pub run_single_order : Fields fl.Float → Trace fl.Float (Unit {0})
  run_single_order scenario = run_all (get_or (codes "events") (arr nil) scenario)
