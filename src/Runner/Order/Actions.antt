-- ===== src/Runner/Order/Actions.antt =====
-- What holds of every effect of an order, from what holds of the effects of its events.
use delayed_order_sms_flink.Base.{
  Bool, true, false, Option, none, some, [], All, All-append, codes, ℤ, ok, err, Bool-cases, inl,
  inr,
}
use delayed_order_sms_flink.Json.{
  Json, Items, Fields, null, bool, int, float, str, arr, obj, nil, cons, get, get_or, is_true,
}
use delayed_order_sms_flink.Json.Numbers.{Floats}
use delayed_order_sms_flink.Config.{SimulatorConfig}
use delayed_order_sms_flink.Producer.{OrderKafkaProducer}
use delayed_order_sms_flink.Runner.Names.{OrderContext}
use delayed_order_sms_flink.Runner.Trace.{Action, slept, paused, warned, Trace, ◌>>=◌}
use delayed_order_sms_flink.Runner.Order.{
  Steps, get_step, when, wait, again_of, duplicate, fresh, value_of, send, run_event,
  run_definition, run_events, events_loop, run_all, run_single_order,
}

-- A predicate of each event that is an object
abbrev pub Event : {F : Type 0} → (Fields F → Type 0) → Json F → Type 0
Event Q (obj event) = Q event
Event Q _ = Unit

abbrev pub AllEvents : {F : Type 0} → (Fields F → Type 0) → Items F → Type 0
AllEvents Q nil = Unit
AllEvents Q (cons event events) = Event Q event × AllEvents Q events

-- The same of the value of `events`
abbrev pub AllIn : {F : Type 0} → (Fields F → Type 0) → Json F → Type 0
AllIn Q (arr events) = AllEvents Q events
AllIn Q _ = Unit

pub All->>= :
    {F A B : Type 0} (P : Action F → Type 0) (m : Trace F A) (f : A → Trace F B)
    → All P m.0
    → ((a : A) → All P (f a).0)
    → All P (m >>= f).0
unfolding ◌>>=◌
All->>= P (actions, ok a) f h k = All-append P actions (f a).0 h (k a)
All->>= P (actions, err e) f h k = All-append P actions [] h tt

module _ (fl : Floats) (config : SimulatorConfig fl.Float) (producer : OrderKafkaProducer)
    (context : OrderContext) (P : Action fl.Float → Type 0) (Q : Fields fl.Float → Type 0)
    (of_slept : (n : ℤ) → P (slept n)) (of_paused : (n : ℤ) → P (paused n)) (of_warned : P warned)
    (sent : (value : Json fl.Float) (event : Fields fl.Float)
      → Q event
      → All P (send fl config producer context value event).0) where
  abbrev AllActions : {A : Type 0} → Trace fl.Float A → Type 0
  AllActions m = All P m.0

  AllActions->>= :
      {A B : Type 0} (m : Trace fl.Float A) (f : A → Trace fl.Float B)
      → AllActions m
      → ((a : A) → AllActions (f a))
      → AllActions (m >>= f)
  AllActions->>= m f h k = All->>= P m f h k

  AllActions-when : (b : Bool) (a : Action fl.Float) → P a → AllActions (when b a)
  AllActions-when true a h = (h, tt)
  AllActions-when false a h = tt

  AllActions-wait : (event : Fields fl.Float) → AllActions (wait fl config producer context event)
  unfolding wait
  AllActions-wait event = AllActions->>= _ _ tt λ step. AllActions->>= _ _ tt λ delay.
      AllActions->>= _ _ tt λ scaled. AllActions->>= _ _ tt λ adjusted.
        AllActions->>= _ _ (AllActions-when _ (slept adjusted) (of_slept adjusted)) λ _.
          AllActions->>= _ _
            (AllActions-when _ (paused config.pause_duration_seconds)
              (of_paused config.pause_duration_seconds))
            λ _. tt

  AllActions-again_of :
      (o : Option (Json fl.Float)) → AllActions (again_of fl config producer context o)
  unfolding again_of
  AllActions-again_of none = tt
  AllActions-again_of (some v) = tt

  AllActions-value_of :
      (o : Option (Json fl.Float)) (step : ℤ) (event : Fields fl.Float) (steps : Steps fl.Float)
      → AllActions (value_of fl config producer context o step event steps)
  unfolding value_of duplicate fresh
  AllActions-value_of (some k) step event steps =
      AllActions->>= _ _ (AllActions->>= _ _ tt λ k. AllActions-again_of (get_step k steps)) λ v. tt
  AllActions-value_of none step event steps =
      elim (Bool-cases (is_true fl.is_true (get_or (codes "value") null event))) [
        | inl e ↦ rw e (
            AllActions->>= _ _ tt
              λ b. AllActions->>= _ _ (AllActions-when b.warned warned of_warned) λ _. tt)
        | inr e ↦ rw e tt
      ]

  AllActions-run_definition :
      (definition : Json fl.Float) (steps : Steps fl.Float)
      → Event Q definition
      → AllActions (run_definition fl config producer context definition steps)
  unfolding run_definition run_event
  AllActions-run_definition (obj event) steps h = AllActions->>= _ _ (AllActions-wait event) λ step.
      AllActions->>= _ _
        (AllActions-value_of (get (codes "duplicateOfStep") event) step event steps)
        λ (value, steps'). AllActions->>= _ _ (sent value event h) λ _. tt
  AllActions-run_definition null steps h = tt
  AllActions-run_definition (bool b) steps h = tt
  AllActions-run_definition (int n) steps h = tt
  AllActions-run_definition (float x) steps h = tt
  AllActions-run_definition (str s) steps h = tt
  AllActions-run_definition (arr xs) steps h = tt

  AllActions-run_events :
      (events : Items fl.Float) (steps : Steps fl.Float)
      → AllEvents Q events
      → AllActions (run_events fl config producer context events steps)
  unfolding run_events
  AllActions-run_events nil steps h = tt
  AllActions-run_events (cons event events) steps (h, hs) =
      AllActions->>= _ _ (AllActions-run_definition event steps h)
        λ steps'. AllActions-run_events events steps' hs

  AllActions-events_loop :
      (events : Json fl.Float)
      → AllIn Q events
      → AllActions (events_loop fl config producer context events)
  unfolding events_loop
  AllActions-events_loop (arr events) h = AllActions-run_events events [] h
  AllActions-events_loop null h = tt
  AllActions-events_loop (bool b) h = tt
  AllActions-events_loop (int n) h = tt
  AllActions-events_loop (float x) h = tt
  AllActions-events_loop (str s) h = tt
  AllActions-events_loop (obj fs) h = tt

  -- Every effect of an order has the property where the effects of `send` have it.
  pub AllActions-run_single_order :
      (scenario : Fields fl.Float)
      → AllIn Q (get_or (codes "events") (arr nil) scenario)
      → All P (run_single_order fl config producer context scenario).0
  unfolding run_single_order run_all
  AllActions-run_single_order scenario h =
      let events = get_or (codes "events") (arr nil) scenario in
      elim (Bool-cases (is_true fl.is_true events)) [
        | inl e ↦ rw e (AllActions-events_loop events h)
        | inr e ↦ rw e tt
      ]
