-- ===== src/Runner/Order/Sinks.antt =====
-- Where the messages of an order go.
use delayed_order_sms_flink.Base.{All, Result-cases, inl, inr, codes}
use delayed_order_sms_flink.Json.{
  Json, Items, Fields, null, bool, int, float, str, arr, obj, nil, cons, get_or,
}
use delayed_order_sms_flink.Json.Numbers.{Floats}
use delayed_order_sms_flink.Config.{SimulatorConfig}
use delayed_order_sms_flink.Producer.{OrderKafkaProducer, publish}
use delayed_order_sms_flink.Producer.Sinks.{GoesTo, GoesTo-publish}
use delayed_order_sms_flink.Runner.Names.{OrderContext}
use delayed_order_sms_flink.Runner.Trace.{
  Action, slept, paused, warned, published, lift, emit, ◌>>=◌,
}
use delayed_order_sms_flink.Runner.Order.{send, run_single_order}
use delayed_order_sms_flink.Runner.Order.Actions.{AllEvents, AllIn, AllActions-run_single_order}

-- If the effect is a message, the message does.
abbrev pub ActionGoesTo : {F : Type 0} → OrderKafkaProducer → Action F → Type 0
ActionGoesTo producer (slept n) = Unit
ActionGoesTo producer (paused n) = Unit
ActionGoesTo producer warned = Unit
ActionGoesTo producer (published m) = GoesTo producer m

abbrev AnyEvent : {F : Type 0} → Fields F → Type 0
AnyEvent event = Unit

AnyEvent-all : {F : Type 0} (events : Items F) → AllEvents AnyEvent events
AnyEvent-all nil = tt
AnyEvent-all (cons (obj event) events) = (tt, AnyEvent-all events)
AnyEvent-all (cons null events) = (tt, AnyEvent-all events)
AnyEvent-all (cons (bool b) events) = (tt, AnyEvent-all events)
AnyEvent-all (cons (int n) events) = (tt, AnyEvent-all events)
AnyEvent-all (cons (float x) events) = (tt, AnyEvent-all events)
AnyEvent-all (cons (str s) events) = (tt, AnyEvent-all events)
AnyEvent-all (cons (arr xs) events) = (tt, AnyEvent-all events)

AnyEvent-in : {F : Type 0} (events : Json F) → AllIn AnyEvent events
AnyEvent-in (arr events) = AnyEvent-all events
AnyEvent-in (obj fs) = tt
AnyEvent-in null = tt
AnyEvent-in (bool b) = tt
AnyEvent-in (int n) = tt
AnyEvent-in (float x) = tt
AnyEvent-in (str s) = tt

module _ (fl : Floats) (config : SimulatorConfig fl.Float) (producer : OrderKafkaProducer)
    (context : OrderContext) where
  AllGo-publish :
      (key value : Json fl.Float)
      → All
          (ActionGoesTo producer)
          (lift (publish fl.repr producer key value) >>= λ m. emit (published m)).0
  unfolding ◌>>=◌
  AllGo-publish key value = elim (Result-cases (publish fl.repr producer key value)) [
    | inl (m, e) ↦ rw e (GoesTo-publish fl.repr producer key value e, tt)
    | inr (x, e) ↦ rw e tt
  ]

  AllGo-send :
      (value : Json fl.Float) (event : Fields fl.Float)
      → AnyEvent event
      → All (ActionGoesTo producer) (send fl config producer context value event).0
  unfolding send
  AllGo-send value event h = AllGo-publish _ value

  pub run_single_order-AllGo :
      (scenario : Fields fl.Float)
      → All (ActionGoesTo producer) (run_single_order fl config producer context scenario).0
  run_single_order-AllGo scenario =
      AllActions-run_single_order fl config producer context (ActionGoesTo producer) AnyEvent
        (λ n. tt) (λ n. tt) tt AllGo-send scenario
        (AnyEvent-in (get_or (codes "events") (arr nil) scenario))
