-- ===== src/Runner/Order/Keys.antt =====
-- The keys of an order's messages.
use delayed_order_sms_flink.Base.{
  ◌≡◌, refl, ap, sym, ◌∙◌, subst, none, some, [], ◌∷◌, append-nil, All, Text, text_eq, codes,
  Result-cases, inl, inr,
}
use delayed_order_sms_flink.Json.{Json, Items, Fields, str, arr, nil, get}
use delayed_order_sms_flink.Json.Numbers.{Floats}
use delayed_order_sms_flink.Json.Laws.{get_or-some}
use delayed_order_sms_flink.Template.{render_template}
use delayed_order_sms_flink.Template.Segments.{
  IsPlainContext, variable, source, lookup, render_template_value-source,
}
use delayed_order_sms_flink.Config.{SimulatorConfig}
use delayed_order_sms_flink.Producer.{OrderKafkaProducer, publish}
use delayed_order_sms_flink.Producer.Keys.{KeyedBy, KeyedBy-publish}
use delayed_order_sms_flink.Runner.Names.{OrderContext, as_template_context}
use delayed_order_sms_flink.Runner.Trace.{
  Action, slept, paused, warned, published, Trace, lift, emit, ◌>>=◌,
}
use delayed_order_sms_flink.Runner.Order.Actions.{AllEvents, AllIn, AllActions-run_single_order}
use delayed_order_sms_flink.Runner.Order.{send, run_single_order}

-- If the effect is a message, the message does.
abbrev pub KeyedAction : {F : Type 0} → OrderKafkaProducer → Text → Action F → Type 0
KeyedAction producer id (slept n) = Unit
KeyedAction producer id (paused n) = Unit
KeyedAction producer id warned = Unit
KeyedAction producer id (published m) = KeyedBy producer id m

-- The event has no key of its own.
abbrev pub NoMessageKey : {F : Type 0} → Fields F → Type 0
NoMessageKey event = get (codes "messageKey") event ≡ none

-- The default key of a message is rendered to the order's id.
default_key :
    {F : Type 0} (context : OrderContext)
    → IsPlainContext (as_template_context context)
    → render_template {F = F} (as_template_context context) (str (codes "{{orderId}}"))
      ≡ str context.order_id
unfolding render_template as_template_context source lookup text_eq
default_key context h = ap str (
    render_template_value-source (as_template_context context) (variable (codes "orderId") ∷ []) h (
      (
        (refl, (refl, (refl, (refl, (refl, (refl, (refl, tt))))))),
        (refl, (refl, (refl, (refl, (refl, (refl, (refl, tt))))))),
      ),
      tt,
    )
    ∙ append-nil context.order_id)

module _ (fl : Floats) (config : SimulatorConfig fl.Float) (producer : OrderKafkaProducer)
    (context : OrderContext) (plain_names : IsPlainContext (as_template_context context)) where
  abbrev AllKeyed : {A : Type 0} → Trace fl.Float A → Type 0
  AllKeyed m = All (KeyedAction producer context.order_id) m.0

  AllKeyed-publish :
      (key value : Json fl.Float)
      → key ≡ str context.order_id
      → AllKeyed (lift (publish fl.repr producer key value) >>= λ m. emit (published m))
  unfolding ◌>>=◌
  AllKeyed-publish key value same = elim (Result-cases (publish fl.repr producer key value)) [
    | inl (m, e) ↦ rw e (
      KeyedBy-publish fl.repr producer context.order_id value
          (ap (λ k. publish fl.repr producer k value) (sym same) ∙ e),
      tt,
    )
    | inr (x, e) ↦ rw e tt
  ]

  AllKeyed-send :
      (value : Json fl.Float) (event : Fields fl.Float)
      → get (codes "messageKey") event ≡ none
      → AllKeyed (send fl config producer context value event)
  unfolding send
  AllKeyed-send value event h = AllKeyed-publish _ value (
      ap
        (λ o.
          render_template (as_template_context context)
            (elim o [ none ↦ str (codes "{{orderId}}") | some v ↦ v ]))
        h
      ∙ default_key context plain_names)

  -- Where no event of the scenario has a key of its own, each message of an order, until its end or
  -- until it raises, goes to the topic and has the order's id as its key, duplicates included: the
  -- messages of an order have one key. No brace opens in the names of the order.
  pub run_single_order-AllKeyed :
      (scenario : Fields fl.Float) (events : Items fl.Float)
      → get (codes "events") scenario ≡ some (arr events)
      → AllEvents NoMessageKey events
      → All
          (KeyedAction producer context.order_id)
          (run_single_order fl config producer context scenario).0
  run_single_order-AllKeyed scenario events h none_own =
      AllActions-run_single_order fl config producer context (KeyedAction producer context.order_id)
        NoMessageKey (λ n. tt) (λ n. tt) tt AllKeyed-send scenario
        (subst (AllIn NoMessageKey) (sym (get_or-some (codes "events") (arr nil) scenario h))
          none_own)
