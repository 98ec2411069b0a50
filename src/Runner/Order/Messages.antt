-- ===== src/Runner/Order/Messages.antt =====
-- How many messages the run of an order publishes.
use delayed_order_sms_flink.Base.{
  ℕ, ◌+◌, ◌<◌, ◌≡◌, refl, subst, sym, Bool, true, false, Option, none, some, List, [], ◌∷◌, ◌++◌,
  codes, ℤ, Result, ok, err, Error, arith, Bool-cases, inl, inr,
}
use delayed_order_sms_flink.Json.{
  Json, Items, Fields, null, bool, int, float, str, arr, obj, nil, cons, get, get_or, is_true,
}
use delayed_order_sms_flink.Json.Numbers.{Floats}
use delayed_order_sms_flink.Json.Laws.{get_or-some}
use delayed_order_sms_flink.Config.{SimulatorConfig}
use delayed_order_sms_flink.Producer.{OrderKafkaProducer}
use delayed_order_sms_flink.Runner.Names.{OrderContext}
use delayed_order_sms_flink.Runner.Trace.{
  Action, slept, paused, warned, published, Trace, lift, ◌>>=◌,
}
use delayed_order_sms_flink.Runner.Order.{
  Steps, get_step, when, wait, again_of, duplicate, fresh, value_of, send, run_event,
  run_definition, run_events, events_loop, run_all, run_single_order,
}

abbrev is_message : {F : Type 0} → Action F → ℕ
is_message (slept n) = 0
is_message (paused n) = 0
is_message warned = 0
is_message (published m) = 1

unfoldable pub messages : {F : Type 0} → List (Action F) → ℕ
messages [] = 0
messages (a ∷ actions) = is_message a + messages actions

unfoldable pub item_count : {F : Type 0} → Items F → ℕ
item_count nil = 0
item_count (cons x xs) = item_count xs + 1

module _ {F : Type 0} where
  messages-append : (xs ys : List (Action F)) → messages (xs ++ ys) ≡ messages xs + messages ys
  unfolding messages
  messages-append [] ys = omega arith
  messages-append (x ∷ xs) ys = omega (arith, messages-append xs ys)

  -- `n` messages where the code returns, and fewer where it raises.
  pub data Sends {A : Type 0} (n : ℕ) : Trace F A → Type 0 where
    sent : {actions : List (Action F)} {a : A} → messages actions ≡ n → Sends n (actions, ok a)
    failed :
        {actions : List (Action F)} {e : Error} → messages actions < n → Sends n (actions, err e)

  -- Code that publishes nothing.
  abbrev Silent : {A : Type 0} → Trace F A → Type 0
  Silent m = messages m.0 ≡ 0

  Silent->>= :
      {A B : Type 0} (m : Trace F A) (f : A → Trace F B)
      → Silent m
      → ((a : A) → Silent (f a))
      → Silent (m >>= f)
  unfolding ◌>>=◌ messages
  Silent->>= (actions, ok a) f h k = omega (arith, messages-append actions (f a).0, h, k a)
  Silent->>= (actions, err e) f h k = omega (arith, messages-append actions [], h)

  -- The messages behind silent code.
  Sends-behind :
      {A B : Type 0} {n : ℕ} (m : Trace F A) (f : A → Trace F B)
      → 0 < n
      → Silent m
      → ((a : A) → Sends n (f a))
      → Sends n (m >>= f)
  unfolding ◌>>=◌ messages
  Sends-behind {n = n} (actions, err e) f pos_n h k =
      failed (omega (arith, messages-append actions [], h))
  Sends-behind {n = n} (actions, ok a) f pos_n h k =
      elim (k a) as (λ t _. Sends n (actions ++ t.0, t.1)) [
        | sent {actions = bs} {a = b} eq ↦ sent (omega (arith, messages-append actions bs, h, eq))
        | failed {actions = bs} {e = e} lt ↦
            failed (omega (arith, messages-append actions bs, h, lt))
      ]

  Sends->>= :
      {A B : Type 0} {n k : ℕ} (m : Trace F A) (f : A → Trace F B)
      → Sends n m
      → ((a : A) → Sends k (f a))
      → Sends (k + n) (m >>= f)
  unfolding ◌>>=◌ messages
  Sends->>= {n = n} {k = k} (actions, r) f (failed lt) g =
      failed (omega (arith, messages-append actions [], lt))
  Sends->>= {n = n} {k = k} (actions, r) f (sent {a = a} eq) g =
      elim (g a) as (λ t _. Sends (k + n) (actions ++ t.0, t.1)) [
        | sent {actions = bs} {a = b} eq' ↦
            sent (omega (arith, messages-append actions bs, eq, eq'))
        | failed {actions = bs} {e = e} lt ↦
            failed (omega (arith, messages-append actions bs, eq, lt))
      ]

  Silent-when : (b : Bool) (a : Action F) → is_message a ≡ 0 → Silent (when b a)
  unfolding messages
  Silent-when true a h = omega (arith, h)
  Silent-when false a h = refl

module _ (fl : Floats) (config : SimulatorConfig fl.Float) (producer : OrderKafkaProducer)
    (context : OrderContext) where
  Silent-lift : {A : Type 0} (r : Result A) → Silent {F = fl.Float} (lift r)
  unfolding messages
  Silent-lift r = refl

  Silent-wait : (event : Fields fl.Float) → Silent (wait fl config producer context event)
  unfolding wait messages
  Silent-wait event = Silent->>= _ _ refl λ step. Silent->>= _ _ refl λ delay.
      Silent->>= _ _ refl λ scaled. Silent->>= _ _ refl λ adjusted.
        Silent->>= _ _ (Silent-when _ (slept adjusted) refl)
          λ _. Silent->>= _ _ (Silent-when _ (paused config.pause_duration_seconds) refl) λ _. refl

  Silent-again_of : (o : Option (Json fl.Float)) → Silent (again_of fl config producer context o)
  unfolding again_of messages
  Silent-again_of none = refl
  Silent-again_of (some v) = refl

  Silent-value_of :
      (o : Option (Json fl.Float)) (step : ℤ) (event : Fields fl.Float) (steps : Steps fl.Float)
      → Silent (value_of fl config producer context o step event steps)
  unfolding value_of duplicate fresh messages
  Silent-value_of (some k) step event steps =
      Silent->>= _ _ (Silent->>= _ _ refl λ k. Silent-again_of (get_step k steps)) λ v. refl
  Silent-value_of none step event steps =
      elim (Bool-cases (is_true fl.is_true (get_or (codes "value") null event))) [
        | inl e ↦
            rw e
              (Silent->>= _ _ refl λ b. Silent->>= _ _ (Silent-when b.warned warned refl) λ _. refl)
        | inr e ↦ rw e refl
      ]

  Sends-send :
      (value : Json fl.Float) (event : Fields fl.Float)
      → Sends 1 (send fl config producer context value event)
  unfolding send messages
  Sends-send value event = Sends-behind _ _ (omega arith) refl λ m. sent refl

  Sends-run_event :
      (event : Fields fl.Float) (steps : Steps fl.Float)
      → Sends 1 (run_event fl config producer context event steps)
  unfolding run_event messages
  Sends-run_event event steps = Sends-behind _ _ (omega arith) (Silent-wait event) λ step.
      Sends-behind _ _ (omega arith)
        (Silent-value_of (get (codes "duplicateOfStep") event) step event steps)
        λ (value, steps'). Sends->>= _ _ (Sends-send value event) λ _. sent refl

  Sends-run_definition :
      (definition : Json fl.Float) (steps : Steps fl.Float)
      → Sends 1 (run_definition fl config producer context definition steps)
  unfolding run_definition messages
  Sends-run_definition (obj event) steps = Sends-run_event event steps
  Sends-run_definition null steps = failed (omega arith)
  Sends-run_definition (bool b) steps = failed (omega arith)
  Sends-run_definition (int n) steps = failed (omega arith)
  Sends-run_definition (float x) steps = failed (omega arith)
  Sends-run_definition (str s) steps = failed (omega arith)
  Sends-run_definition (arr xs) steps = failed (omega arith)

  Sends-run_events :
      (events : Items fl.Float) (steps : Steps fl.Float)
      → Sends (item_count events) (run_events fl config producer context events steps)
  unfolding run_events messages item_count
  Sends-run_events nil steps = sent refl
  Sends-run_events (cons event events) steps =
      Sends->>= _ _ (Sends-run_definition event steps) λ steps'. Sends-run_events events steps'

  -- The run of an order publishes one message for each event of the scenario if it returns, and
  -- fewer if it raises. The scenario has a list of events, with one event at least.
  pub Sends-run_single_order :
      (scenario : Fields fl.Float) (event : Json fl.Float) (events : Items fl.Float)
      → get (codes "events") scenario ≡ some (arr (cons event events))
      → Sends
          (item_count (cons event events))
          (run_single_order fl config producer context scenario)
  unfolding run_single_order run_all events_loop is_true
  Sends-run_single_order scenario event events h =
      subst (λ v. Sends (item_count (cons event events)) (run_all fl config producer context v))
        (sym (get_or-some (codes "events") (arr nil) scenario h))
        (Sends-run_events (cons event events) [])
