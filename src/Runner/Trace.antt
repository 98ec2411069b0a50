-- ===== src/Runner/Trace.antt =====
-- Code that has effects one after the other and may raise: what it did before is done.
use delayed_order_sms_flink.Base.{ℤ, List, [], ◌∷◌, ◌++◌, Result, ok, err}
use delayed_order_sms_flink.Producer.{Message}

-- The effects of an order's run.
pub data Action (F : Type 0) : Type 0 where
  -- `time.sleep`, in milliseconds, between two events
  slept : ℤ → Action F
  -- `_pause_for_failure_testing`, in seconds
  paused : ℤ → Action F
  -- the warning of `_build_event_value`
  warned : Action F
  published : Message F → Action F

abbrev pub Trace : Type 0 → Type 0 → Type 0
Trace F A = List (Action F) × Result A

module _ {F : Type 0} where
  abbrev pub returns : {A : Type 0} → A → Trace F A
  returns a = ([], ok a)

  abbrev pub lift : {A : Type 0} → Result A → Trace F A
  lift r = ([], r)

  abbrev pub emit : Action F → Trace F (Unit {0})
  emit a = (a ∷ [], ok tt)

  abbrev continue : {A B : Type 0} → Result A → (A → Trace F B) → Trace F B
  continue (ok a) f = f a
  continue (err e) f = ([], err e)

  infixl 5 ◌>>=◌ ◌>>◌
  unfoldable pub ◌>>=◌ : {A B : Type 0} → Trace F A → (A → Trace F B) → Trace F B
  m >>= f = let rest = continue m.1 f in (m.0 ++ rest.0, rest.1)

  abbrev pub ◌>>◌ : {A B : Type 0} → Trace F A → Trace F B → Trace F B
  m >> k = m >>= λ _. k
