-- ===== src/Flink/Process/Latest.antt =====
-- The state of an order holds its latest update.
use delayed_order_sms_flink.Base.{
  some-injective, ◌≡◌, refl, subst, sym, ◌∙◌, true, false, Option, none, some, List, [], ◌∷◌, ℤ,
  All, All-map, arith, Bool-cases, inl, inr, ◌⊎◌, Bool, Option-cases, ltb_ℤ,
}
use delayed_order_sms_flink.Flink.TimerService.{TimerService}
use delayed_order_sms_flink.Flink.Model.{OrderState, OrderDelayState, from_order_state, update_from}
use delayed_order_sms_flink.Flink.Process.{
  process_stored, Output, Keyed, emit_delay_sms, process_valid, process_element, present, is_valid,
  is_before, is_stale_update, History, untouched, element, fired,
}
use delayed_order_sms_flink.Flink.Process.Timers.{OrderDue, OrderDue-fire, HasItsTimer-History}
use delayed_order_sms_flink.Flink.Process.Stored.{view, Holds, Holds-process_current}

-- Both times are there, and the first is before the second.
abbrev pub before : Option ℤ → Option ℤ → Bool
before (some t) (some u) = ltb_ℤ t u
before _ _ = false

abbrev pub IsAmong : OrderState → List OrderState → Type 0
IsAmong o [] = ⊥
IsAmong o (p ∷ ins) = (o ≡ p) ⊎ IsAmong o ins

-- No valid update is later than the order's.
abbrev pub NoneLater : OrderState → List OrderState → Type 0
NoneLater o = All (λ p. is_valid p ≡ true → before o.last_updated_at p.last_updated_at ≡ false)

-- The state is empty where no valid update came, and it holds a valid update that came, where no
-- valid update that came is later.
abbrev pub HoldsLatest : List OrderState → Option OrderDelayState → Type 0
HoldsLatest ins none = All (λ p. is_valid p ≡ false) ins
HoldsLatest ins (some c) =
    IsAmong (view c) ins × (is_valid (view c) ≡ true) × NoneLater (view c) ins

before_trans :
    (a b c : Option ℤ)
    → present b ≡ true
    → before a b ≡ false
    → before b c ≡ false
    → before a c ≡ false
before_trans none b c h k l = refl
before_trans (some x) b none h k l = refl
before_trans (some x) none (some z) h k l = absurd cc
before_trans (some x) (some y) (some z) h k l = ground arith

before_irrefl : (a : Option ℤ) → before a a ≡ false
before_irrefl none = refl
before_irrefl (some x) = ground arith

-- A valid update has a time.
present-last : (o : OrderState) → is_valid o ≡ true → present o.last_updated_at ≡ true
unfolding is_valid
present-last o h = ground arith

NoneLater-none_valid :
    (o : OrderState) (ins : List OrderState) → All (λ p. is_valid p ≡ false) ins → NoneLater o ins
NoneLater-none_valid o [] h = tt
NoneLater-none_valid o (p ∷ ins) (h, hs) = (λ e. cc, NoneLater-none_valid o ins hs)

-- The valid update that a state is made of becomes the latest.
HoldsLatest-of_update :
    (o : OrderState) (ins : List OrderState) (state : Option OrderDelayState)
    → is_valid o ≡ true
    → NoneLater o ins
    → Holds o state
    → HoldsLatest (o ∷ ins) state
HoldsLatest-of_update o ins none valid none_later held = absurd held
HoldsLatest-of_update o ins (some c) valid none_later held =
    subst (λ p. IsAmong p (o ∷ ins) × (is_valid p ≡ true) × NoneLater p (o ∷ ins)) (sym held)
      (inl refl, valid, (λ _. before_irrefl o.last_updated_at, none_later))

-- An update that is not stored.
HoldsLatest-ignored :
    (o : OrderState) (ins : List OrderState) (state : Option OrderDelayState)
    → ((c : OrderDelayState)
        → state ≡ some c
        → is_valid o ≡ true
        → before (view c).last_updated_at o.last_updated_at ≡ false)
    → (state ≡ none → is_valid o ≡ false)
    → HoldsLatest ins state
    → HoldsLatest (o ∷ ins) state
HoldsLatest-ignored o ins none f g h = (g refl, h)
HoldsLatest-ignored o ins (some c) f g (among, valid, none_later) =
    (inr among, valid, (f c refl, none_later))

NoneLater-trans :
    (o p : OrderState) (ins : List OrderState)
    → is_valid p ≡ true
    → before o.last_updated_at p.last_updated_at ≡ false
    → NoneLater p ins
    → NoneLater o ins
NoneLater-trans o p ins valid h later =
    All-map _ _
      (λ q k valid_q.
        before_trans o.last_updated_at p.last_updated_at q.last_updated_at (present-last p valid) h
          (k valid_q))
      ins later

before-is_before : (a b : Option ℤ) {c : Bool} → is_before a b ≡ some c → before a b ≡ c
unfolding is_before
before-is_before (some t) (some u) h = some-injective h
before-is_before (some t) none h = some-injective h
before-is_before none none h = some-injective h
before-is_before none (some u) h = absurd (ground arith)

before_asym : (a b : Option ℤ) → before a b ≡ true → before b a ≡ false
before_asym none b h = cc
before_asym (some x) none h = cc
before_asym (some x) (some y) h = ground arith

module _ ⦃T : TimerService⦄ where
  HoldsLatest-process_valid :
      (o : OrderState) (ins : List OrderState) (now later : ℤ) (state : Option OrderDelayState)
      (timers : T.Timers) {r : Keyed × List Output}
      → is_valid o ≡ true
      → HoldsLatest ins state
      → process_valid o now later (record { state = state; timers = timers }) ≡ some r
      → HoldsLatest (o ∷ ins) r.0.state
  unfolding process_valid process_stored is_stale_update is_before
  HoldsLatest-process_valid o ins now later none timers {r} valid h e =
      HoldsLatest-of_update o ins r.0.state valid (NoneLater-none_valid o ins h)
        (Holds-process_current (from_order_state o) now later timers e)
  HoldsLatest-process_valid o ins now later (some c) timers {r} valid h e =
      elim (Option-cases (is_before o.last_updated_at c.last_updated_at)) [
        | inl e' ↦ absurd (ground arith)
        | inr (true, e') ↦
            let stale = before-is_before o.last_updated_at c.last_updated_at e' in
            let kept : HoldsLatest (o ∷ ins) (some c) =
              HoldsLatest-ignored o ins (some c)
                (λ d same _.
                  let eq : c ≡ d = some-injective same in
                  subst (λ d. before (view d).last_updated_at o.last_updated_at ≡ false) eq
                    (before_asym o.last_updated_at c.last_updated_at stale))
                (λ e. cc) h in
            subst (λ r. HoldsLatest (o ∷ ins) r.0.state) (some-injective (rw e' at e)) kept
        | inr (false, e') ↦
            let current = before-is_before o.last_updated_at c.last_updated_at e' in
            HoldsLatest-of_update o ins r.0.state valid
              (NoneLater-trans o (view c) ins h.1 current h.2)
              (Holds-process_current (update_from o c) now later timers (rw e' at e))
      ]

  HoldsLatest-process_element :
      (o : OrderState) (ins : List OrderState) (now later : ℤ) (k : Keyed) {r : Keyed × List Output}
      → HoldsLatest ins k.state
      → process_element o now later k ≡ some r
      → HoldsLatest (o ∷ ins) r.0.state
  unfolding process_element
  HoldsLatest-process_element o ins now later k {r} h e = elim (Bool-cases (is_valid o)) [
    | inl valid ↦ HoldsLatest-process_valid o ins now later k.state k.timers valid h (rw valid at e)
    | inr invalid ↦
        subst (λ r. HoldsLatest (o ∷ ins) r.0.state) (some-injective (rw invalid at e))
          (HoldsLatest-ignored o ins k.state (λ c _ valid. cc) (λ _. invalid) h)
  ]

  -- The order that a timer was of holds the same update behind it.
  HoldsLatest-due :
      (timestamp now : ℤ) (ins : List OrderState) (k : Keyed) {r : Keyed × List Output}
      → OrderDue timestamp now k r
      → HoldsLatest ins k.state
      → HoldsLatest ins r.0.state
  unfolding emit_delay_sms
  HoldsLatest-due timestamp now ins k {r} (c, same, _, _, _, sent, _) h =
      subst (λ r. HoldsLatest ins r.0.state) (sym sent) (subst (HoldsLatest ins) same h)

  -- The state of an order holds the latest of the valid updates that came, in whatever order they
  -- came and however often: it is made of one of them, and none of them is later. It is empty where
  -- none came. The state does not expire.
  pub HoldsLatest-History :
      {ins : List OrderState} {outs : List Output} {k : Keyed}
      → History ins outs k
      → HoldsLatest ins k.state
  HoldsLatest-History untouched = tt
  HoldsLatest-History (element {ins = ins} {k = k} incoming now later k' out h e) =
      HoldsLatest-process_element incoming ins now later k (HoldsLatest-History h) e
  HoldsLatest-History (fired {ins = ins} {k = k} timestamp now k' out h due e) =
      let (r, sent, order) =
        OrderDue-fire timestamp now k.state k.timers (HasItsTimer-History h) due in
      subst (λ r. HoldsLatest ins r.0.state) (some-injective (sym sent ∙ e))
        (HoldsLatest-due timestamp now ins k order (HoldsLatest-History h))
