-- ===== src/Time/Resolve/Shape.antt =====
-- What is resolved in a value, and that it holds no expression any more.
use delayed_order_sms_flink.Base.{
  ℕ, ◌≡◌, refl, sym, subst, ◌⊎◌, none, some, Option, Text, strip_prefix, Result, ok, Option-cases,
  arith, inl, inr, >>=-eq-ok, ok-injective,
}
use delayed_order_sms_flink.Json.{
  Json, Items, Fields, null, bool, int, float, str, arr, obj, nil, cons, end, field,
}
use delayed_order_sms_flink.Time.Expression.{
  Sign, plus, minus, TimeMatch, match_time, match_behind_now,
}
use delayed_order_sms_flink.Time.Calendar.{padded, date_text, to_iso_z}
use delayed_order_sms_flink.Time.Calendar.RoundTrip.{to_iso_z_lem}
use delayed_order_sms_flink.Time.Clock.{add_time, sub_time}
use delayed_order_sms_flink.Time.Resolve.{
  span, resolve_match, dynamic_time, parse_dynamic_time, resolve_dynamic_times, resolve_items,
  resolve_fields,
}

match_time-to_iso_z : (t : ℕ) → match_time (to_iso_z t) ≡ none
unfolding match_time match_behind_now strip_prefix date_text padded
match_time-to_iso_z t = rw to_iso_z_lem (ground arith)

resolve_match-no_match :
    (o : Option Sign) (m : TimeMatch) (base : ℕ) {t : Text}
    → resolve_match o m base ≡ ok t
    → match_time t ≡ none
unfolding resolve_match
resolve_match-no_match none m base {t} h =
    let e : to_iso_z base ≡ t = ground arith in rw (← e) (match_time-to_iso_z base)
resolve_match-no_match (some plus) m base {t} h =
    let (d, hd, h') = >>=-eq-ok (span m) _ h in
    let (x, hx, h'') = >>=-eq-ok (add_time base d) _ h' in
    let e : to_iso_z x ≡ t = ground arith in rw (← e) (match_time-to_iso_z x)
resolve_match-no_match (some minus) m base {t} h =
    let (d, hd, h') = >>=-eq-ok (span m) _ h in
    let (x, hx, h'') = >>=-eq-ok (sub_time base d) _ h' in
    let e : to_iso_z x ≡ t = ground arith in rw (← e) (match_time-to_iso_z x)

parse_dynamic_time-no_match :
    (s : Text) (base : ℕ) {t : Text} → parse_dynamic_time s base ≡ ok t → match_time t ≡ none
unfolding parse_dynamic_time dynamic_time
parse_dynamic_time-no_match s base {t} h = elim (Option-cases (match_time s)) [
  | inl e ↦ let same : s ≡ t = ground arith in rw (← same) e
  | inr (m, e) ↦ resolve_match-no_match m.sign m base (ground arith)
]

parse_dynamic_time_of_no_match :
    (s : Text) (base : ℕ) → match_time s ≡ none → parse_dynamic_time s base ≡ ok s
unfolding parse_dynamic_time dynamic_time
parse_dynamic_time_of_no_match s base h = rw h

-- What a successful run of a reader gives is given again.
again {ℓ} : {A : Type ℓ} (f : A → Result A) {a b : A} → ok a ≡ ok b → f a ≡ ok a → f b ≡ ok b
again f h k = rw (← ok-injective h) k

-- A text that is no time expression stays, and the groups of an expression give the time.
abbrev pub TextResolves : ℕ → Text → Text → Type 0
TextResolves base s t =
    ((match_time s ≡ none) × (t ≡ s))
    ⊎ ((m : TimeMatch) × (match_time s ≡ some m) × (resolve_match m.sign m base ≡ ok t))

TextResolves-parse_dynamic_time :
    (base : ℕ) (s : Text) {t : Text} → parse_dynamic_time s base ≡ ok t → TextResolves base s t
unfolding parse_dynamic_time dynamic_time
TextResolves-parse_dynamic_time base s h = elim (Option-cases (match_time s)) [
  | inl e ↦ inl (e, sym (ok-injective (rw e at h)))
  | inr (m, e) ↦ inr (m, e, rw e at h)
]

module _ {F : Type 0} (base base' : ℕ) where
  mutual
    unfolding resolve_dynamic_times

    resolve_again :
        (v : Json F) {w : Json F}
        → resolve_dynamic_times base v ≡ ok w
        → resolve_dynamic_times base' w ≡ ok w
    resolve_again null h = again (resolve_dynamic_times base') h refl
    resolve_again (bool b) h = again (resolve_dynamic_times base') h refl
    resolve_again (int n) h = again (resolve_dynamic_times base') h refl
    resolve_again (float x) h = again (resolve_dynamic_times base') h refl
    resolve_again (str s) {w} h =
        let (t, ht, h') = >>=-eq-ok (parse_dynamic_time s base) _ h in
        again (resolve_dynamic_times base') h'
          (rw (parse_dynamic_time_of_no_match t base' (parse_dynamic_time-no_match s base ht)))
    resolve_again (arr xs) {w} h =
        let (ys, hy, h') = >>=-eq-ok (resolve_items base xs) _ h in
        again (resolve_dynamic_times base') h' (rw (resolve_items_again xs hy))
    resolve_again (obj fs) {w} h =
        let (gs, hg, h') = >>=-eq-ok (resolve_fields base fs) _ h in
        again (resolve_dynamic_times base') h' (rw (resolve_fields_again fs hg))

    resolve_items_again :
        (xs : Items F) {ys : Items F}
        → resolve_items base xs ≡ ok ys
        → resolve_items base' ys ≡ ok ys
    resolve_items_again nil h = again (resolve_items base') h refl
    resolve_items_again (cons x xs) h =
        let (y, hy, h') = >>=-eq-ok (resolve_dynamic_times base x) _ h in
        let (ys, hys, h'') = >>=-eq-ok (resolve_items base xs) _ h' in
        again (resolve_items base') h'' (rw (resolve_again x hy, resolve_items_again xs hys))

    resolve_fields_again :
        (fs : Fields F) {gs : Fields F}
        → resolve_fields base fs ≡ ok gs
        → resolve_fields base' gs ≡ ok gs
    resolve_fields_again end h = again (resolve_fields base') h refl
    resolve_fields_again (field k v fs) h =
        let (w, hw, h') = >>=-eq-ok (resolve_dynamic_times base v) _ h in
        let (gs, hg, h'') = >>=-eq-ok (resolve_fields base fs) _ h' in
        again (resolve_fields base') h'' (rw (resolve_again v hw, resolve_fields_again fs hg))

module _ {F : Type 0} (base : ℕ) where
  -- A value and another one that differs from it only in the texts, which are resolved wherever
  -- they stand.
  mutual
    pub Resolves : Json F → Json F → Type 0
    Resolves null null = Unit
    Resolves (bool b) (bool c) = b ≡ c
    Resolves (int n) (int m) = n ≡ m
    Resolves (float x) (float y) = x ≡ y
    Resolves (str s) (str t) = TextResolves base s t
    Resolves (arr xs) (arr ys) = ItemsResolve xs ys
    Resolves (obj fs) (obj gs) = FieldsResolve fs gs
    Resolves _ _ = ⊥

    pub ItemsResolve : Items F → Items F → Type 0
    ItemsResolve nil nil = Unit
    ItemsResolve (cons x xs) (cons y ys) = Resolves x y × ItemsResolve xs ys
    ItemsResolve _ _ = ⊥

    pub FieldsResolve : Fields F → Fields F → Type 0
    FieldsResolve end end = Unit
    FieldsResolve (field k v fs) (field l w gs) = (k ≡ l) × Resolves v w × FieldsResolve fs gs
    FieldsResolve _ _ = ⊥

  mutual
    unfolding resolve_dynamic_times Resolves ItemsResolve FieldsResolve

    Resolves-resolved :
        (v : Json F) {w : Json F} → resolve_dynamic_times base v ≡ ok w → Resolves v w
    Resolves-resolved null h = subst (Resolves null) (ok-injective h) tt
    Resolves-resolved (bool b) h = subst (Resolves (bool b)) (ok-injective h) refl
    Resolves-resolved (int n) h = subst (Resolves (int n)) (ok-injective h) refl
    Resolves-resolved (float x) h = subst (Resolves (float x)) (ok-injective h) refl
    Resolves-resolved (str s) h =
        let (t, ht, h') = >>=-eq-ok (parse_dynamic_time s base) _ h in
        subst (Resolves (str s)) (ok-injective h') (TextResolves-parse_dynamic_time base s ht)
    Resolves-resolved (arr xs) h =
        let (ys, hy, h') = >>=-eq-ok (resolve_items base xs) _ h in
        subst (Resolves (arr xs)) (ok-injective h') (ItemsResolve-resolved xs hy)
    Resolves-resolved (obj fs) h =
        let (gs, hg, h') = >>=-eq-ok (resolve_fields base fs) _ h in
        subst (Resolves (obj fs)) (ok-injective h') (FieldsResolve-resolved fs hg)

    ItemsResolve-resolved :
        (xs : Items F) {ys : Items F} → resolve_items base xs ≡ ok ys → ItemsResolve xs ys
    ItemsResolve-resolved nil h = subst (ItemsResolve nil) (ok-injective h) tt
    ItemsResolve-resolved (cons x xs) h =
        let (y, hy, h') = >>=-eq-ok (resolve_dynamic_times base x) _ h in
        let (ys, hys, h'') = >>=-eq-ok (resolve_items base xs) _ h' in
        subst (ItemsResolve (cons x xs)) (ok-injective h'')
          (Resolves-resolved x hy, ItemsResolve-resolved xs hys)

    FieldsResolve-resolved :
        (fs : Fields F) {gs : Fields F} → resolve_fields base fs ≡ ok gs → FieldsResolve fs gs
    FieldsResolve-resolved end h = subst (FieldsResolve end) (ok-injective h) tt
    FieldsResolve-resolved (field k v fs) h =
        let (w, hw, h') = >>=-eq-ok (resolve_dynamic_times base v) _ h in
        let (gs, hg, h'') = >>=-eq-ok (resolve_fields base fs) _ h' in
        subst (FieldsResolve (field k v fs)) (ok-injective h'')
          (refl, Resolves-resolved v hw, FieldsResolve-resolved fs hg)

module _ {F : Type 0} (base base' : ℕ) where
  -- What `resolve_dynamic_times` returns is its argument with each text that is a time expression,
  -- in lists and objects at any depth, replaced by the time that its sign, amount and unit
  -- give, and everything else as it was; a second run over it, at any base time, returns it as it is and
  -- raises nothing.
  pub resolve_dynamic_times_idem :
      (v : Json F) {w : Json F}
      → resolve_dynamic_times base v ≡ ok w
      → Resolves base v w × (resolve_dynamic_times base' w ≡ ok w)
  resolve_dynamic_times_idem v h = (Resolves-resolved base v h, resolve_again base base' v h)
