-- ===== src/Time/Expression/Spells.antt =====
-- Which texts the groups of a match spell behind `now`.
use delayed_order_sms_flink.Base.{
  ◌≡◌, refl, ap, ◌∙◌, inl, inr, true, Option, none, some, List, [], ◌∷◌, ◌++◌, append_assoc, Text,
  codes, strip_prefix, strip_prefix-eq-some, arith, ==_iff, Bool-cases, Option-cases,
}
use delayed_order_sms_flink.Time.Digits.{AllDecimal}
use delayed_order_sms_flink.Time.Expression.{
  TimeUnit, sign_text, unit_text, TimeMatch, take_sign, span_digits, amount_group, at_end,
  try_units, units, take_unit, match_behind_now, match_time,
}
use delayed_order_sms_flink.Time.Expression.Grammar.{
  written, spelling, IsTail, nothing, line_break, IsAmount,
}

span_digits-decimal : (s : Text) → AllDecimal (span_digits s).0
unfolding span_digits
span_digits-decimal [] = tt
span_digits-decimal (c ∷ s) = ground (arith, span_digits-decimal s)

span_digits-spells : (s : Text) → s ≡ (span_digits s).0 ++ (span_digits s).1
unfolding span_digits
span_digits-spells [] = refl
span_digits-spells (c ∷ s) = ground (arith, span_digits-spells s)

take_sign-spells : (s : Text) → s ≡ written sign_text (take_sign s).0 ++ (take_sign s).1
unfolding take_sign
take_sign-spells [] = refl
take_sign-spells (c ∷ s) = ground arith

at_end-IsTail : (s : Text) → at_end s ≡ true → IsTail s
unfolding at_end
at_end-IsTail [] h = nothing
at_end-IsTail (c ∷ []) h = rw ((==_iff c 10).0 h) line_break
at_end-IsTail (c ∷ d ∷ s) h = cc

-- The text is a unit, or none, in front of an end.
abbrev EndsWithUnit : Text → Option TimeUnit → Type 0
EndsWithUnit s o = (t : Text) × IsTail t × (s ≡ written unit_text o ++ t)

try_units-spells :
    (us : List TimeUnit) (s : Text) (o : Option TimeUnit)
    → try_units us s ≡ some o
    → EndsWithUnit s o
unfolding try_units
try_units-spells [] s o h = elim (Bool-cases (at_end s)) [
  | inl e ↦ let eo : none ≡ o = ground arith in rw (← eo) (s, at_end-IsTail s e, refl)
  | inr e ↦ absurd (ground arith)
]
try_units-spells (u ∷ us) s o h = elim (Option-cases (strip_prefix (unit_text u) s)) [
  | inl e ↦ try_units-spells us s o (ground arith)
  | inr (r, e) ↦ elim (Bool-cases (at_end r)) [
    | inl last ↦
        let eo : some u ≡ o = ground arith in
        rw (← eo) (r, at_end-IsTail r last, strip_prefix-eq-some (unit_text u) s e)
    | inr more ↦ try_units-spells us s o (ground arith)
  ]
]

take_unit-spells : (s : Text) (o : Option TimeUnit) → take_unit s ≡ some o → EndsWithUnit s o
unfolding take_unit
take_unit-spells s o h = try_units-spells units s o h

amount_group-spells : (t : Text) → written (λ a. a) (amount_group t) ≡ t
amount_group-spells [] = refl
amount_group-spells (c ∷ t) = refl

IsAmount-group : (t : Text) → AllDecimal t → IsAmount (amount_group t)
IsAmount-group [] h = tt
IsAmount-group (c ∷ t) h = (λ e. cc, h)

-- A text that is matched spells the groups of its match behind `now`, in front of an end.
abbrev pub Spells : Text → TimeMatch → Type 0
Spells s m = (t : Text) × IsTail t × IsAmount m.amount × (s ≡ codes "now" ++ (spelling m ++ t))

regroup :
    (a b c t s s' s'' : Text)
    → s ≡ a ++ s'
    → s' ≡ b ++ s''
    → s'' ≡ c ++ t
    → s ≡ (a ++ (b ++ c)) ++ t
regroup a b c t s s' s'' p q r = rw (p, q, r) (simp append_assoc)

behind_now-spells :
    (s : Text) (m : TimeMatch)
    → match_behind_now (some s) ≡ some m
    → (t : Text) × IsTail t × IsAmount m.amount × (s ≡ spelling m ++ t)
unfolding match_behind_now
behind_now-spells s m h =
    let (sign, s') = take_sign s in
    let (ds, s'') = span_digits s' in
    elim (Option-cases (take_unit s'')) [
      | inl e ↦ absurd (ground arith)
      | inr (u, e) ↦
          let same : record { sign = sign; amount = amount_group ds; unit = u } ≡ m =
            ground arith in
          let (t, tail, eq) = take_unit-spells s'' u e in
          rw (← same) (
            t,
            tail,
            IsAmount-group ds (span_digits-decimal s'),
            rw (amount_group-spells ds)
                (regroup _ _ _ _ _ _ _ (take_sign-spells s) (span_digits-spells s') eq),
          )
    ]

-- Every text that is matched spells the groups of its match behind `now`, in front of an end or a
-- line break that ends it, and its amount is one or more digits where there is one.
pub match_time-Spells : (s : Text) (m : TimeMatch) → match_time s ≡ some m → Spells s m
unfolding match_time match_behind_now
match_time-Spells s m h = elim (Option-cases (strip_prefix (codes "now") s)) [
  | inl e ↦ absurd (ground arith)
  | inr (r, e) ↦
      let (t, tail, amount, eq) = behind_now-spells r m (ground arith) in
      (t, tail, amount, strip_prefix-eq-some (codes "now") s e ∙ ap (λ x. codes "now" ++ x) eq)
]
