-- ===== src/Runner/Assign/Rest.antt =====
-- The shares are sorted by what is left of them: those that are not whole come first, so that the
-- orders that are left over go to them.
use delayed_order_sms_flink.Base.{
  occurs, occurs-append, ℕ, zero, suc, ◌+◌, ◌≤◌, ◌≡◌, refl, sym, ◌∙◌, ap, subst, true, false, not,
  List, [], ◌∷◌, ◌++◌, take, length, All-map₂, length-map, length-map, sum_over, All, All-map,
  All-append, text_eq_refl, arith, Bool-cases, inl, inr,
}
use mathlib.Core.List.{map-append}
use delayed_order_sms_flink.Json.Numbers.{Floats}
use delayed_order_sms_flink.Runner.Assign.{Share, insert_share, sort_shares}
use delayed_order_sms_flink.Runner.Assign.Tally.{names}
use delayed_order_sms_flink.Runner.Assign.Distinct.{occurs-take-le}
use delayed_order_sms_flink.Runner.Assign.Quota.{DividesExactly, up}

module _ (fl : Floats) (exact : DividesExactly fl) where
  abbrev IsZero : Share fl.Float → Type 0
  IsZero s = exact.is_zero s.fraction ≡ true

  abbrev IsPositive : Share fl.Float → Type 0
  IsPositive s = exact.is_positive s.fraction ≡ true

  -- What the fraction of a share is: 0.0 or positive.
  abbrev pub IsRest : Share fl.Float → Type 0
  IsRest s = exact.is_positive s.fraction ≡ not (exact.is_zero s.fraction)

  -- The positive ones first
  abbrev pub PositiveFirst : List (Share fl.Float) → Type 0
  PositiveFirst ss =
      (ps zs : List (Share fl.Float)) × (ss ≡ ps ++ zs) × All IsPositive ps × All IsZero zs

  insert_none_up :
      (s : Share fl.Float) (zs : List (Share fl.Float))
      → IsZero s
      → All IsZero zs
      → All IsZero (insert_share fl s zs)
  unfolding insert_share
  insert_none_up s [] h hz = (h, tt)
  insert_none_up s (z ∷ zs) h (hz, hzs) = elim (Bool-cases (fl.lt s.fraction z.fraction)) [
    | inl e ↦ rw e (hz, insert_none_up s zs h hzs)
    | inr e ↦ rw e (h, (hz, hzs))
  ]

  -- A share of 0.0 goes behind the positive ones.
  zero-PositiveFirst :
      (s : Share fl.Float) (ps zs : List (Share fl.Float))
      → IsZero s
      → All IsPositive ps
      → All IsZero zs
      → PositiveFirst (insert_share fl s (ps ++ zs))
  unfolding insert_share
  zero-PositiveFirst s [] zs h hp hz =
      ([], insert_share fl s zs, refl, tt, insert_none_up s zs h hz)
  zero-PositiveFirst s (p ∷ ps) zs h (hp, hps) hz =
      let (ps', zs', e, h', hz') = zero-PositiveFirst s ps zs h hps hz in
      (
        p ∷ ps',
        zs',
        rw (exact.lt_positive s.fraction p.fraction h hp) (ap (λ r. p ∷ r) e),
        (hp, h'),
        hz',
      )

  -- A positive share goes in front of those of 0.0.
  positive-PositiveFirst :
      (s : Share fl.Float) (ps zs : List (Share fl.Float))
      → IsPositive s
      → All IsPositive ps
      → All IsZero zs
      → PositiveFirst (insert_share fl s (ps ++ zs))
  unfolding insert_share
  positive-PositiveFirst s [] [] h hp hz = (s ∷ [], [], refl, (h, tt), tt)
  positive-PositiveFirst s [] (z ∷ zs) h hp (hz, hzs) =
      (s ∷ [], z ∷ zs, rw (exact.lt_zero z.fraction s.fraction hz h) refl, (h, tt), (hz, hzs))
  positive-PositiveFirst s (p ∷ ps) zs h (hp, hps) hz =
      elim (Bool-cases (fl.lt s.fraction p.fraction)) [
        | inl e ↦
            let (ps', zs', e', h', hz') = positive-PositiveFirst s ps zs h hps hz in
            (p ∷ ps', zs', rw e (ap (λ r. p ∷ r) e'), (hp, h'), hz')
        | inr e ↦ (s ∷ p ∷ ps, zs, rw e refl, (h, (hp, hps)), hz)
      ]

  pub PositiveFirst-sort_shares :
      (ss : List (Share fl.Float)) → All IsRest ss → PositiveFirst (sort_shares fl ss)
  unfolding sort_shares
  PositiveFirst-sort_shares [] h = ([], [], refl, tt, tt)
  PositiveFirst-sort_shares (s ∷ ss) (hs, h) =
      let (ps, zs, e, hp, hz) = PositiveFirst-sort_shares ss h in
      subst (λ l. PositiveFirst (insert_share fl s l)) (sym e)
        (elim (Bool-cases (exact.is_zero s.fraction)) [
          | inl z ↦ zero-PositiveFirst s ps zs z hp hz
          | inr z ↦ positive-PositiveFirst s ps zs (hs ∙ ap not z) hp hz
        ])

  -- What rounding up adds to a share
  abbrev pub up_of : Share fl.Float → ℕ
  up_of s = up (exact.is_zero s.fraction)

  sum-positive : (ps : List (Share fl.Float)) → All IsPositive ps → sum_over up_of ps ≤ length ps
  unfolding sum_over
  sum-positive [] h = omega arith
  sum-positive (p ∷ ps) (hp, h) = elim (Bool-cases (exact.is_zero p.fraction)) [
    | inl e ↦ rw e (omega (arith, sum-positive ps h))
    | inr e ↦ rw e (omega (arith, sum-positive ps h))
  ]

  sum-zero : (zs : List (Share fl.Float)) → All IsZero zs → sum_over up_of zs ≡ 0
  unfolding sum_over
  sum-zero [] h = refl
  sum-zero (z ∷ zs) (hz, h) = rw hz (omega (arith, sum-zero zs h))

  sum_over-append :
      (xs ys : List (Share fl.Float))
      → sum_over up_of (xs ++ ys) ≡ sum_over up_of xs + sum_over up_of ys
  unfolding sum_over
  sum_over-append [] ys = omega arith
  sum_over-append (x ∷ xs) ys = omega (arith, sum_over-append xs ys)

take-front : {A : Type 0} (r : ℕ) (xs ys : List A) → r ≤ length xs → take r (xs ++ ys) ≡ take r xs
take-front zero xs ys h = refl
take-front (suc r) [] ys h = absurd (omega (arith, h))
take-front (suc r) (x ∷ xs) ys h = ap (λ l. x ∷ l) (take-front r xs ys (omega (arith, h)))

-- Each name stands among the names.
occurs-own : {F : Type 0} (ss : List (Share F)) → All (λ s. 1 ≤ occurs s.scenario (names ss)) ss
unfolding occurs
occurs-own [] = tt
occurs-own (s ∷ ss) = (
  rw (text_eq_refl s.scenario) (omega arith),
  All-map _ _ (λ t h. omega (arith, h)) ss (occurs-own ss),
)

All-split : {A : Type 0} (P : A → Type 0) (xs ys : List A) → All P (xs ++ ys) → All P xs × All P ys
All-split P [] ys h = (tt, h)
All-split P (x ∷ xs) ys (hx, h) = let (hxs, hys) = All-split P xs ys h in ((hx, hxs), hys)

module _ (fl : Floats) (exact : DividesExactly fl) where
  not_zero : (s : Share fl.Float) → IsPositive fl exact s → exact.is_zero s.fraction ≡ false
  not_zero s h = elim (Bool-cases (exact.is_zero s.fraction)) [
    | inr e ↦ e
    | inl e ↦
        let less = exact.lt_positive s.fraction s.fraction e h in
        let not_less = exact.lt_zero s.fraction s.fraction e h in
        absurd (let both = sym less ∙ not_less in cc)
  ]

  -- As many as are not whole, or fewer, get one more, and no other ones.
  few-parts :
      (r : ℕ) (ps zs : List (Share fl.Float))
      → All (IsPositive fl exact) ps
      → All (IsZero fl exact) zs
      → r ≤ length ps
      → All (λ s. occurs s.scenario (names (ps ++ zs)) ≡ 1) (ps ++ zs)
      → All (λ s. occurs s.scenario (take r (names (ps ++ zs))) ≤ up_of fl exact s) (ps ++ zs)
  few-parts r ps zs hp hz h once =
      let (once_ps, once_zs) = All-split _ ps zs once in
      let front : take r (names (ps ++ zs)) ≡ take r (names ps) =
        ap (take r) (map-append (λ s. s.scenario) ps zs)
        ∙ take-front r (names ps) (names zs) (omega (arith, h, length-map (λ s. s.scenario) ps)) in
      let at_positive : (s : Share fl.Float)
          → IsPositive fl exact s
          → occurs s.scenario (names (ps ++ zs)) ≡ 1
          → occurs s.scenario (take r (names (ps ++ zs))) ≤ up_of fl exact s =
        λ s positive one.
          rw (not_zero s positive)
            (omega (arith, one, occurs-take-le s.scenario r (names (ps ++ zs)))) in
      let at_zero : (s : Share fl.Float)
          → IsZero fl exact s × (1 ≤ occurs s.scenario (names zs))
          → occurs s.scenario (names (ps ++ zs)) ≡ 1
          → occurs s.scenario (take r (names (ps ++ zs))) ≤ up_of fl exact s =
        λ s (is_zero, own) one.
          let apart : occurs s.scenario (names (ps ++ zs))
              ≡ occurs s.scenario (names ps) + occurs s.scenario (names zs) =
            ap (occurs s.scenario) (map-append (λ s. s.scenario) ps zs)
            ∙ occurs-append s.scenario (names ps) (names zs) in
          rw (is_zero, front)
            (omega (arith, own, one, apart, occurs-take-le s.scenario r (names ps))) in
      All-append _ ps zs (All-map₂ at_positive ps hp once_ps) (
        All-map₂ at_zero zs (All-map₂ (λ s is_zero own. (is_zero, own)) zs hz (occurs-own zs))
          once_zs)

  pub few :
      (r : ℕ) (L : List (Share fl.Float))
      → PositiveFirst fl exact L
      → r ≤ sum_over (up_of fl exact) L
      → All (λ s. occurs s.scenario (names L) ≡ 1) L
      → All (λ s. occurs s.scenario (take r (names L)) ≤ up_of fl exact s) L
  few r L (ps, zs, e, hp, hz) =
      subst
        (λ L.
          r ≤ sum_over (up_of fl exact) L
          → All (λ s. occurs s.scenario (names L) ≡ 1) L
          → All (λ s. occurs s.scenario (take r (names L)) ≤ up_of fl exact s) L)
        (sym e)
        (λ h once.
          few-parts r ps zs hp hz
            (omega (
              arith,
              h,
              sum_over-append fl exact ps zs,
              sum-positive fl exact ps hp,
              sum-zero fl exact zs hz,
            ))
            once)
