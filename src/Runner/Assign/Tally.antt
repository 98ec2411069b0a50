-- ===== src/Runner/Assign/Tally.antt =====
-- The dictionary of the counts: what the two loops that write it leave for each scenario, and what
-- the last loop makes of it.
use delayed_order_sms_flink.Base.{
  occurs, Distinct, occurs-append, ℕ, zero, suc, ◌*◌, ◌≡◌, refl, sym, ◌∙◌, ap, ap₂, subst, false,
  List, [], ◌∷◌, ◌++◌, map, length, replicate, length-append, length-replicate, sum_over, All, Text,
  text_eq, text_eq_iff, text_eq_refl, if◌then◌else◌, ℤ, pos, negsuc, pos_part, neg_part, ◌+ℤ◌, ◌*ℤ◌,
  int_laws, ok, >>=-eq-ok, ok-injective, Bool-cases, arith, inl, inr,
}
use delayed_order_sms_flink.Json.Numbers.{Floats}
use delayed_order_sms_flink.Runner.Assign.{
  Share, Counts, get_count, set_count, repeat, share, shares, add_ones, expand,
}

occurs-cons_zero :
    (x y : Text) (ys : List Text)
    → occurs x (y ∷ ys) ≡ 0
    → (text_eq y x ≡ false) × (occurs x ys ≡ 0)
unfolding occurs
occurs-cons_zero x y ys h = ground arith

abbrev pub names : {F : Type 0} → List (Share F) → List Text
names = map (λ s. s.scenario)

get_count-set_count :
    (x y : Text) (n : ℤ) (counts : Counts)
    → get_count x (set_count y n counts) ≡ (if text_eq y x then ok n else get_count x counts)
unfolding get_count set_count
get_count-set_count x y n [] = refl
get_count-set_count x y n ((z, m) ∷ counts) =
    ground
      (arith, get_count-set_count x y n counts, text_eq_iff z y, text_eq_iff z x, text_eq_iff y x)

module _ (fl : Floats) where
  -- Each scenario has one more for each time that it is listed.
  pub get_count-add_ones :
      (ss : List (Share fl.Float)) (counts : Counts) {counts' : Counts} (x : Text) (n : ℤ)
      → add_ones fl ss counts ≡ ok counts'
      → get_count x counts ≡ ok n
      → get_count x counts' ≡ ok (n +ℤ pos (occurs x (names ss)))
  unfolding add_ones occurs
  get_count-add_ones [] counts {counts' = counts'} x n h k =
      let same : counts ≡ counts' = ok-injective h in rw (← same) (k ∙ ap ok (omega int_laws))
  get_count-add_ones (s ∷ ss) counts {counts'} x n h k =
      let (m, hm, h') = >>=-eq-ok (get_count s.scenario counts) _ h in
      elim (Bool-cases (text_eq s.scenario x)) [
        | inl e ↦
            let same : m ≡ n =
              ok-injective
                (sym hm ∙ (ap (λ y. get_count y counts) ((text_eq_iff s.scenario x).0 e) ∙ k)) in
            get_count-add_ones ss _ x (m +ℤ pos 1) h' (get_count-set_count x _ _ counts ∙ rw e)
            ∙ ap ok (rw e (omega (int_laws, ap pos_part same, ap neg_part same)))
        | inr e ↦
            get_count-add_ones ss _ x n h' (get_count-set_count x _ _ counts ∙ rw e k)
            ∙ ap ok (rw e (omega int_laws))
      ]

  All-set_count :
      (y : Text) (m : ℤ) (counts : Counts) (ss : List (Share fl.Float))
      → All (λ s. (n : ℤ) × (get_count s.scenario counts ≡ ok n)) ss
      → All (λ s. (n : ℤ) × (get_count s.scenario (set_count y m counts) ≡ ok n)) ss
  All-set_count y m counts [] h = tt
  All-set_count y m counts (s ∷ ss) ((n, hn), h) = (
    (
      if text_eq y s.scenario then m else n,
      get_count-set_count s.scenario y m counts
          ∙ elim (Bool-cases (text_eq y s.scenario)) [ inl e ↦ rw e | inr e ↦ rw e hn ],
    ),
    All-set_count y m counts ss h,
  )

  pub add_ones-ok :
      (ss : List (Share fl.Float)) (counts : Counts)
      → All (λ s. (n : ℤ) × (get_count s.scenario counts ≡ ok n)) ss
      → (counts' : Counts) × (add_ones fl ss counts ≡ ok counts')
  unfolding add_ones
  add_ones-ok [] counts h = (counts, refl)
  add_ones-ok (s ∷ ss) counts ((n, hn), h) =
      let (counts', e) =
        add_ones-ok ss (set_count s.scenario (n +ℤ pos 1) counts)
          (All-set_count s.scenario (n +ℤ pos 1) counts ss h) in
      (counts', rw hn e)

module _ (fl : Floats) (orders_count total : ℤ) where
  scenario-share :
      (w : Text × ℤ) {s : Share fl.Float} → share fl orders_count total w ≡ ok s → s.scenario ≡ w.0
  unfolding share
  scenario-share w {s} h =
      let (exact, _, h') = >>=-eq-ok (fl.divide (orders_count *ℤ w.1) total) _ h in
      let (n, _, h'') = >>=-eq-ok (fl.to_int exact) _ h' in
      let (f, _, h3) = >>=-eq-ok (fl.minus_int exact n) _ h'' in
      sym (ap (λ s. s.scenario) (ok-injective h3))

  -- The loop lists the scenarios in the order of the weights.
  pub names-shares :
      (weighted : List (Text × ℤ)) (counts : Counts) {ss : List (Share fl.Float)} {counts' : Counts}
      → shares fl orders_count total weighted counts ≡ ok (ss, counts')
      → names ss ≡ map (λ w. w.0) weighted
  unfolding shares
  names-shares [] counts h = ap (λ r. names r.0) (sym (ok-injective h))
  names-shares (w ∷ weighted) counts h =
      let (s, hs, h') = >>=-eq-ok (share fl orders_count total w) _ h in
      let ((rest, c), hr, h'') = >>=-eq-ok (shares fl orders_count total weighted _) _ h' in
      ap (λ r. names r.0) (sym (ok-injective h''))
      ∙ ap₂ (λ x r. x ∷ r) (scenario-share w hs) (names-shares weighted _ hr)

  -- The dictionary holds what it held of a name that no share has.
  get_count-shares_other :
      (weighted : List (Text × ℤ)) (counts : Counts) {ss : List (Share fl.Float)} {counts' : Counts}
      (x : Text)
      → shares fl orders_count total weighted counts ≡ ok (ss, counts')
      → occurs x (names ss) ≡ 0
      → get_count x counts' ≡ get_count x counts
  unfolding shares
  get_count-shares_other [] counts x h k = ap (λ r. get_count x r.1) (sym (ok-injective h))
  get_count-shares_other (w ∷ weighted) counts {ss} x h k =
      let (s, hs, h') = >>=-eq-ok (share fl orders_count total w) _ h in
      let ((rest, c), hr, h'') = >>=-eq-ok (shares fl orders_count total weighted _) _ h' in
      let whole : occurs x (names (s ∷ rest)) ≡ 0 =
        ap (λ r. occurs x (names r.0)) (ok-injective h'') ∙ k in
      let (other, none_in_rest) = occurs-cons_zero x s.scenario (names rest) whole in
      ap (λ r. get_count x r.1) (sym (ok-injective h''))
      ∙ (get_count-shares_other weighted _ x hr none_in_rest
          ∙ (get_count-set_count x s.scenario s.floor_count counts ∙ rw other))

  -- The dictionary holds the rounded count of each share.
  abbrev pub HoldsFloors : List (Share fl.Float) × Counts → Type 0
  HoldsFloors (ss, counts) =
      Distinct (names ss) → All (λ s. get_count s.scenario counts ≡ ok s.floor_count) ss

  pub HoldsFloors-shares :
      (weighted : List (Text × ℤ)) (counts : Counts) {r : List (Share fl.Float) × Counts}
      → shares fl orders_count total weighted counts ≡ ok r
      → HoldsFloors r
  unfolding shares
  HoldsFloors-shares [] counts h = subst HoldsFloors (ok-injective h) (λ _. tt)
  HoldsFloors-shares (w ∷ weighted) counts h =
      let (s, hs, h') = >>=-eq-ok (share fl orders_count total w) _ h in
      let ((rest, c), hr, h'') = >>=-eq-ok (shares fl orders_count total weighted _) _ h' in
      subst HoldsFloors (ok-injective h'') λ (fresh, d). (
        get_count-shares_other weighted _ s.scenario hr fresh
            ∙ (get_count-set_count s.scenario s.scenario s.floor_count counts
                ∙ rw (text_eq_refl s.scenario)),
        HoldsFloors-shares weighted _ hr d,
      )

-- The last loop's list, from the counts of the names.
unfoldable pub expanded : (Text → ℤ) → List Text → List Text
expanded g [] = []
expanded g (x ∷ xs) = repeat (g x) x ++ expanded g xs

module _ (fl : Floats) (g : Text → ℤ) (counts : Counts) where
  pub expand_lem :
      (ss : List (Share fl.Float))
      → All (λ s. get_count s.scenario counts ≡ ok (g s.scenario)) ss
      → expand fl ss counts ≡ ok (expanded g (names ss))
  unfolding expand expanded
  expand_lem [] h = refl
  expand_lem (s ∷ ss) (hs, h) = rw (hs, expand_lem ss h)

length-repeat : (n : ℤ) (x : Text) → length (repeat n x) ≡ pos_part n
unfolding repeat
length-repeat (pos n) x = length-replicate n x
length-repeat (negsuc n) x = refl

occurs-replicate : (n : ℕ) (x y : Text) → occurs x (replicate n y) ≡ (if text_eq y x then n else 0)
unfolding occurs
occurs-replicate zero x y = ground arith
occurs-replicate (suc n) x y = ground (arith, occurs-replicate n x y)

occurs-repeat :
    (n : ℤ) (x y : Text) → occurs x (repeat n y) ≡ (if text_eq y x then pos_part n else 0)
unfolding repeat
occurs-repeat (pos n) x y = occurs-replicate n x y
occurs-repeat (negsuc n) x y = unfold occurs in ground arith

-- Each name is listed once for each time that its count says, and its own place in the names.
pub occurs-expanded :
    (g : Text → ℤ) (x : Text) (xs : List Text)
    → occurs x (expanded g xs) ≡ occurs x xs * pos_part (g x)
unfolding expanded occurs
occurs-expanded g x [] = omega arith
occurs-expanded g x (y ∷ ys) =
    occurs-append x (repeat (g y) y) (expanded g ys) ∙ elim (Bool-cases (text_eq y x)) [
      | inl e ↦
          rw (occurs-repeat, occurs-expanded g x ys, occurs, e)
            (rw ((text_eq_iff y x).0 e) (omega arith))
      | inr e ↦ rw (occurs-repeat, occurs-expanded g x ys, occurs, e) (omega arith)
    ]

pub length-expanded :
    (g : Text → ℤ) (xs : List Text) → length (expanded g xs) ≡ sum_over (λ x. pos_part (g x)) xs
unfolding expanded sum_over
length-expanded g [] = refl
length-expanded g (x ∷ xs) = omega (
  arith,
  length-append (repeat (g x) x) (expanded g xs),
  length-repeat (g x) x,
  length-expanded g xs,
)
