-- ===== src/Runner/Names/Normal.antt =====
-- `_normalize_name` makes slugs.
use delayed_order_sms_flink.Base.{
  ℕ, ◌==◌, if◌then◌else◌, Bool, true, false, not, ◌&&◌, ◌≡◌, refl, sym, ◌∙◌, ap, subst, [], ◌∷◌,
  ◌++◌, map, Text, codes, strip_prefix, remove_suffix, arith, Bool-cases, inl, inr, ◌⊎◌, ap₂,
}
use mathlib.Core.List.{reverse, reverse-cons, reverse-append, reverse-reverse}
use delayed_order_sms_flink.Runner.Names.{
  is_alphanumeric, dash_runs, strip_front, strip_dashes, to_lower, normalize_name,
}
use delayed_order_sms_flink.Runner.Names.Slug.{
  is_slug_letter, slug_from, IsSlug, front_dash, last_dash, front_dash-reverse,
  normalize_name_of_slug,
}

-- Letters and digits of either case, without two dashes in a row, and none in front if the flag is
-- set.
unfoldable spaced : Bool → Text → Bool
spaced inside [] = true
spaced inside (c ∷ s) =
    let word = spaced false s in
    let gap = spaced true s in if is_alphanumeric c then word else not inside && (c == b'-') && gap

-- What the steps make is spaced.
spaced-gap :
    (i : Bool) (s : Text)
    → spaced true (dash_runs true s) ≡ true
    → spaced i (if i then dash_runs true s else b'-' ∷ dash_runs true s) ≡ true
unfolding spaced
spaced-gap true s h = h
spaced-gap false s h = h

spaced-dash_runs : (i : Bool) (s : Text) → spaced i (dash_runs i s) ≡ true
unfolding spaced dash_runs
spaced-dash_runs i [] = refl
spaced-dash_runs i (c ∷ s) = elim (Bool-cases (is_alphanumeric c)) [
  | inl e ↦ rw e (rw e (spaced-dash_runs false s))
  | inr e ↦ rw e (spaced-gap i s (spaced-dash_runs true s))
]

spaced-strip_front : (i : Bool) (s : Text) → spaced i s ≡ true → spaced true (strip_front s) ≡ true
unfolding spaced strip_front
spaced-strip_front i [] h = refl
spaced-strip_front i (c ∷ s) h = elim (Bool-cases (c == b'-')) [
  | inl e ↦ rw e (spaced-strip_front true s (ground arith))
  | inr e ↦ rw e (ground arith)
]

spaced-prefix : (i : Bool) (s t : Text) → spaced i (s ++ t) ≡ true → spaced i s ≡ true
unfolding spaced
spaced-prefix i [] t h = refl
spaced-prefix i (c ∷ s) t h = ground (arith, spaced-prefix false s t, spaced-prefix true s t)

slug_of_spaced :
    (b : Bool) (s : Text)
    → spaced (not b) s ≡ true
    → last_dash (not b) s ≡ false
    → slug_from b (map to_lower s) ≡ true
unfolding spaced last_dash slug_from
slug_of_spaced b [] h e = ground arith
slug_of_spaced b (c ∷ s) h e = elim (Bool-cases (is_alphanumeric c)) [
  | inl k ↦
      let not_dash : (c == b'-') ≡ false = ground arith in
      let letter : is_slug_letter (to_lower c) ≡ true = ground arith in
      rw letter
        (slug_of_spaced true s (ground arith) (subst (λ d. last_dash d s ≡ false) not_dash e))
  | inr k ↦
      let dash : (c == b'-') ≡ true = ground arith in
      let rest : slug_from false (map to_lower s) ≡ true =
        slug_of_spaced false s (ground arith) (subst (λ d. last_dash d s ≡ false) dash e) in
      ground arith
]

front_dash-strip_front :
    (s : Text) → (strip_front s ≡ []) ⊎ (front_dash true (strip_front s) ≡ false)
unfolding front_dash strip_front
front_dash-strip_front [] = inl refl
front_dash-strip_front (c ∷ s) = elim (Bool-cases (c == b'-')) [
  | inl e ↦ rw e (front_dash-strip_front s)
  | inr e ↦ rw e (inr e)
]

strip_front-split : (s : Text) → (p : Text) × (s ≡ p ++ strip_front s)
unfolding strip_front
strip_front-split [] = ([], refl)
strip_front-split (c ∷ s) = elim (Bool-cases (c == b'-')) [
  | inl e ↦ let (p, q) = strip_front-split s in (c ∷ p, rw e (ap (λ t. c ∷ t) q))
  | inr e ↦ rw e ([], refl)
]

-- Spaced texts keep their spaces when dashes are stripped at their ends.
spaced-strip_back :
    (s : Text) → spaced true s ≡ true → spaced true (reverse (strip_front (reverse s))) ≡ true
spaced-strip_back s h =
    let (p, q) = strip_front-split (reverse s) in
    let split : s ≡ reverse (strip_front (reverse s)) ++ reverse p =
      sym (reverse-reverse s) ∙ (ap reverse q ∙ reverse-append p (strip_front (reverse s))) in
    spaced-prefix true (reverse (strip_front (reverse s))) (reverse p)
      (ap (spaced true) (sym split) ∙ h)

IsSlug-map :
    (s : Text) → spaced true (strip_dashes s) ≡ true → IsSlug (map to_lower (strip_dashes s))
unfolding strip_dashes
IsSlug-map s k =
    let t = strip_front (reverse (strip_front s)) in
    elim (front_dash-strip_front (reverse (strip_front s))) [
      | inl e ↦ inl (ap (λ x. map to_lower (reverse x)) e)
      | inr e ↦ inr (
          slug_of_spaced false (reverse t) k (
            sym (front_dash-reverse true (reverse t))
            ∙ (ap (front_dash true) (reverse-reverse t) ∙ e)))
    ]

normalize_name-IsSlug : (value : Text) → IsSlug (normalize_name value)
unfolding normalize_name strip_dashes
normalize_name-IsSlug value =
    let name = remove_suffix (codes ".json") value in
    let runs = dash_runs false name in
    IsSlug-map runs (
      spaced-strip_back (strip_front runs)
        (spaced-strip_front false runs (spaced-dash_runs false name)))

normalize_name_of_IsSlug : (s : Text) → IsSlug s → normalize_name s ≡ s
unfolding normalize_name strip_dashes strip_front dash_runs remove_suffix strip_prefix
normalize_name_of_IsSlug s (inl e) = ap normalize_name e ∙ sym e
normalize_name_of_IsSlug s (inr h) = normalize_name_of_slug s h

-- The letters and digits of a text
unfoldable pub letters : Text → Text
letters [] = []
letters (c ∷ s) = let rest = letters s in if is_alphanumeric c then c ∷ rest else rest

letters-append : (s t : Text) → letters (s ++ t) ≡ letters s ++ letters t
unfolding letters
letters-append [] t = refl
letters-append (c ∷ s) t =
    rw (letters-append s t)
      (elim (Bool-cases (is_alphanumeric c)) [ inl e ↦ rw e refl | inr e ↦ rw e refl ])

letters-one : (c : ℕ) → letters (c ∷ []) ≡ reverse (letters (c ∷ []))
unfolding letters
letters-one c = elim (Bool-cases (is_alphanumeric c)) [ inl e ↦ rw e refl | inr e ↦ rw e refl ]

letters-reverse : (s : Text) → letters (reverse s) ≡ reverse (letters s)
unfolding letters
letters-reverse [] = refl
letters-reverse (c ∷ s) =
    ap letters (reverse-cons c s)
    ∙ (letters-append (reverse s) (c ∷ [])
        ∙ (ap₂ (λ x y. x ++ y) (letters-reverse s) (letters-one c)
            ∙ (sym (reverse-append (letters (c ∷ [])) (letters s))
                ∙ ap reverse (sym (letters-append (c ∷ []) s)))))

letters-gap :
    (i : Bool) (s : Text)
    → letters (dash_runs true s) ≡ letters s
    → letters (if i then dash_runs true s else b'-' ∷ dash_runs true s) ≡ letters s
unfolding letters
letters-gap true s h = h
letters-gap false s h = h

letters-dash_runs : (i : Bool) (s : Text) → letters (dash_runs i s) ≡ letters s
unfolding letters dash_runs
letters-dash_runs i [] = refl
letters-dash_runs i (c ∷ s) = elim (Bool-cases (is_alphanumeric c)) [
  | inl e ↦ rw e (rw e (ap (λ r. c ∷ r) (letters-dash_runs false s)))
  | inr e ↦ rw e (letters-gap i s (letters-dash_runs true s))
]

letters-strip_front : (s : Text) → letters (strip_front s) ≡ letters s
unfolding letters strip_front
letters-strip_front [] = refl
letters-strip_front (c ∷ s) = elim (Bool-cases (c == b'-')) [
  | inl e ↦
      let none_of : is_alphanumeric c ≡ false = ground arith in
      rw (e, none_of) (letters-strip_front s)
  | inr e ↦ rw e refl
]

letters-strip_dashes : (s : Text) → letters (strip_dashes s) ≡ letters s
unfolding strip_dashes
letters-strip_dashes s =
    let front = strip_front s in
    letters-reverse (strip_front (reverse front))
    ∙ (ap reverse (letters-strip_front (reverse front) ∙ letters-reverse front)
        ∙ (reverse-reverse (letters front) ∙ letters-strip_front s))

letters-to_lower : (s : Text) → letters (map to_lower s) ≡ map to_lower (letters s)
unfolding letters
letters-to_lower [] = refl
letters-to_lower (c ∷ s) =
    let same : is_alphanumeric (to_lower c) ≡ is_alphanumeric c = ground arith in
    rw (same, letters-to_lower s)
      (elim (Bool-cases (is_alphanumeric c)) [ inl e ↦ rw e refl | inr e ↦ rw e refl ])

letters-normalize_name :
    (value : Text)
    → letters (normalize_name value) ≡ map to_lower (letters (remove_suffix (codes ".json") value))
unfolding normalize_name
letters-normalize_name value =
    let name = remove_suffix (codes ".json") value in
    letters-to_lower (strip_dashes (dash_runs false name))
    ∙ ap (map to_lower) (letters-strip_dashes (dash_runs false name) ∙ letters-dash_runs false name)

-- What a name is normalized to is a slug, which consists of runs of small ASCII letters and digits
-- with single dashes between them. Its letters and digits are those of the name without its suffix
-- `.json`, in their order and in small letters. A name that is a slug stays as it is.
pub normalize_name_lem :
    (value slug : Text)
    → IsSlug slug
    → IsSlug (normalize_name value)
      × (letters (normalize_name value)
          ≡ map to_lower (letters (remove_suffix (codes ".json") value)))
      × (normalize_name slug ≡ slug)
normalize_name_lem value slug is_slug = (
  normalize_name-IsSlug value,
  letters-normalize_name value,
  normalize_name_of_IsSlug slug is_slug,
)
