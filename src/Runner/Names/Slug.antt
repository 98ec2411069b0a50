-- ===== src/Runner/Names/Slug.antt =====
-- `_normalize_name` leaves a slug as it is.
use delayed_order_sms_flink.Base.{
  ℕ, ◌==◌, leb, if◌then◌else◌, Bool, true, false, not, ◌&&◌, ◌||◌, ◌≡◌, refl, sym, ◌∙◌, ap, [], ◌∷◌,
  ◌++◌, map, Option, none, some, Text, codes, strip_prefix, remove_suffix, strip_prefix-eq-some,
  arith, Bool-cases, inl, inr, ◌⊎◌,
}
use mathlib.Core.List.{reverse, reverse-cons, reverse-append, reverse-reverse}
use delayed_order_sms_flink.Runner.Names.{
  dash_runs, strip_front, strip_dashes, to_lower, normalize_name,
}

-- `[a-z0-9]`
abbrev pub is_slug_letter : ℕ → Bool
is_slug_letter c = (leb b'a' c && leb c b'z') || (leb b'0' c && leb c b'9')

-- Whether a text goes on with slug letters and single dashes between them to a letter at the end.
-- The flag is set where a letter or digit came just before.
unfoldable pub slug_from : Bool → Text → Bool
slug_from behind [] = behind
slug_from behind (c ∷ s) =
    let word = slug_from true s in
    let gap = slug_from false s in if is_slug_letter c then word else behind && (c == b'-') && gap

-- A text of the form `([a-z0-9]+(-[a-z0-9]+)*)?`
abbrev pub IsSlug : Text → Type 0
IsSlug s = (s ≡ []) ⊎ (slug_from false s ≡ true)

-- Whether the first character, or the last one, is a dash; the flag stands for that of no character.
unfoldable pub front_dash : Bool → Text → Bool
front_dash d [] = d
front_dash d (c ∷ s) = c == b'-'

unfoldable pub last_dash : Bool → Text → Bool
last_dash d [] = d
last_dash d (c ∷ s) = last_dash (c == b'-') s

front_dash-append :
    (d : Bool) (s : Text) (c : ℕ) → front_dash d (s ++ (c ∷ [])) ≡ front_dash (c == b'-') s
unfolding front_dash
front_dash-append d [] c = refl
front_dash-append d (x ∷ s) c = refl

pub front_dash-reverse : (d : Bool) (s : Text) → front_dash d (reverse s) ≡ last_dash d s
unfolding front_dash last_dash
front_dash-reverse d [] = refl
front_dash-reverse d (c ∷ s) =
    ap (front_dash d) (reverse-cons c s)
    ∙ (front_dash-append d (reverse s) c ∙ front_dash-reverse (c == b'-') s)

strip_front_of_front_dash : (d : Bool) (s : Text) → front_dash d s ≡ false → strip_front s ≡ s
unfolding front_dash strip_front
strip_front_of_front_dash d [] h = refl
strip_front_of_front_dash d (c ∷ s) h = rw h refl

-- A slug goes through each step unchanged.
dash_runs_of_slug : (b : Bool) (s : Text) → slug_from b s ≡ true → dash_runs (not b) s ≡ s
unfolding slug_from dash_runs
dash_runs_of_slug b [] h = refl
dash_runs_of_slug true (c ∷ s) h =
    ground (arith, dash_runs_of_slug true s, dash_runs_of_slug false s)
dash_runs_of_slug false (c ∷ s) h = ground (arith, dash_runs_of_slug true s)

behind_of_slug : (s : Text) → slug_from false s ≡ true → slug_from true s ≡ true
unfolding slug_from
behind_of_slug [] h = refl
behind_of_slug (c ∷ s) h = ground arith

to_lower_of_slug : (b : Bool) (s : Text) → slug_from b s ≡ true → map to_lower s ≡ s
unfolding slug_from
to_lower_of_slug b [] h = refl
to_lower_of_slug b (c ∷ s) h = ground (arith, to_lower_of_slug true s, to_lower_of_slug false s)

last_dash_of_slug : (b : Bool) (s : Text) → slug_from b s ≡ true → last_dash (not b) s ≡ false
unfolding slug_from last_dash
last_dash_of_slug b [] h = ground arith
last_dash_of_slug b (c ∷ s) h = elim (Bool-cases (is_slug_letter c)) [
  | inl e ↦
      let not_dash : (c == b'-') ≡ false = ground arith in
      rw not_dash (last_dash_of_slug true s (ground arith))
  | inr e ↦
      let dash : (c == b'-') ≡ true = ground arith in
      rw dash (last_dash_of_slug false s (ground arith))
]

front_dash_of_slug : (s : Text) → slug_from false s ≡ true → front_dash false s ≡ false
unfolding slug_from front_dash
front_dash_of_slug [] h = refl
front_dash_of_slug (c ∷ s) h = ground arith

no_point_of_slug : (b : Bool) (s t : Text) → slug_from b (s ++ (b'.' ∷ t)) ≡ false
unfolding slug_from
no_point_of_slug b [] t = ground arith
no_point_of_slug b (c ∷ s) t =
    rw (no_point_of_slug true s t, no_point_of_slug false s t) (ground arith)

remove_suffix_of_slug : (s : Text) → slug_from false s ≡ true → remove_suffix (codes ".json") s ≡ s
unfolding remove_suffix
remove_suffix_of_slug s h = go (strip_prefix (reverse json) (reverse s)) refl
  where
    json : Text
    json = codes ".json"

    go :
        (o : Option Text)
        → strip_prefix (reverse json) (reverse s) ≡ o
        → elim o [ none ↦ s | some r ↦ reverse r ] ≡ s
    go none e = refl
    go (some r) e =
        let split : s ≡ reverse r ++ json =
          sym (reverse-reverse s)
          ∙ (ap reverse (strip_prefix-eq-some (reverse json) (reverse s) e)
              ∙ (reverse-append (reverse json) r
                  ∙ ap (λ t. reverse r ++ t) (reverse-reverse json))) in
        let no_slug : slug_from false s ≡ false =
          ap (slug_from false) split ∙ no_point_of_slug false (reverse r) (codes "json") in
        absurd (ground arith)

strip_dashes_of_slug : (s : Text) → slug_from false s ≡ true → strip_dashes s ≡ s
unfolding strip_dashes
strip_dashes_of_slug s h =
    ap (λ t. reverse (strip_front (reverse t)))
      (strip_front_of_front_dash false s (front_dash_of_slug s h))
    ∙ (ap reverse (
          strip_front_of_front_dash true (reverse s)
            (front_dash-reverse true s ∙ last_dash_of_slug false s h))
        ∙ reverse-reverse s)

-- A slug is its own name.
pub normalize_name_of_slug : (s : Text) → slug_from false s ≡ true → normalize_name s ≡ s
unfolding normalize_name
normalize_name_of_slug s h =
    ap (λ t. map to_lower (strip_dashes (dash_runs false t))) (remove_suffix_of_slug s h)
    ∙ (ap (λ t. map to_lower (strip_dashes t)) (dash_runs_of_slug true s (behind_of_slug s h))
        ∙ (ap (map to_lower) (strip_dashes_of_slug s h) ∙ to_lower_of_slug false s h))
