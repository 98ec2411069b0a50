-- ===== src/Loader/Laws.antt =====
-- What `load` and `load_many` find.
use mathlib.Core.List.{reverse, reverse-append, reverse-reverse}
use delayed_order_sms_flink.Base.{
  true, false, ◌≡◌, refl, sym, ◌∙◌, ap, ap₂, file_not_found_error, Option, none, some, List, [],
  ◌∷◌, ◌++◌, All, Text, codes, text_eq, text_eq_iff, text_eq_refl, strip_prefix,
  strip_prefix-append, starts_with-append, ends_with, remove_suffix, if◌then◌else◌, ok, err, subst,
  ok-injective, >>=-eq-ok, Bool-cases, inl, inr, arith,
}
use delayed_order_sms_flink.Json.{Json}
use delayed_order_sms_flink.Loader.{
  Files, Loaded, put_loaded, get_loaded, load, load_into, load_many,
}

get_loaded-put_loaded :
    {F : Type 0} (j k : Text) (v : Json F) (loaded : Loaded F)
    → get_loaded j (put_loaded k v loaded) ≡ (if text_eq k j then ok v else get_loaded j loaded)
unfolding get_loaded put_loaded
get_loaded-put_loaded j k v [] = refl
get_loaded-put_loaded j k v ((i, w) ∷ loaded) =
    ground
      (arith, get_loaded-put_loaded j k v loaded, text_eq_iff i k, text_eq_iff i j, text_eq_iff k j)

module _ {F : Type 0} (files : Files F) where
  -- The scenario of a name, as `load` gives it, stands under the name.
  abbrev pub Holds : Loaded F → Text → Type 0
  Holds loaded name =
      (scenario : Json F) × (load files name ≡ ok scenario) × (get_loaded name loaded ≡ ok scenario)

  Holds-put_loaded :
      (name k : Text) {v : Json F} (loaded : Loaded F)
      → load files k ≡ ok v
      → Holds loaded name
      → Holds (put_loaded k v loaded) name
  Holds-put_loaded name k {v} loaded h (w, hl, hg) = elim (Bool-cases (text_eq k name)) [
    | inl e ↦
        let same : k ≡ name = (text_eq_iff k name).0 e in
        (v, rw (← same) h, get_loaded-put_loaded name k v loaded ∙ rw e refl)
    | inr e ↦ (w, hl, get_loaded-put_loaded name k v loaded ∙ rw e hg)
  ]

  Holds-load_into :
      (names : List Text) (loaded : Loaded F) {result : Loaded F} (name : Text)
      → load_into files loaded names ≡ ok result
      → Holds loaded name
      → Holds result name
  unfolding load_into
  Holds-load_into [] loaded name h held = subst (λ r. Holds r name) (ok-injective h) held
  Holds-load_into (k ∷ names) loaded name h held =
      let (v, hv, h') = >>=-eq-ok (load files k) _ h in
      Holds-load_into names (put_loaded k v loaded) name h' (Holds-put_loaded name k loaded hv held)

  load_into-loads :
      (names : List Text) (loaded : Loaded F) {result : Loaded F}
      → load_into files loaded names ≡ ok result
      → All (Holds result) names
  unfolding load_into
  load_into-loads [] loaded h = tt
  load_into-loads (k ∷ names) loaded h =
      let (v, hv, h') = >>=-eq-ok (load files k) _ h in
      (
        Holds-load_into names (put_loaded k v loaded) k h'
            (v, hv, get_loaded-put_loaded k k v loaded ∙ rw (text_eq_refl k) refl),
        load_into-loads names (put_loaded k v loaded) h',
      )

  -- When `load_many` returns, every name that it was given is a key of the `dict`, with the scenario
  -- that `load` gives for this name, also where a name is given twice.
  pub load_many-Holds :
      (names : List Text) {loaded : Loaded F}
      → load_many files names ≡ ok loaded
      → All (Holds loaded) names
  unfolding load_many
  load_many-Holds names h = load_into-loads names [] h

-- The text of the suffix.
abbrev json : Text
json = codes ".json"

ends_with-suffix : (name : Text) → ends_with json (name ++ json) ≡ true
unfolding ends_with
ends_with-suffix name =
    rw (reverse-append name json) (starts_with-append (reverse json) (reverse name))

remove_suffix-suffix : (name : Text) → remove_suffix json (name ++ json) ≡ name
unfolding remove_suffix
remove_suffix-suffix name =
    let kept : Option Text → Text = λ o. elim o [ none ↦ name ++ json | some r ↦ reverse r ] in
    ap (λ r. kept (strip_prefix (reverse json) r)) (reverse-append name json)
    ∙ (ap kept (strip_prefix-append (reverse json) (reverse name)) ∙ reverse-reverse name)

-- A name with the suffix `.json` loads the scenario of the name without it. The name itself does
-- not end with the suffix.
load-suffix :
    {F : Type 0} (files : Files F) (name : Text)
    → ends_with (codes ".json") name ≡ false
    → load files (name ++ codes ".json") ≡ load files name
unfolding load
load-suffix files name h =
    ap (λ n. elim (files n) [ none ↦ err file_not_found_error | some r ↦ r ])
      (ap₂ (λ b r. (if b then r else name ++ json) ++ json) (ends_with-suffix name)
          (remove_suffix-suffix name)
        ∙ sym (ap (λ b. (if b then remove_suffix json name else name) ++ json) h))
