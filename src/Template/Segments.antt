-- ===== src/Template/Segments.antt =====
-- What rendering gives for a template that is put together from plain text and markers.
use delayed_order_sms_flink.Base.{
  ◌==◌, ◌≡◌, refl, sym, ◌∙◌, ap, ap₂, false, Option, none, some, List, [], ◌∷◌, ◌++◌, append_assoc,
  map, All, Text, codes, text_eq, text_eq_iff, starts_with, strip_prefix, replace, replace-cons,
  replace-nil, replace-append_self, replace-append_of_no, arith, if◌then◌else◌, Bool-cases, inl,
  inr,
}
use delayed_order_sms_flink.Template.{Context, marker, render_template_value}

-- A piece of a template.
pub data Segment : Type 0 where
  plain : Text → Segment
  variable : Text → Segment

unfoldable pub source : List Segment → Text
source [] = []
source (plain t ∷ segs) = t ++ source segs
source (variable k ∷ segs) = marker k ++ source segs

abbrev pub NoOpen : Text → Type 0
NoOpen = All (λ c. (c == b'{') ≡ false)

abbrev pub NoClose : Text → Type 0
NoClose = All (λ c. (c == b'}') ≡ false)

-- No brace stands in plain text where it could open a marker, or in a name.
abbrev pub IsPlain : Segment → Type 0
IsPlain (plain t) = NoOpen t
IsPlain (variable k) = NoOpen k × NoClose k

-- The first entry of a key counts.
unfoldable pub lookup : Text → Context → Option Text
lookup k [] = none
lookup k ((j, v) ∷ context) = if text_eq j k then some v else lookup k context

-- One entry of the context put in for its variable.
abbrev fill : Text → Text → Segment → Segment
fill j v (plain t) = plain t
fill j v (variable k) = if text_eq j k then plain v else variable k

-- Names without a closing brace are told apart by what follows them.
starts_with-marker_end :
    (j k s : Text)
    → NoClose j
    → NoClose k
    → starts_with (j ++ codes "}}") (k ++ (codes "}}" ++ s)) ≡ text_eq j k
unfolding starts_with strip_prefix text_eq
starts_with-marker_end [] [] s hj hk = refl
starts_with-marker_end [] (c ∷ k) s hj (hc, hk) = ground arith
starts_with-marker_end (c ∷ j) [] s (hc, hj) hk = ground arith
starts_with-marker_end (c ∷ j) (d ∷ k) s (hc, hj) (hd, hk) =
    ground (arith, starts_with-marker_end j k s hj hk)

-- An open brace with one name behind it opens no marker.
starts_with-one_brace :
    (j k s : Text) → NoOpen k → starts_with (marker j) (b'{' ∷ (k ++ (codes "}}" ++ s))) ≡ false
unfolding starts_with strip_prefix
starts_with-one_brace j [] s h = refl
starts_with-one_brace j (c ∷ k) s (hc, hk) = ground arith

starts_with-marker :
    (j k s : Text)
    → NoClose j
    → NoClose k
    → starts_with (marker j) (codes "{{" ++ (k ++ (codes "}}" ++ s))) ≡ text_eq j k
unfolding starts_with strip_prefix
starts_with-marker j k s hj hk = starts_with-marker_end j k s hj hk

NoOpen-marker_end : (k : Text) → NoOpen k → NoOpen (k ++ codes "}}")
NoOpen-marker_end [] h = (refl, (refl, tt))
NoOpen-marker_end (c ∷ k) (hc, hk) = (hc, NoOpen-marker_end k hk)

-- The marker of another name stays.
replace-other_marker :
    (j k y s : Text)
    → text_eq j k ≡ false
    → NoClose j
    → IsPlain (variable k)
    → replace (marker j) y (marker k ++ s) ≡ marker k ++ replace (marker j) y s
replace-other_marker j k y s ne hj (ho, hk) =
    let rest : Text = (k ++ codes "}}") ++ s in
    let regroup : rest ≡ k ++ (codes "}}" ++ s) = append_assoc k (codes "}}") s in
    replace-cons (marker j) y b'{' (b'{' ∷ rest) (
      ap (λ r. starts_with (marker j) (codes "{{" ++ r)) regroup
      ∙ (starts_with-marker j k s hj hk ∙ ne))
    ∙ (ap (λ r. b'{' ∷ r)
          (replace-cons (marker j) y b'{' rest
            (ap (λ r. starts_with (marker j) (b'{' ∷ r)) regroup ∙ starts_with-one_brace j k s ho))
        ∙ ap (λ r. codes "{{" ++ r)
            (replace-append_of_no b'{' (b'{' ∷ (j ++ codes "}}")) y (k ++ codes "}}") s
              (NoOpen-marker_end k ho)))

replace-marker-source :
    (j y : Text) (segs : List Segment)
    → NoClose j
    → All IsPlain segs
    → replace (marker j) y (source segs) ≡ source (map (fill j y) segs)
unfolding source
replace-marker-source j y [] hj h = replace-nil _ _
replace-marker-source j y (plain t ∷ segs) hj (ht, h) =
    replace-append_of_no b'{' (b'{' ∷ (j ++ codes "}}")) y t (source segs) ht
    ∙ ap (λ r. t ++ r) (replace-marker-source j y segs hj h)
replace-marker-source j y (variable k ∷ segs) hj (hk, h) = elim (Bool-cases (text_eq j k)) [
  | inl e ↦
      let same : j ≡ k = (text_eq_iff j k).0 e in
      rw e (
        rw (← same) (
          replace-append_self b'{' (b'{' ∷ (j ++ codes "}}")) y (source segs)
          ∙ ap (λ r. y ++ r) (replace-marker-source j y segs hj h)))
  | inr e ↦ rw e (
      replace-other_marker j k y (source segs) e hj hk
      ∙ ap (λ r. marker k ++ r) (replace-marker-source j y segs hj h))
]

-- The names hold no closing brace, and the values no opening one.
abbrev pub IsPlainContext : Context → Type 0
IsPlainContext = All (λ (k, v). NoClose k × NoOpen v)

-- A variable's value, or its marker where the context has none.
abbrev pub value_in : Context → Segment → Segment
value_in context (plain t) = plain t
value_in context (variable k) = elim (lookup k context) [ none ↦ variable k | some v ↦ plain v ]

IsPlain-fill :
    (j y : Text) (segs : List Segment)
    → NoOpen y
    → All IsPlain segs
    → All IsPlain (map (fill j y) segs)
IsPlain-fill j y [] hy h = tt
IsPlain-fill j y (plain t ∷ segs) hy (ht, h) = (ht, IsPlain-fill j y segs hy h)
IsPlain-fill j y (variable k ∷ segs) hy (hk, h) =
    let rest = IsPlain-fill j y segs hy h in
    elim (Bool-cases (text_eq j k)) [ inl e ↦ rw e (hy, rest) | inr e ↦ rw e (hk, rest) ]

value_in-fill :
    (j y : Text) (context : Context) (seg : Segment)
    → value_in context (fill j y seg) ≡ value_in ((j, y) ∷ context) seg
unfolding lookup
value_in-fill j y context (plain t) = refl
value_in-fill j y context (variable k) = ground arith

map-value_in-fill :
    (j y : Text) (context : Context) (segs : List Segment)
    → map (value_in context) (map (fill j y) segs) ≡ map (value_in ((j, y) ∷ context)) segs
map-value_in-fill j y context [] = refl
map-value_in-fill j y context (seg ∷ segs) =
    ap₂ (λ x r. x ∷ r) (value_in-fill j y context seg) (map-value_in-fill j y context segs)

map-value_in_nil : (segs : List Segment) → map (value_in []) segs ≡ segs
unfolding lookup
map-value_in_nil [] = refl
map-value_in_nil (plain t ∷ segs) = ap (λ r. plain t ∷ r) (map-value_in_nil segs)
map-value_in_nil (variable k ∷ segs) = ap (λ r. variable k ∷ r) (map-value_in_nil segs)

-- A template of plain text and variables is rendered to the text in which each variable that the
-- context has is its value, and the others are left as they are. No brace opens in the plain text,
-- in the names and in the values, and none closes in the names.
pub render_template_value-source :
    (context : Context) (segs : List Segment)
    → IsPlainContext context
    → All IsPlain segs
    → render_template_value (source segs) context ≡ source (map (value_in context) segs)
unfolding render_template_value
render_template_value-source [] segs hc h = ap source (sym (map-value_in_nil segs))
render_template_value-source ((j, y) ∷ context) segs ((hj, hy), hc) h =
    rw (replace-marker-source j y segs hj h) (
      render_template_value-source context (map (fill j y) segs) hc (IsPlain-fill j y segs hy h)
      ∙ ap source (map-value_in-fill j y context segs))
