-- ===== src/Tests/Rendering.antt =====
-- Templates at concrete contexts.
use delayed_order_sms_flink.Base.{
  ℕ, ◌≡◌, refl, Bool, true, false, [], ◌∷◌, map, All, Text, codes, starts_with, strip_prefix,
  replace, replace_from, if◌then◌else◌, ◌==◌, Bool-cases, inl, inr, arith,
}
use delayed_order_sms_flink.Template.{render_template_value}
use delayed_order_sms_flink.Template.Segments.{
  plain, variable, source, value_in, render_template_value-source,
}

differs : ℕ → Text → Bool
differs b [] = true
differs b (c ∷ t) = let rest = differs b t in if c == b then false else rest

no_byte : (b : ℕ) (t : Text) → differs b t ≡ true → All (λ c. (c == b) ≡ false) t
unfolding differs
no_byte b [] h = tt
no_byte b (c ∷ t) h = elim (Bool-cases (c == b)) [
  | inl e ↦ absurd (ground arith)
  | inr e ↦ (e, no_byte b t (ground arith))
]

render_template_value-source_example :
    render_template_value
      (source (plain (codes "id ") ∷ variable (codes "orderId") ∷ variable (codes "x") ∷ []))
      ((codes "orderId", codes "ord-1") ∷ [])
    ≡ source (
        map
          (value_in ((codes "orderId", codes "ord-1") ∷ []))
          (plain (codes "id ") ∷ variable (codes "orderId") ∷ variable (codes "x") ∷ []))
unfolding differs
render_template_value-source_example =
    render_template_value-source ((codes "orderId", codes "ord-1") ∷ [])
      (plain (codes "id ") ∷ variable (codes "orderId") ∷ variable (codes "x") ∷ [])
      ((no_byte b'}' (codes "orderId") refl, no_byte b'{' (codes "ord-1") refl), tt)
      (
        no_byte b'{' (codes "id ") refl,
        (
          (no_byte b'{' (codes "orderId") refl, no_byte b'}' (codes "orderId") refl),
          ((no_byte b'{' (codes "x") refl, no_byte b'}' (codes "x") refl), tt),
        ),
      )

render_test :
    render_template_value (codes "id {{orderId}}{{x}}") ((codes "orderId", codes "ord-1") ∷ [])
    ≡ codes "id ord-1{{x}}"
unfolding render_template_value replace replace_from starts_with strip_prefix
render_test = refl
