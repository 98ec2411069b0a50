-- ===== src/E2e/Counting/Distinct.antt =====
-- What is counted is the different ids.
use Prim.Native.Nat.{min}
use delayed_order_sms_flink.Base.{
  text_eq_iff, ℕ, ◌+◌, ◌≤◌, ◌≡◌, refl, ap, ◌∙◌, not, none, some, List, [], ◌∷◌, ◌++◌, map, length,
  length-map, Text, text_eq, occurs, occurs-append, ◌==◌, if◌then◌else◌, ok, arith, Bool-cases, inl,
  inr,
}
use delayed_order_sms_flink.Json.{Json, str}
use delayed_order_sms_flink.E2e.Host.{Completed, Host, ◌>>=◌}
use delayed_order_sms_flink.E2e.Counting.{
  same_id, holds_id, add_id, id_in, add_ids, count_ids, consumer_command, consume_sms_count,
}
use delayed_order_sms_flink.E2e.Lines.{filled_lines}

module _ ⦃H : Host⦄ where
  -- The lines carry these ids, which are texts, in their order.
  pub data Carries : List Text → List Text → Type 0 where
    no_lines : Carries [] []
    without_id :
        {line : Text} {lines ids : List Text}
        → id_in line ≡ ok none
        → Carries lines ids
        → Carries (line ∷ lines) ids
    with_id :
        {line : Text} {lines ids : List Text} (t : Text)
        → id_in line ≡ ok (some (str t))
        → Carries lines ids
        → Carries (line ∷ lines) (t ∷ ids)

  abbrev as_ids : List Text → List (Json H.Float)
  as_ids = map str

  holds_id-as_ids :
      (t : Text) (ids : List Text) → holds_id (str t) (as_ids ids) ≡ not (occurs t ids == 0)
  unfolding holds_id same_id occurs
  holds_id-as_ids t [] = refl
  holds_id-as_ids t (u ∷ ids) = ground (arith, holds_id-as_ids t ids)

  as_ids-append :
      (t : Text) (ids : List Text) → as_ids ids ++ (str t ∷ []) ≡ as_ids (ids ++ (t ∷ []))
  as_ids-append t [] = refl
  as_ids-append t (u ∷ ids) = ap (λ r. str u ∷ r) (as_ids-append t ids)

  -- A set of texts behind one more text
  abbrev add_text : Text → List Text → List Text
  add_text t ids = if not (occurs t ids == 0) then ids else ids ++ (t ∷ [])

  add_id-as_ids :
      (t : Text) (ids : List Text) → add_id (str t) (as_ids ids) ≡ as_ids (add_text t ids)
  unfolding add_id
  add_id-as_ids t ids = rw holds_id-as_ids (elim (Bool-cases (occurs t ids == 0)) [
    | inl e ↦ rw e (as_ids-append t ids)
    | inr e ↦ rw e refl
  ])

  occurs-add_text :
      (x t : Text) (ids : List Text)
      → occurs x ids ≤ 1
      → occurs x (add_text t ids) ≡ min 1 (occurs x ids + (if text_eq t x then 1 else 0))
  unfolding occurs
  occurs-add_text x t ids h = elim (Bool-cases (text_eq t x)) [
    | inl e ↦ ground (arith, occurs-append x ids (t ∷ []), (text_eq_iff t x).0 e)
    | inr e ↦ ground (arith, occurs-append x ids (t ∷ []))
  ]

  min_again : (a b c d : ℕ) → a ≡ min 1 (b + c) → min 1 (a + d) ≡ min 1 (b + (c + d))
  min_again a b c d h = omega arith

  -- The set that the loop leaves
  Set-add_ids :
      {lines ids : List Text} (held : List Text)
      → Carries lines ids
      → ((x : Text) → occurs x held ≤ 1)
      → (s : List Text) × (add_ids lines (as_ids held) ≡ ok (as_ids s))
        × ((x : Text) → occurs x s ≡ min 1 (occurs x held + occurs x ids))
  unfolding add_ids occurs
  Set-add_ids held no_lines once = (held, refl, λ x. omega (arith, once x))
  Set-add_ids held (without_id e rest) once =
      let (s, e', f) = Set-add_ids held rest once in (s, rw (add_ids, e) e', f)
  Set-add_ids held (with_id {ids = ids} t e rest) once =
      let (s, e', f) =
        Set-add_ids (add_text t held) rest λ x. omega (arith, occurs-add_text x t held (once x)) in
      (
        s,
        rw (add_ids, e, add_id-as_ids t held) e',
        λ x. f x ∙ min_again _ _ _ _ (occurs-add_text x t held (once x)),
      )

  count_ids-Carries :
      (stdout : Text) {ids : List Text}
      → Carries (filled_lines stdout) ids
      → (s : List Text) × (count_ids stdout ≡ ok (length s))
        × ((x : Text) → occurs x s ≡ min 1 (occurs x ids))
  unfolding count_ids occurs
  count_ids-Carries stdout carries =
      let (s, e, f) = Set-add_ids [] carries λ x. omega arith in
      (s, rw (count_ids, e) (ap ok (length-map str s)), λ x. f x ∙ omega arith)

  -- Where the lines of the consumer's output carry these ids, which are texts, the number that
  -- `consume_sms_count` returns is that of the different ids: there is a list of so many texts in
  -- which each of the ids stands once, however many lines carry it, and no other text.
  pub consume_sms_count-Carries :
      (timeout_ms max_messages : ℕ) (w : H.World) (result : Completed) {ids : List Text}
      → (H.run (consumer_command timeout_ms max_messages) none w).0 ≡ ok result
      → Carries (filled_lines result.stdout) ids
      → (s : List Text) × ((consume_sms_count timeout_ms max_messages w).result ≡ ok (length s))
        × ((x : Text) → occurs x s ≡ min 1 (occurs x ids))
  unfolding consume_sms_count ◌>>=◌
  consume_sms_count-Carries timeout_ms max_messages w result ran carries =
      let (s, e, f) = count_ids-Carries result.stdout carries in (s, rw ran e, f)
