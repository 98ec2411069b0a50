-- ===== src/Base/Results.antt =====
-- Python's exceptions as values: the classes that the code raises or catches, and those that the
-- calls it makes raise.
use mathlib.Core.Path.{◌≡◌, refl}
use mathlib.Core.Logic.{◌⊎◌, inl, inr}

pub data Error : Type 0 where
  value_error type_error overflow_error attribute_error key_error index_error : Error
  file_not_found_error zero_division_error buffer_error called_process_error : Error

-- What a call returns, or the class of what it raises.
pub data Result {ℓ} (T : Type ℓ) : Type ℓ where
  err : Error → Result T
  ok : T → Result T

module _ {ℓ κ} {T : Type ℓ} {U : Type κ} where
  infixl 5 ◌>>=◌ ◌>>◌
  abbrev pub ◌>>=◌ : Result T → (T → Result U) → Result U
  err x >>= next = err x
  ok t >>= next = next t

  abbrev pub ◌>>◌ : Result T → Result U → Result U
  first >> second = first >>= λ _. second

  -- A sequence that returns has a first step that returns.
  module _ (first : Result T) (next : T → Result U) {u : U} where
    pub >>=-eq-ok : (first >>= next) ≡ ok u → (t : T) × (first ≡ ok t) × (next t ≡ ok u)
    >>=-eq-ok h =
        elim first as (λ r. (r >>= next) ≡ ok u → (t : T) × (r ≡ ok t) × (next t ≡ ok u)) [
          | err x ↦ λ e. cc
          | ok t ↦ λ e. (t, refl, e)
        ]
          h

module _ {ℓ} {T : Type ℓ} where
  pub Result-cases : (r : Result T) → ((t : T) × (r ≡ ok t)) ⊎ ((x : Error) × (r ≡ err x))
  Result-cases (err x) = inr (x, refl)
  Result-cases (ok t) = inl (t, refl)

  pub ok-injective : {s t : T} → ok s ≡ ok t → s ≡ t
  ok-injective same = cc
