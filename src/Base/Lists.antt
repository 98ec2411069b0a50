-- ===== src/Base/Lists.antt =====
-- Lists measured and cut by native numbers, under the library's names.
use Prim.Native.Nat.{ℕ, zero, suc, ◌+◌, min}
use mathlib.Core.Path.{◌≡◌, refl, ap}
use mathlib.Core.List.{List, [], ◌∷◌, ◌++◌, map}
use native.Mathlib.Omega.{arith}

module _ {ℓ} {A : Type ℓ} where
  abbrev pub length : List A → ℕ
  length [] = 0
  length (x ∷ xs) = suc (length xs)

  abbrev pub take : ℕ → List A → List A
  take zero xs = []
  take (suc n) [] = []
  take (suc n) (x ∷ xs) = x ∷ take n xs

  abbrev pub drop : ℕ → List A → List A
  drop zero xs = xs
  drop (suc n) [] = []
  drop (suc n) (x ∷ xs) = drop n xs

  abbrev pub replicate : ℕ → A → List A
  replicate zero a = []
  replicate (suc n) a = a ∷ replicate n a

  pub length-append : (xs ys : List A) → length (xs ++ ys) ≡ length xs + length ys
  length-append [] ys = omega arith
  length-append (x ∷ xs) ys = omega (arith, length-append xs ys)

  pub length-take : (n : ℕ) (xs : List A) → length (take n xs) ≡ min n (length xs)
  length-take zero xs = omega arith
  length-take (suc n) [] = omega arith
  length-take (suc n) (x ∷ xs) = omega (arith, length-take n xs)

  pub length-replicate : (n : ℕ) (a : A) → length (replicate n a) ≡ n
  length-replicate zero a = refl
  length-replicate (suc n) a = ap suc (length-replicate n a)

  -- A predicate of every element.
  abbrev pub All {κ} : (A → Type κ) → List A → Type κ
  All P [] = Unit
  All P (x ∷ xs) = P x × All P xs

pub length-map {ℓ κ} :
    {A : Type ℓ} {B : Type κ} (f : A → B) (xs : List A) → length (map f xs) ≡ length xs
length-map f [] = refl
length-map f (x ∷ xs) = ap suc (length-map f xs)

module _ {ℓ} {A : Type ℓ} where
  unfoldable pub sum_over : (A → ℕ) → List A → ℕ
  sum_over f [] = 0
  sum_over f (x ∷ xs) = f x + sum_over f xs

  pub sum_over-add :
      (f g : A → ℕ) (xs : List A) → sum_over (λ x. f x + g x) xs ≡ sum_over f xs + sum_over g xs
  unfolding sum_over
  sum_over-add f g [] = omega arith
  sum_over-add f g (x ∷ xs) = omega (arith, sum_over-add f g xs)

  pub sum_over-congr :
      (f g : A → ℕ) (xs : List A) → All (λ x. f x ≡ g x) xs → sum_over f xs ≡ sum_over g xs
  unfolding sum_over
  sum_over-congr f g [] h = refl
  sum_over-congr f g (x ∷ xs) (hx, h) = omega (arith, sum_over-congr f g xs h)

  pub sum_over-ones : (f : A → ℕ) (xs : List A) → All (λ x. f x ≡ 1) xs → sum_over f xs ≡ length xs
  unfolding sum_over
  sum_over-ones f [] h = refl
  sum_over-ones f (x ∷ xs) (hx, h) = omega (arith, sum_over-ones f xs h)

  pub All-take {κ} : (P : A → Type κ) (n : ℕ) (xs : List A) → All P xs → All P (take n xs)
  All-take P zero xs h = tt
  All-take P (suc n) [] h = tt
  All-take P (suc n) (x ∷ xs) (hx, h) = (hx, All-take P n xs h)

  pub All-map {κ} : (P Q : A → Type κ) (f : (x : A) → P x → Q x) (xs : List A) → All P xs → All Q xs
  All-map P Q f [] h = tt
  All-map P Q f (x ∷ xs) (hx, h) = (f x hx, All-map P Q f xs h)

  pub All-append {κ} : (P : A → Type κ) (xs ys : List A) → All P xs → All P ys → All P (xs ++ ys)
  All-append P [] ys hx hy = hy
  All-append P (x ∷ xs) ys (h, hx) hy = (h, All-append P xs ys hx hy)

  pub All-map₂ {κ} :
      {P Q R : A → Type κ} (f : (x : A) → P x → Q x → R x) (xs : List A)
      → All P xs
      → All Q xs
      → All R xs
  All-map₂ f [] h k = tt
  All-map₂ f (x ∷ xs) (hx, h) (kx, k) = (f x hx kx, All-map₂ f xs h k)

module _ {ℓ κ} {A : Type ℓ} {B : Type κ} where
  pub sum_over-map :
      (f : B → ℕ) (g : A → B) (xs : List A) → sum_over f (map g xs) ≡ sum_over (λ x. f (g x)) xs
  unfolding sum_over
  sum_over-map f g [] = refl
  sum_over-map f g (x ∷ xs) = ap (λ n. f (g x) + n) (sum_over-map f g xs)

  pub take-map : (n : ℕ) (g : A → B) (xs : List A) → take n (map g xs) ≡ map g (take n xs)
  take-map zero g xs = refl
  take-map (suc n) g [] = refl
  take-map (suc n) g (x ∷ xs) = ap (λ r. g x ∷ r) (take-map n g xs)

  pub All-of_map {μ} :
      (P : B → Type μ) (g : A → B) (xs : List A) → All P (map g xs) → All (λ x. P (g x)) xs
  All-of_map P g [] h = tt
  All-of_map P g (x ∷ xs) (hx, h) = (hx, All-of_map P g xs h)

  pub All-to_map {μ} :
      (P : B → Type μ) (g : A → B) (xs : List A) → All (λ x. P (g x)) xs → All P (map g xs)
  All-to_map P g [] h = tt
  All-to_map P g (x ∷ xs) (hx, h) = (hx, All-to_map P g xs h)
