-- ===== src/Prelude/Lists.antt =====
-- Lists measured by the native numbers, under the library's names.
use Prim.Native.Nat.{ℕ, zero, suc, ◌+◌, ◌≤◌, ◌<◌}
use mathlib.Core.Path.{◌≡◌, refl, ap}
use mathlib.Core.Option.{Option, none, some}
use mathlib.Core.List.{List, [], ◌∷◌, ◌++◌}
use mathlib.Core.Logic.{◌⊎◌, inl, inr}
use native.Mathlib.Omega.{arith}

module _ {ℓ} {A : Type ℓ} where
  abbrev pub length : List A → ℕ
  length [] = 0
  length (x ∷ xs) = suc (length xs)

  abbrev pub get_elem? : List A → ℕ → Option A
  get_elem? [] i = none
  get_elem? (x ∷ xs) zero = some x
  get_elem? (x ∷ xs) (suc i) = get_elem? xs i

  -- A write out of bounds changes nothing.
  abbrev pub set : List A → ℕ → A → List A
  set [] i v = []
  set (x ∷ xs) zero v = v ∷ xs
  set (x ∷ xs) (suc i) v = x ∷ set xs i v

  abbrev pub replicate : ℕ → A → List A
  replicate zero a = []
  replicate (suc n) a = a ∷ replicate n a

  abbrev pub drop : ℕ → List A → List A
  drop zero xs = xs
  drop (suc n) [] = []
  drop (suc n) (x ∷ xs) = drop n xs

  -- A drop either takes everything, or leaves the element at that index first.
  pub drop-cases :
      (n : ℕ) (xs : List A)
      → ((drop n xs ≡ []) × (length xs ≤ n) × (get_elem? xs n ≡ none))
        ⊎ ((a : A) × (drop n xs ≡ a ∷ drop (suc n) xs)
            × (get_elem? xs n ≡ some a)
            × (n < length xs))
  drop-cases n [] = inl (drop-nil n, omega arith, refl)
    where
      drop-nil : (n : ℕ) → drop n [] ≡ []
      drop-nil zero = refl
      drop-nil (suc n) = refl
  drop-cases zero (x ∷ xs) = inr (x, refl, refl, omega arith)
  drop-cases (suc n) (x ∷ xs) = elim (drop-cases n xs) [
    | inl (e, h, g) ↦ inl (e, omega arith, g)
    | inr (a, e, g, h) ↦ inr (a, e, g, omega arith)
  ]

  pub length-append : (xs ys : List A) → length (xs ++ ys) ≡ length xs + length ys
  length-append [] ys = omega arith
  length-append (x ∷ xs) ys = omega (arith, length-append xs ys)

  pub length-replicate : (n : ℕ) (a : A) → length (replicate n a) ≡ n
  length-replicate zero a = refl
  length-replicate (suc n) a = ap suc (length-replicate n a)

-- Every element satisfies `P`.
abbrev pub All {ℓ κ} : {A : Type ℓ} → (A → Type κ) → List A → Type κ
All P [] = Unit
All P (x ∷ xs) = P x × All P xs
