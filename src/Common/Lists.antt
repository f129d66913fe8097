-- ===== src/Common/Lists.antt =====
-- Lists measured by native numbers, under the library's names, and predicates on all entries.
use Prim.Native.Nat.{ℕ, zero, suc, ◌+◌, ◌<◌}
use mathlib.Core.Logic.{◌⊎◌, inl, inr}
use mathlib.Core.Path.{◌≡◌, refl, ap}
use mathlib.Core.Bool.{Bool, true, false, ◌&&◌}
use mathlib.Core.List.{List, [], ◌∷◌, ◌++◌}
use native.Mathlib.Omega.{arith}

module _ {ℓ} {A : Type ℓ} where
  abbrev pub length : List A → ℕ
  length [] = 0
  length (x ∷ xs) = suc (length xs)

  abbrev pub take : ℕ → List A → List A
  take zero xs = []
  take (suc n) [] = []
  take (suc n) (x ∷ xs) = x ∷ take n xs

  abbrev pub drop : ℕ → List A → List A
  drop zero xs = xs
  drop (suc n) [] = []
  drop (suc n) (x ∷ xs) = drop n xs

  abbrev pub replicate : ℕ → A → List A
  replicate zero a = []
  replicate (suc n) a = a ∷ replicate n a

  abbrev pub all : (A → Bool) → List A → Bool
  all p [] = true
  all p (x ∷ xs) = p x && all p xs

  pub length-append : (xs ys : List A) → length (xs ++ ys) ≡ length xs + length ys
  length-append [] ys = omega arith
  length-append (x ∷ xs) ys = omega (arith, length-append xs ys)

  pub length-replicate : (n : ℕ) (a : A) → length (replicate n a) ≡ n
  length-replicate zero a = refl
  length-replicate (suc n) a = ap suc (length-replicate n a)

module _ {ℓ κ} {A : Type ℓ} where
  abbrev pub All : (A → Type κ) → List A → Type κ
  All P [] = Unit
  All P (x ∷ xs) = P x × All P xs

abbrev pub AreBytes : List ℕ → Type 0
AreBytes = All (λ n. n < 256)

pub List-cases {ℓ} :
    {A : Type ℓ} (xs : List A) → (xs ≡ []) ⊎ ((a : A) × (as' : List A) × (xs ≡ a ∷ as'))
List-cases [] = inl refl
List-cases (x ∷ xs) = inr (x, xs, refl)

-- A conjunction of many tests, and its parts.
abbrev pub conjunction : List Bool → Bool
conjunction [] = true
conjunction (b ∷ bs) = b && conjunction bs

pub conjunction→All : (bs : List Bool) → conjunction bs ≡ true → All (λ b. b ≡ true) bs
conjunction→All [] h = tt
conjunction→All (true ∷ bs) h = (refl, conjunction→All bs h)
conjunction→All (false ∷ bs) h = absurd (false_true h)
  where
    false_true : Bool.false ≡ true → ⊥
    false_true e = cc
