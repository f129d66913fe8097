-- ===== src/Amounts/Decimal.antt =====
-- Printing and reading a natural number in decimal digits.
use reapp_protocol.Common.{
  All, Bool-cases, List-cases, Text, [], arith, inl, inr, length, length-append, ltb, refl, suc,
  zero, ℕ, ◌%◌, ◌*◌, ◌++◌, ◌+◌, ◌-◌, ◌/◌, ◌<◌, ◌^◌, ◌∙◌, ◌∷◌, ◌≡◌, ◌≤◌,
}
use native.Mathlib.Nat.{pow-suc}
use reapp_protocol.Amounts.{value_from, show_from, show}

abbrev pub IsDigit : ℕ → Type 0
IsDigit c = (48 ≤ c) × (c ≤ 57)

pub value_from-append :
    (acc : ℕ) (s t : Text) → value_from acc (s ++ t) ≡ value_from (value_from acc s) t
unfolding value_from
value_from-append acc [] t = refl
value_from-append acc (c ∷ s) t = value_from-append (acc * 10 + (c - 48)) s t

show_from-value : (fuel n : ℕ) → n < fuel → value_from 0 (show_from fuel n) ≡ n
unfolding show_from value_from
show_from-value zero n h = elim h [ ]
show_from-value (suc fuel) n h = elim (Bool-cases (ltb n 10)) [
  | inl small ↦ rw small (omega arith)
  | inr large ↦ rw large (
      value_from-append 0 (show_from fuel (n / 10)) ((48 + n % 10) ∷ [])
      ∙ (ground (arith, show_from-value fuel (n / 10))))
]

pub show-value : (n : ℕ) → value_from 0 (show n) ≡ n
unfolding show
show-value n = show_from-value (suc n) n (omega arith)

pub All-append : (P : ℕ → Type 0) (s t : Text) → All P s → All P t → All P (s ++ t)
All-append P [] t hs ht = ht
All-append P (c ∷ s) t (h, hs) ht = (h, All-append P s t hs ht)

show_from-IsDigit : (fuel n : ℕ) → All IsDigit (show_from fuel n)
unfolding show_from
show_from-IsDigit zero n = tt
show_from-IsDigit (suc fuel) n = elim (Bool-cases (ltb n 10)) [
  | inl small ↦ rw small ((omega arith, ground arith), tt)
  | inr large ↦ rw large (
      All-append IsDigit (show_from fuel (n / 10)) ((48 + n % 10) ∷ [])
        (show_from-IsDigit fuel (n / 10)) ((omega arith, omega arith), tt))
]

pub show-IsDigit : (n : ℕ) → All IsDigit (show n)
unfolding show
show-IsDigit n = show_from-IsDigit (suc n) n

-- At most `k` digits, and at least one.
show_from-length : (fuel n k : ℕ) → n < 10 ^ suc k → length (show_from fuel n) ≤ suc k
unfolding show_from
show_from-length zero n k h = omega arith
show_from-length (suc fuel) n zero h = elim (Bool-cases (ltb n 10)) [
  | inl small ↦ rw small (omega arith)
  | inr large ↦ absurd (ground arith)
]
show_from-length (suc fuel) n (suc k) h = elim (Bool-cases (ltb n 10)) [
  | inl small ↦ rw small (omega arith)
  | inr large ↦ rw large (
      omega (
        arith,
        length-append (show_from fuel (n / 10)) ((48 + n % 10) ∷ []),
        show_from-length fuel (n / 10) k (tenth n (10 ^ suc k) (rw (pow-suc 10 (suc k)) at h)),
      ))
]
  where
    tenth : (m p : ℕ) → m < p * 10 → m / 10 < p
    tenth m p q = omega arith

pub show-length : (n k : ℕ) → n < 10 ^ suc k → length (show n) ≤ suc k
unfolding show
show-length n k h = show_from-length (suc n) n k h

-- A number is printed with at least one digit.
pub show-cons : (n : ℕ) → (c : ℕ) × (s : Text) × (show n ≡ c ∷ s)
unfolding show show_from
show-cons n = elim (Bool-cases (ltb n 10)) [
  | inl small ↦ (48 + n, [], rw small refl)
  | inr large ↦ elim (List-cases (show_from n (n / 10))) [
    | inl empty ↦ (48 + n % 10, [], rw large (rw empty refl))
    | inr (c, s, e) ↦ (c, s ++ (48 + n % 10) ∷ [], rw large (rw e refl))
  ]
]
