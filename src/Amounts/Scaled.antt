-- ===== src/Amounts/Scaled.antt =====
-- Trimming, splitting at the dot, and padding of texts that hold digits.
use reapp_protocol.Common.{
  All, Bool-cases, Text, [], all, ap, arith, inl, inr, is_digit, is_digits, is_space, length,
  length-append, length-replicate, none, refl, replicate, some, suc, take, trim, trim_start, true,
  zero, ℕ, ◌++◌, ◌-◌, ◌==◌, ◌∷◌, ◌≡◌, ◌≤◌,
}
use mathlib.Core.List.{reverse, reverse-cons, reverse-reverse}
use reapp_protocol.Amounts.{value_from, split_dot, pad_start, strip_zeros, drop_zero}
use reapp_protocol.Amounts.Decimal.{IsDigit, All-append}

-- A visible ASCII character.
abbrev pub IsPlain : ℕ → Type 0
IsPlain c = (33 ≤ c) × (c ≤ 126)

trim_start-plain : (s : Text) → All IsPlain s → trim_start s ≡ s
unfolding trim_start is_space
trim_start-plain [] h = refl
trim_start-plain (c ∷ s) (h, hs) = ground arith

All-reverse : (s : Text) → All IsPlain s → All IsPlain (reverse s)
All-reverse [] h = tt
All-reverse (c ∷ s) (h, hs) =
    rw (reverse-cons c s) (All-append IsPlain (reverse s) (c ∷ []) (All-reverse s hs) (h, tt))

pub trim-plain : (s : Text) → All IsPlain s → trim s ≡ s
unfolding trim
trim-plain s h =
    rw (trim_start-plain s h)
      (rw (trim_start-plain (reverse s) (All-reverse s h)) (reverse-reverse s))

pub All-map {ℓ κ} :
    {P : ℕ → Type ℓ} {Q : ℕ → Type κ} (s : Text) → ((c : ℕ) → P c → Q c) → All P s → All Q s
All-map [] f h = tt
All-map (c ∷ s) f (h, hs) = (f c h, All-map s f hs)

all_digit : (s : Text) → All IsDigit s → all is_digit s ≡ true
all_digit [] h = refl
all_digit (c ∷ s) (h, hs) = ground (arith, all_digit s hs)

pub is_digits_of : (c : ℕ) (s : Text) → All IsDigit (c ∷ s) → is_digits (c ∷ s) ≡ true
unfolding is_digits
is_digits_of c s (h, hs) = ground (arith, all_digit s hs)

pub split_dot-digits : (s : Text) → All IsDigit s → split_dot s ≡ (s, none)
unfolding split_dot
split_dot-digits [] h = refl
split_dot-digits (c ∷ s) (h, hs) = ground (arith, split_dot-digits s hs)

pub split_dot-dot : (s t : Text) → All IsDigit s → split_dot (s ++ b'.' ∷ t) ≡ (s, some t)
unfolding split_dot
split_dot-dot [] t h = refl
split_dot-dot (c ∷ s) t (h, hs) = ground (arith, split_dot-dot s t hs)

pub strip_zeros-IsDigit : (s : Text) → All IsDigit s → All IsDigit (strip_zeros s)
unfolding strip_zeros
strip_zeros-IsDigit [] h = tt
strip_zeros-IsDigit (c ∷ s) (h, hs) = kept (strip_zeros s) (strip_zeros-IsDigit s hs)
  where
    kept : (t : Text) → All IsDigit t → All IsDigit (drop_zero c t)
    kept [] k = elim (Bool-cases (c == 48)) [
      | inl zero_digit ↦ rw zero_digit tt
      | inr other ↦ rw other (h, tt)
    ]
    kept (d ∷ t) k = (h, k)

length-drop_zero : (c : ℕ) (s : Text) → length (drop_zero c s) ≤ suc (length s)
length-drop_zero c [] = ground arith
length-drop_zero c (d ∷ s) = omega arith

pub length-strip_zeros : (s : Text) → length (strip_zeros s) ≤ length s
unfolding strip_zeros
length-strip_zeros [] = omega arith
length-strip_zeros (c ∷ s) = omega (arith, length-strip_zeros s, length-drop_zero c (strip_zeros s))

take-drop_zero :
    (c : ℕ) (n k : ℕ) (t s : Text)
    → n ≤ k
    → take n (t ++ replicate k 48) ≡ s
    → take n (t ++ replicate (suc k) 48) ≡ s
    → take (suc n) (drop_zero c t ++ replicate (suc k) 48) ≡ c ∷ s
take-drop_zero c n k [] s h e e' = elim (Bool-cases (c == 48)) [
  | inl zero_digit ↦
      let c_eq : 48 ≡ c = ground arith in rw zero_digit (rw e (ap (λ (x : ℕ). x ∷ s) c_eq))
  | inr other ↦ rw other (ap (λ (x : Text). c ∷ x) e')
]
take-drop_zero c n k (d ∷ t) s h e e' = ap (λ (x : Text). c ∷ x) e'

-- What was stripped is put back by padding with zeros.
pub take-strip_zeros :
    (s : Text) (k : ℕ) → length s ≤ k → take (length s) (strip_zeros s ++ replicate k 48) ≡ s
unfolding strip_zeros
take-strip_zeros [] k h = refl
take-strip_zeros (c ∷ s) zero h = absurd (omega arith)
take-strip_zeros (c ∷ s) (suc k) h =
    take-drop_zero c (length s) k (strip_zeros s) s (omega arith)
      (take-strip_zeros s k (omega arith)) (take-strip_zeros s (suc k) (omega arith))

value_from-zeros : (k : ℕ) (s : Text) → value_from 0 (replicate k 48 ++ s) ≡ value_from 0 s
unfolding value_from
value_from-zeros zero s = refl
value_from-zeros (suc k) s = value_from-zeros k s

pub value_from-pad_start :
    (s : Text) (width : ℕ) → value_from 0 (pad_start s width) ≡ value_from 0 s
unfolding pad_start
value_from-pad_start s width = value_from-zeros (width - length s) s

pub length-pad_start :
    (s : Text) (width : ℕ) → length s ≤ width → length (pad_start s width) ≡ width
unfolding pad_start
length-pad_start s width h = omega (
  arith,
  length-append (replicate (width - length s) 48) s,
  length-replicate {A = ℕ} (width - length s) 48,
)

replicate-IsDigit : (k : ℕ) → All IsDigit (replicate k 48)
replicate-IsDigit zero = tt
replicate-IsDigit (suc k) = ((omega arith, omega arith), replicate-IsDigit k)

pub pad_start-IsDigit : (s : Text) (width : ℕ) → All IsDigit s → All IsDigit (pad_start s width)
unfolding pad_start
pad_start-IsDigit s width h =
    All-append IsDigit (replicate (width - length s) 48) s (replicate-IsDigit (width - length s)) h
