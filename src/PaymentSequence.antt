-- ===== src/PaymentSequence.antt =====
-- The binding of a payment to the mandate's sequence: packages/sdk/src/payment-sequence.ts.
use reapp_protocol.Common.{
  ==_iff, >>=-eq-ok, Bool, Bool-cases, Number, Option, Result, Text, ap, err, guard, if◌then◌else◌,
  inl, inr, int, leb, leb→le, lit, max_safe_integer, negsuc, non_integer, none, ok, pos, some,
  text_eq, ℕ, ℤ, ◌+◌, ◌-◌, ◌==◌, ◌>>=◌, ◌>>◌, ◌^◌, ◌||◌, ◌∙◌, ◌≡◌, ◌≤◌,
}
use mathlib.Core.Path.{subst}
use reapp_protocol.Amounts.{bigint_of}
use reapp_protocol.X402.{is_positive_decimal}

-- `string | number | bigint`
pub data Requested : Type 0 where
  decimal : Text → Requested
  number : Number → Requested
  bigint : ℤ → Requested

pub data SequenceError : Type 0 where
  not_safe not_canonical out_of_range : SequenceError
  advanced : ℕ → ℕ → SequenceError

-- 2n ** 32n - 1n
abbrev pub u32_max : ℕ
u32_max = 2 ^ 32 - 1

abbrev in_u32 : ℤ → Result SequenceError ℕ
in_u32 (pos n) = if leb n u32_max then ok n else err out_of_range
in_u32 (negsuc n) = err out_of_range

-- `Number.isSafeInteger(value)`
abbrev is_safe : ℤ → Bool
is_safe (pos n) = leb n max_safe_integer
is_safe (negsuc n) = leb (n + 1) max_safe_integer

unfoldable pub normalize_expected_payment_sequence : Requested → Result SequenceError ℕ
normalize_expected_payment_sequence (bigint value) = in_u32 value
normalize_expected_payment_sequence (number non_integer) = err not_safe
normalize_expected_payment_sequence (number (int value)) =
    if is_safe value then in_u32 value else err not_safe
normalize_expected_payment_sequence (decimal s) =
    if text_eq s (lit "0") || is_positive_decimal s
    then in_u32 (pos (bigint_of s))
    else err not_canonical

abbrev pub normalize_or : ℕ → Option Requested → Result SequenceError ℕ
normalize_or current none = ok current
normalize_or current (some requested) = normalize_expected_payment_sequence requested

unfoldable pub resolve_expected_payment_sequence :
    Number → Option Requested → Result SequenceError ℕ
unfolding normalize_expected_payment_sequence
resolve_expected_payment_sequence current_sequence requested = do
  current ← normalize_expected_payment_sequence (number current_sequence)
  expected ← normalize_or current requested
  guard (current == expected) (advanced expected current)
  ok expected

ok_injective : (a b : ℕ) → Path (Result SequenceError ℕ) (ok a) (ok b) → a ≡ b
ok_injective a b e = cc

in_u32-ok : (z : ℤ) (n : ℕ) → in_u32 z ≡ ok n → (z ≡ pos n) × (n ≤ u32_max)
in_u32-ok (pos m) n h = elim (Bool-cases (leb m u32_max)) [
  | inl fits ↦
      let e : ok m ≡ ok n = rw fits at h in (cc, rw (← ok_injective m n e) (leb→le m u32_max fits))
  | inr large ↦ let e : err out_of_range ≡ ok n = rw large at h in absurd (cc)
]
in_u32-ok (negsuc m) n h = absurd (cc)

number-ok :
    (x : Number) (n : ℕ)
    → normalize_expected_payment_sequence (number x) ≡ ok n
    → (x ≡ int (pos n)) × (n ≤ u32_max)
unfolding normalize_expected_payment_sequence
number-ok non_integer n h = absurd (cc)
number-ok (int z) n h = elim (Bool-cases (is_safe z)) [
  | inl safe ↦ let (e, fits) = in_u32-ok z n (rw safe at h) in (ap (λ (y : ℤ). int y) e, fits)
  | inr large ↦ let e : err not_safe ≡ ok n = rw large at h in absurd (cc)
]

bind_expected : ℕ → ℕ → Result SequenceError ℕ
bind_expected c e = guard (c == e) (advanced e c) >> ok e

bind_expected-ok : (c e n : ℕ) → bind_expected c e ≡ ok n → (c ≡ e) × (e ≡ n)
unfolding bind_expected
bind_expected-ok c e n h = elim (Bool-cases (c == e)) [
  | inl same ↦ ((==_iff c e).0 same, ok_injective e n (rw same at h))
  | inr differs ↦ let k : err (advanced e c) ≡ ok n = rw differs at h in absurd (cc)
]

-- A sequence is bound only where the mandate's current sequence is that very number, within the
-- contract's u32, and the caller asked for that number or for none.
pub resolve_expected_payment_sequence-ok :
    (current_sequence : Number) (requested : Option Requested) (n : ℕ)
    → resolve_expected_payment_sequence current_sequence requested ≡ ok n
    → (current_sequence ≡ int (pos n)) × (n ≤ u32_max) × (normalize_or n requested ≡ ok n)
unfolding resolve_expected_payment_sequence bind_expected
resolve_expected_payment_sequence-ok current_sequence requested n h =
    let (c, read, h1) = >>=-eq-ok _ _ h in
    let (e, asked, h2) = >>=-eq-ok (normalize_or c requested) (bind_expected c) (opened c h1) in
    let (same, e_n) = bind_expected-ok c e n h2 in
    let (x, fits) = number-ok current_sequence c read in
    let c_n = same ∙ e_n in
    (
      rw (← c_n) x,
      rw (← c_n) fits,
      subst (λ (k : ℕ). normalize_or k requested ≡ ok n) c_n (asked ∙ ap (λ (k : ℕ). ok k) e_n),
    )
  where
    opened :
        (c : ℕ)
        → (normalize_or c requested >>= λ expected.
            guard (c == expected) (advanced expected c) >> ok expected)
          ≡ ok n
        → (normalize_or c requested >>= bind_expected c) ≡ ok n
    opened c k = k
