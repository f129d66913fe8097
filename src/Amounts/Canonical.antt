-- ===== src/Amounts/Canonical.antt =====
-- A decimal without leading zeros is the text of its value: `BigInt(s).toString()`
-- (apps/fulfillment-agent/src/redemption-store.ts, deserialize and serialize).
use reapp_protocol.Common.{
  Bool-cases, Text, [], all, and_elim, ap, arith, false, inl, inr, is_digit, leb, ltb, refl, suc,
  sym, true, zero, ℕ, ◌%◌, ◌*◌, ◌++◌, ◌+◌, ◌-◌, ◌/◌, ◌<◌, ◌∙◌, ◌∷◌, ◌≡◌,
}
use mathlib.Core.List.{append_assoc, append-nil}
use reapp_protocol.Amounts.{value_from, bigint_of, show, show_from}

show_from-fuel : (f g n : ℕ) → n < f → n < g → show_from f n ≡ show_from g n
unfolding show_from
show_from-fuel zero g n hf hg = absurd (omega arith)
show_from-fuel (suc f) zero n hf hg = absurd (omega arith)
show_from-fuel (suc f) (suc g) n hf hg = elim (Bool-cases (ltb n 10)) [
  | inl small ↦ rw small refl
  | inr large ↦
      let fewer : (n / 10 < f) × (n / 10 < g) = ground arith in
      rw (large, show_from-fuel f g (n / 10) fewer.0 fewer.1) refl
]

-- One more digit after a positive number.
show-digit : (n c : ℕ) → 0 < n → is_digit c ≡ true → show (n * 10 + (c - 48)) ≡ show n ++ c ∷ []
unfolding show show_from
show-digit n c positive digit =
    let large : ltb (n * 10 + (c - 48)) 10 ≡ false = ground arith in
    let higher : (n * 10 + (c - 48)) / 10 ≡ n = ground arith in
    let last : 48 + (n * 10 + (c - 48)) % 10 ≡ c = ground arith in
    let more = show_from-fuel (n * 10 + (c - 48)) (suc n) n (ground arith) (omega arith) in
    rw (large, higher, last) (ap (λ (s : Text). s ++ c ∷ []) more)

show-value_from :
    (s : Text) (n : ℕ) → 0 < n → all is_digit s ≡ true → show (value_from n s) ≡ show n ++ s
unfolding value_from
show-value_from [] n positive h = sym (append-nil (show n))
show-value_from (c ∷ s) n positive h =
    let (digit, rest) = and_elim (is_digit c) (all is_digit s) h in
    show-value_from s (n * 10 + (c - 48)) (omega (arith, positive)) rest
    ∙ ap (λ (t : Text). t ++ s) (show-digit n c positive digit)
    ∙ append_assoc (show n) (c ∷ []) s

value_from-positive : (s : Text) (n : ℕ) → 0 < n → 0 < value_from n s
unfolding value_from
value_from-positive [] n h = h
value_from-positive (c ∷ s) n h = value_from-positive s (n * 10 + (c - 48)) (omega (arith, h))

module _ (c : ℕ) (s : Text) (low : leb 49 c ≡ true) (high : leb c 57 ≡ true)
    (rest : all is_digit s ≡ true) where
  bigint_of-first : bigint_of (c ∷ s) ≡ value_from (c - 48) s
  unfolding value_from
  bigint_of-first = ap (λ (n : ℕ). value_from n s) (omega arith)

  pub bigint_of-positive : 0 < bigint_of (c ∷ s)
  bigint_of-positive = rw bigint_of-first (value_from-positive s (c - 48) (ground arith))

  one_digit : show (c - 48) ≡ c ∷ []
  unfolding show show_from
  one_digit =
      let small : ltb (c - 48) 10 ≡ true = ground arith in
      let same : 48 + (c - 48) ≡ c = ground arith in rw (small, same) refl

  pub show-bigint_of : show (bigint_of (c ∷ s)) ≡ c ∷ s
  show-bigint_of =
      ap show bigint_of-first
      ∙ show-value_from s (c - 48) (ground arith) rest
      ∙ ap (λ (t : Text). t ++ s) one_digit
