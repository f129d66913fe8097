-- ===== src/Amounts/RoundTrip.antt =====
-- `toStroops` after `formatStroops`, and the range of `toStroops`
-- (packages/sdk/src/index.ts, packages/express-middleware/src/verification.ts).
use reapp_protocol.Common.{
  All, Text, [], ap, arith, err, false, if◌then◌else◌, is_digits, length, ltb, ok, refl, replicate,
  suc, take, true, zero, ℕ, ◌%◌, ◌*◌, ◌++◌, ◌+◌, ◌/◌, ◌<◌, ◌==◌, ◌^◌, ◌∙◌, ◌∷◌, ◌≡◌, ◌≤◌,
}
use mathlib.Core.Path.{subst}
use native.Mathlib.Nat.{div-add-mod', mod-lt, pow-suc}
use reapp_protocol.Amounts.{
  too_many_decimals, too_large, i128_max, value_from, scale_amount, to_stroops, show, pad_start,
  strip_zeros, join_fraction, format_stroops,
}
use reapp_protocol.Amounts.Decimal.{
  IsDigit, show-value, All-append, show-IsDigit, show-length, show-cons,
}
use reapp_protocol.Amounts.Scaled.{
  IsPlain, trim-plain, All-map, is_digits_of, split_dot-digits, split_dot-dot, strip_zeros-IsDigit,
  length-strip_zeros, take-strip_zeros, value_from-pad_start, length-pad_start, pad_start-IsDigit,
}

pow-pos : (k : ℕ) → 0 < 10 ^ k
pow-pos zero = omega arith
pow-pos (suc k) = rw (pow-suc 10 k) (omega (arith, pow-pos k))

-- The digits of the fraction, padded to the full width and stripped again.
abbrev padded : ℕ → ℕ → Text
padded value decimals = pad_start (show (value % 10 ^ decimals)) decimals

scale_amount-show :
    (value decimals : ℕ) (digits frac : Text)
    → value ≤ i128_max
    → length frac ≤ decimals
    → take decimals (frac ++ replicate decimals 48) ≡ digits
    → value_from 0 digits ≡ value % 10 ^ decimals
    → scale_amount (show (value / 10 ^ decimals)) frac decimals ≡ ok value
unfolding scale_amount
scale_amount-show value decimals digits frac fits short back low =
    let whole = show-value (value / 10 ^ decimals) in
    let sum = div-add-mod' value (10 ^ decimals) in
    rw (back, low, whole)
      (finish (value / 10 ^ decimals * 10 ^ decimals + value % 10 ^ decimals) sum)
  where
    finish :
        (n : ℕ)
        → n ≡ value
        → (if ltb decimals (length frac)
            then err too_many_decimals
            else if ltb i128_max n
            then err too_large
            else ok n)
          ≡ ok value
    finish n e = ground arith

padded-length : (value k : ℕ) → length (padded value (suc k)) ≡ suc k
padded-length value k =
    length-pad_start _ (suc k) (show-length (value % 10 ^ suc k) k (mod-lt value (pow-pos (suc k))))

padded-IsDigit : (value decimals : ℕ) → All IsDigit (padded value decimals)
padded-IsDigit value decimals =
    pad_start-IsDigit (show (value % 10 ^ decimals)) decimals (show-IsDigit _)

fraction-scale :
    (value k : ℕ)
    → value ≤ i128_max
    → scale_amount (show (value / 10 ^ suc k)) (strip_zeros (padded value (suc k))) (suc k)
      ≡ ok value
fraction-scale value k fits =
    let full = padded-length value k in
    scale_amount-show value (suc k) (padded value (suc k)) (strip_zeros (padded value (suc k))) fits
      (omega (arith, length-strip_zeros (padded value (suc k))))
      (subst
        (λ n.
          take n (strip_zeros (padded value (suc k)) ++ replicate (suc k) 48)
          ≡ padded value (suc k))
        full (take-strip_zeros (padded value (suc k)) (suc k) (omega arith)))
      (value_from-pad_start (show (value % 10 ^ suc k)) (suc k) ∙ show-value _)

IsDigit→IsPlain : (c : ℕ) → IsDigit c → IsPlain c
IsDigit→IsPlain c h = omega arith

-- Reading a text of digits alone, and one with a fraction.
to_stroops-whole :
    (n decimals : ℕ) → to_stroops (show n) decimals ≡ scale_amount (show n) [] decimals
unfolding to_stroops
to_stroops-whole n decimals =
    let (c, s, e) = show-cons n in
    let digits = show-IsDigit n in
    rw
      (
        trim-plain (show n) (All-map (show n) IsDigit→IsPlain digits),
        split_dot-digits (show n) digits,
      )
      (rw (all_digits (show n) c s e digits) refl)
  where
    all_digits : (t : Text) (c : ℕ) (s : Text) → t ≡ c ∷ s → All IsDigit t → is_digits t ≡ true
    all_digits t c s e h = rw e (is_digits_of c s (subst (All IsDigit) e h))

to_stroops-fraction :
    (n decimals c : ℕ) (frac : Text)
    → All IsDigit (c ∷ frac)
    → to_stroops (show n ++ b'.' ∷ c ∷ frac) decimals ≡ scale_amount (show n) (c ∷ frac) decimals
unfolding to_stroops
to_stroops-fraction n decimals c frac h =
    let (d, s, e) = show-cons n in
    let digits = show-IsDigit n in
    let dot_plain : IsPlain b'.' = omega arith in
    let plain =
      All-append IsPlain (show n) (b'.' ∷ c ∷ frac) (All-map (show n) IsDigit→IsPlain digits)
        (dot_plain, All-map (c ∷ frac) IsDigit→IsPlain h) in
    rw (trim-plain (show n ++ b'.' ∷ c ∷ frac) plain, split_dot-dot (show n) (c ∷ frac) digits)
      (rw (all_digits (show n) d s e digits, is_digits_of c frac h) refl)
  where
    all_digits : (t : Text) (c : ℕ) (s : Text) → t ≡ c ∷ s → All IsDigit t → is_digits t ≡ true
    all_digits t c s e h = rw e (is_digits_of c s (subst (All IsDigit) e h))

joined :
    (n decimals : ℕ) (frac : Text)
    → All IsDigit frac
    → to_stroops (join_fraction (show n) frac) decimals ≡ scale_amount (show n) frac decimals
joined n decimals [] h = to_stroops-whole n decimals
joined n decimals (c ∷ frac) h = to_stroops-fraction n decimals c frac h

format_stroops-suc :
    (value k : ℕ)
    → format_stroops value (suc k)
      ≡ join_fraction (show (value / 10 ^ suc k)) (strip_zeros (padded value (suc k)))
unfolding format_stroops
format_stroops-suc value k = let nonzero : (suc k == 0) ≡ false = ground arith in rw nonzero refl

whole_scale :
    (value : ℕ) (t : Text)
    → value ≤ i128_max
    → value_from 0 t ≡ value
    → scale_amount t [] 0 ≡ ok value
unfolding scale_amount value_from
whole_scale value t fits e = rw e (ground arith)

-- An amount that fits the contract's i128 survives printing and reading, at every number of
-- decimals.
pub to_stroops-format_stroops :
    (value decimals : ℕ)
    → value ≤ i128_max
    → to_stroops (format_stroops value decimals) decimals ≡ ok value
unfolding format_stroops
to_stroops-format_stroops value zero fits =
    to_stroops-whole value 0 ∙ whole_scale value (show value) fits (show-value value)
to_stroops-format_stroops value (suc k) fits =
    ap (λ (t : Text). to_stroops t (suc k)) (format_stroops-suc value k)
    ∙ joined (value / 10 ^ suc k) (suc k) (strip_zeros (padded value (suc k)))
        (strip_zeros-IsDigit (padded value (suc k)) (padded-IsDigit value (suc k)))
    ∙ fraction-scale value k fits

-- What `toStroops` accepts fits the contract's i128.
pub to_stroops-le-i128_max :
    (human : Text) (decimals n : ℕ) → to_stroops human decimals ≡ ok n → n ≤ i128_max
unfolding to_stroops scale_amount
to_stroops-le-i128_max human decimals n h = ground arith
