-- ===== src/Amounts.antt =====
-- Money as text and as stroops: `toStroops` of packages/sdk/src/index.ts and `formatStroops` of
-- packages/express-middleware/src/verification.ts. BigInts are natural numbers here, since neither
-- function meets a negative one.
pub mod Decimal
pub mod Scaled
pub mod RoundTrip
pub mod Canonical
use reapp_protocol.Common.{
  ==_iff, >>=-eq-ok, All, Bool, Bool-cases, List, List-cases, Number, Option, Option-cases, Result,
  String, Text, [], all, and3_elim, and4_elim, and_elim, ap, arith, err, false, find, find-insert,
  find-insert_self, find-remove, find_of_not_has, guard, has, has-eq-find, if◌then◌else◌, inl, inr,
  insert, int, is_digit, is_digits, is_exact, is_hex64, is_hex_digit, is_natural_safe,
  is_positive_safe, is_space, leb, leb→le, length, length-append, length-replicate, lit, lower_unit,
  ltb, ltb→lt, lt→ltb, map, max_safe_integer, natural, natural_pos, negsuc, non_integer, none, not,
  ok, or_elim_false, pos, refl, remove, replicate, some, suc, sym, take, text_eq, text_eq_refl,
  text_eq_iff, text_eq→eq, text_ne, to_lower, to_lower_idempotent, to_upper, trim, trim_start, true,
  upper_unit, zero, ℕ, ℤ, ◌%◌, ◌&&◌, ◌*◌, ◌++◌, ◌+◌, ◌-◌, ◌/◌, ◌<◌, ◌==◌, ◌>>=◌, ◌>>◌, ◌^◌, ◌||◌,
  ◌↔◌, ◌∙◌, ◌∷◌, ◌≡◌, ◌≢◌, ◌≤◌, ◌⊎◌,
}
use mathlib.Core.List.{reverse}

pub data AmountError : Type 0 where
  not_decimal too_many_decimals too_large : AmountError

-- 2n ** 127n - 1n
abbrev pub i128_max : ℕ
i128_max = 2 ^ 127 - 1

abbrev pub default_decimals : ℕ
default_decimals = 7

-- `BigInt(s)` of a string of digits; the empty string gives 0, as `"" || "0"` does.
unfoldable pub value_from : ℕ → Text → ℕ
value_from acc [] = acc
value_from acc (c ∷ s) = value_from (acc * 10 + (c - 48)) s

abbrev pub bigint_of : Text → ℕ
bigint_of s = value_from 0 s

-- `s.indexOf(".")` with the two slices that it makes: the text before the dot, and the text after
-- it if there is one.
unfoldable pub split_dot : Text → Text × Option Text
split_dot [] = ([], none)
split_dot (c ∷ s) =
    let (whole, frac) = split_dot s in if c == b'.' then ([], some s) else (c ∷ whole, frac)

-- `/^\d+(\.\d+)?$/`, read off the split at the first dot.
unfoldable pub is_decimal_split : Text × Option Text → Bool
is_decimal_split (whole, none) = is_digits whole
is_decimal_split (whole, some frac) = is_digits whole && is_digits frac

abbrev pub fraction_of : Option Text → Text
fraction_of none = []
fraction_of (some frac) = frac

-- The part after the test of the form.
unfoldable pub scale_amount : Text → Text → ℕ → Result AmountError ℕ
scale_amount whole frac decimals =
    let padded = take decimals (frac ++ replicate decimals b'0') in
    let stroops = bigint_of whole * 10 ^ decimals + bigint_of padded in
    if ltb decimals (length frac)
    then err too_many_decimals
    else if ltb i128_max stroops
    then err too_large
    else ok stroops

unfoldable pub to_stroops : Text → ℕ → Result AmountError ℕ
unfolding trim split_dot is_decimal_split is_digits scale_amount value_from
to_stroops human decimals =
    let split = split_dot (trim human) in
    if is_decimal_split split
    then scale_amount split.0 (fraction_of split.1) decimals
    else err not_decimal

-- `n.toString()`: with more fuel than `n` the digits are complete.
unfoldable pub show_from : ℕ → ℕ → Text
show_from zero n = []
show_from (suc fuel) n =
    let higher = show_from fuel (n / 10) in
    if ltb n 10 then (48 + n) ∷ [] else higher ++ (48 + n % 10) ∷ []

unfoldable pub show : ℕ → Text
unfolding show_from
show n = show_from (suc n) n

-- `s.padStart(width, "0")`
unfoldable pub pad_start : Text → ℕ → Text
pad_start s width = replicate (width - length s) b'0' ++ s

abbrev pub drop_zero : ℕ → Text → Text
drop_zero c [] = if c == b'0' then [] else c ∷ []
drop_zero c (d ∷ s) = c ∷ d ∷ s

-- `s.replace(/0+$/, "")`
unfoldable pub strip_zeros : Text → Text
strip_zeros [] = []
strip_zeros (c ∷ s) = drop_zero c (strip_zeros s)

abbrev pub join_fraction : Text → Text → Text
join_fraction whole [] = whole
join_fraction whole (c ∷ s) = whole ++ b'.' ∷ c ∷ s

unfoldable pub format_stroops : ℕ → ℕ → Text
unfolding show pad_start strip_zeros
format_stroops value decimals =
    if decimals == 0
    then show value
    else let scale = 10 ^ decimals in
      join_fraction (show (value / scale)) (strip_zeros (pad_start (show (value % scale)) decimals))
