-- ===== src/Ap2/Exact.antt =====
-- Texts without white space: hexadecimal digits and printed dates (packages/ap2/src/credential.ts).
use reapp_protocol.Common.{
  All, Text, [], all, and_elim, arith, is_exact, is_hex64, is_hex_digit, leb, leb→le, length, refl,
  text_eq, text_eq_refl, true, ℕ, ◌%◌, ◌&&◌, ◌+◌, ◌/◌, ◌<◌, ◌==◌, ◌∷◌, ◌≡◌,
}
use reapp_protocol.Amounts.Scaled.{IsPlain, trim-plain}
use reapp_protocol.Ap2.Calendar.{Timestamp, print_civil, two_digits}
use reapp_protocol.Ap2.Calendar.RoundTrip.{Fits}

pub exact_of_plain : (c : ℕ) (s : Text) → All IsPlain (c ∷ s) → is_exact (c ∷ s) ≡ true
unfolding is_exact text_eq
exact_of_plain c s h = rw (trim-plain (c ∷ s) h) (text_eq_refl (c ∷ s))

hex_digit-IsPlain : (c : ℕ) → is_hex_digit c ≡ true → IsPlain c
hex_digit-IsPlain c h = ground arith

hex-IsPlain : (s : Text) → all is_hex_digit s ≡ true → All IsPlain s
hex-IsPlain [] h = tt
hex-IsPlain (c ∷ s) h =
    let (digit, rest) = and_elim (is_hex_digit c) (all is_hex_digit s) h in
    (hex_digit-IsPlain c digit, hex-IsPlain s rest)

pub exact_of_hex : (s : Text) → 0 < length s → all is_hex_digit s ≡ true → is_exact s ≡ true
exact_of_hex [] h digits = absurd (omega (arith, h))
exact_of_hex (c ∷ s) h digits = exact_of_plain c s (hex-IsPlain (c ∷ s) digits)

pub hex_exact : (s : Text) → is_hex64 s ≡ true → is_exact s ≡ true
unfolding is_hex64
hex_exact [] h = absurd (cc)
hex_exact (c ∷ s) h = exact_of_hex (c ∷ s) (omega arith) (and_elim (length (c ∷ s) == 64) _ h).1

two_digits-IsPlain : (n : ℕ) (s : Text) → n < 100 → All IsPlain s → All IsPlain (two_digits n s)
two_digits-IsPlain n s h hs = ((omega arith, omega arith), ((omega arith, omega arith), hs))

two_digits_then :
    (n c : ℕ) (s : Text)
    → n < 100
    → (leb 33 c && leb c 126) ≡ true
    → All IsPlain s
    → All IsPlain (two_digits n (c ∷ s))
two_digits_then n c s h visible hs =
    let (low, high) = and_elim (leb 33 c) (leb c 126) visible in
    two_digits-IsPlain n (c ∷ s) h ((leb→le 33 c low, leb→le c 126 high), hs)

pub print_civil_exact : (t : Timestamp) → Fits t → is_exact (print_civil t) ≡ true
unfolding print_civil
print_civil_exact t f =
    let century : t.year / 100 < 100 = omega (arith, f.year) in
    let year : t.year % 100 < 100 = omega arith in
    let seconds = two_digits t.second (b'Z' ∷ []) in
    let minutes = two_digits t.minute (b':' ∷ seconds) in
    let hours = two_digits t.hour (b':' ∷ minutes) in
    let days = two_digits t.day (b'T' ∷ hours) in
    let months = two_digits t.month (b'-' ∷ days) in
    exact_of_plain (48 + t.year / 100 / 10) _ (
      two_digits-IsPlain (t.year / 100) (two_digits (t.year % 100) (b'-' ∷ months)) century (
        two_digits_then (t.year % 100) b'-' months year refl (
          two_digits_then t.month b'-' days f.month refl (
            two_digits_then t.day b'T' hours f.day refl (
              two_digits_then t.hour b':' minutes f.hour refl (
                two_digits_then t.minute b':' seconds f.minute refl
                  (two_digits_then t.second b'Z' [] f.second refl tt)))))))
