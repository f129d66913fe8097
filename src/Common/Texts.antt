-- ===== src/Common/Texts.antt =====
-- JavaScript strings as lists of UTF-16 code units: `===`, `trim`, `toLowerCase` (on ASCII
-- letters) and the regular expressions that the packages test with.
use Prim.Native.Nat.{ℕ, ◌+◌, ◌-◌}
use Prim.Native.Char.{code}
use Prim.Native.String.{String}
use mathlib.Core.Path.{◌≡◌, refl}
use mathlib.Core.Logic.{◌≢◌, ◌↔◌}
use mathlib.Core.Bool.{Bool, true, false, ◌&&◌, ◌||◌, not}
use mathlib.Core.List.{List, [], ◌∷◌, map, reverse}
use native.Mathlib.Omega.{arith}
use reapp_protocol.Common.Tests.{leb, ◌==◌, if◌then◌else◌}
use reapp_protocol.Common.Lists.{length, all}

abbrev pub Text : Type 0
Text = List ℕ

-- A literal of the source.
abbrev pub lit : String → Text
lit String.[] = []
lit (String.◌∷◌ c s) = code c ∷ lit s

-- `===` on strings.
unfoldable pub text_eq : Text → Text → Bool
text_eq [] [] = true
text_eq (a ∷ as') (b ∷ bs) = (a == b) && text_eq as' bs
text_eq _ _ = false

pub text_eq_refl : (s : Text) → text_eq s s ≡ true
unfolding text_eq
text_eq_refl [] = refl
text_eq_refl (a ∷ s) = ground (arith, text_eq_refl s)

pub text_eq→eq : (s t : Text) → text_eq s t ≡ true → s ≡ t
unfolding text_eq
text_eq→eq [] [] h = refl
text_eq→eq (a ∷ s) (b ∷ t) h = ground (arith, text_eq→eq s t)
text_eq→eq [] (b ∷ t) h = cc
text_eq→eq (a ∷ s) [] h = cc

pub text_eq_iff : (s t : Text) → (text_eq s t ≡ true) ↔ (s ≡ t)
text_eq_iff s t = (text_eq→eq s t, λ e. (ground (arith, text_eq_refl s)))

pub text_ne : (s t : Text) → s ≢ t → text_eq s t ≡ false
text_ne s t h = ground (arith, text_eq→eq s t)

-- White space and line ends, as `String.prototype.trim` removes them.
unfoldable pub is_space : ℕ → Bool
is_space c =
    (leb 9 c && leb c 13)
    || (c == 32)
    || (c == 160)
    || (c == 0x1680)
    || (leb 0x2000 c && leb c 0x200a)
    || (c == 0x2028)
    || (c == 0x2029)
    || (c == 0x202f)
    || (c == 0x205f)
    || (c == 0x3000)
    || (c == 0xfeff)

unfoldable pub trim_start : Text → Text
trim_start [] = []
trim_start (c ∷ s) = let rest = trim_start s in if is_space c then rest else c ∷ s

unfoldable pub trim : Text → Text
unfolding trim_start is_space
trim s = reverse (trim_start (reverse (trim_start s)))

-- `value.length === 0 || value.trim() !== value` negated: a non-empty exact string.
unfoldable pub is_exact : Text → Bool
unfolding text_eq trim
is_exact s = not (text_eq s []) && text_eq (trim s) s

abbrev pub is_digit : ℕ → Bool
is_digit c = leb 48 c && leb c 57

abbrev pub is_hex_digit : ℕ → Bool
is_hex_digit c = is_digit c || (leb 97 c && leb c 102)

-- `/^[0-9a-f]{64}$/`
unfoldable pub is_hex64 : Text → Bool
is_hex64 s = (length s == 64) && all is_hex_digit s

-- `/^\d+$/`
unfoldable pub is_digits : Text → Bool
is_digits [] = false
is_digits (c ∷ s) = is_digit c && all is_digit s

-- `toLowerCase` on ASCII letters; other code units are left as they are.
abbrev pub lower_unit : ℕ → ℕ
lower_unit c = if leb 65 c && leb c 90 then c + 32 else c

unfoldable pub to_lower : Text → Text
to_lower s = map lower_unit s

-- `toUpperCase` on ASCII letters.
abbrev pub upper_unit : ℕ → ℕ
upper_unit c = if leb 97 c && leb c 122 then c - 32 else c

unfoldable pub to_upper : Text → Text
to_upper s = map upper_unit s

pub to_lower_idempotent : (s : Text) → to_lower (to_lower s) ≡ to_lower s
unfolding to_lower
to_lower_idempotent [] = refl
to_lower_idempotent (c ∷ s) =
    let head : lower_unit (lower_unit c) ≡ lower_unit c = ground arith in
    let tail = to_lower_idempotent s in cc

pub ne_of_text_eq : (s t : Text) → text_eq s t ≡ false → s ≢ t
ne_of_text_eq s t h e = cc ((text_eq_iff s t).1 e)
