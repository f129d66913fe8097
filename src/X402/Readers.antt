-- ===== src/X402/Readers.antt =====
-- The challenges and proofs of the wire format, and the readers of their fields that need no
-- platform (packages/sdk/src/x402.ts).
use reapp_protocol.Common.{
  Bool, List, Number, Option, Result, Text, [], all, err, false, guard, if◌then◌else◌, int,
  is_digit, is_exact, leb, length, lit, ltb, max_safe_integer, negsuc, ok, pos, some, ℕ, ◌&&◌, ◌==◌,
  ◌||◌, ◌∷◌,
}
use reapp_protocol.Json.{Json, num, str, obj, Fields, has_exact_keys}

pub data X402Error : Type 0 where
  fields not_object not_exact_text not_origin not_safe_integer not_base64 not_base64url : X402Error
  unsupported_version method_not_uppercase bad_body_hash bad_network_id bad_amount : X402Error
  bad_decimals bad_window unsupported_authorization bad_tx_hash bad_mandate_id : X402Error
  unsupported_algorithm scheme_or_network_differs bad_header not_json bad_legacy_field : X402Error
  no_accepts no_amount no_pay_to : X402Error

abbrev pub Parsed : Type 0 → Type 0
Parsed A = Result X402Error A

pub record Authorization : Type 0 where
  pub algorithm : Text
  pub mac : Text

pub record BoundChallenge : Type 0 where
  pub proof_version : ℕ
  pub challenge_id : Text
  pub audience : Text
  pub scheme : Text
  pub method : Text
  pub resource : Text
  pub body_sha256 : Option Text
  pub network : Text
  pub network_id : Text
  pub registry_id : Text
  pub merchant : Text
  pub asset : Text
  pub amount_stroops : Text
  pub decimals : ℕ
  pub issued_at : ℕ
  pub expires_at : ℕ
  pub authorization : Authorization

pub record LegacyProof : Type 0 where
  pub scheme : Text
  pub network : Text
  pub tx_hash : Text
  pub mandate_id : Text
  pub amount : Text

pub record BoundProof : Type 0 where
  pub proof_version : ℕ
  pub scheme : Text
  pub network : Text
  pub tx_hash : Text
  pub mandate_id : Text
  pub challenge : BoundChallenge
  pub algorithm : Text
  pub signature : Text

pub data PaymentProof : Type 0 where
  legacy : LegacyProof → PaymentProof
  bound : BoundProof → PaymentProof

abbrev pub bound_payment_scheme : Text
bound_payment_scheme = lit "reapp-soroban-bound"

abbrev pub bound_payment_capability : Text
bound_payment_capability = lit "reapp-bound-v2"

unfoldable pub exact_keys : Fields → List Text → Parsed (Unit {0})
unfolding has_exact_keys
exact_keys value expected = guard (has_exact_keys value expected) fields

unfoldable pub object : Option Json → Parsed Fields
object (some (obj fs)) = ok fs
object _ = err not_object

unfoldable pub text : Option Json → Parsed Text
text (some (str s)) = if is_exact s then ok s else err not_exact_text
text _ = err not_exact_text

unfoldable pub safe_integer : Option Json → Parsed Number
safe_integer (some (num (int (pos n)))) =
    if leb n max_safe_integer then ok (int (pos n)) else err not_safe_integer
safe_integer (some (num (int (negsuc n)))) =
    if ltb n max_safe_integer then ok (int (negsuc n)) else err not_safe_integer
safe_integer _ = err not_safe_integer

-- `value < 0 || value > bound` negated, and `value <= 0` negated, on a safe integer.
abbrev pub natural_upto : Number → ℕ → X402Error → Parsed ℕ
natural_upto (int (pos n)) most e = if leb n most then ok n else err e
natural_upto _ most e = err e

abbrev pub positive : Number → X402Error → Parsed ℕ
positive (int (pos n)) e = if ltb 0 n then ok n else err e
positive _ e = err e

-- `/^[1-9]\d*$/`
unfoldable pub is_positive_decimal : Text → Bool
is_positive_decimal [] = false
is_positive_decimal (c ∷ s) = leb 49 c && leb c 57 && all is_digit s

-- `/^[A-Za-z0-9_-]{43}$/`
abbrev pub is_base64url_digit : ℕ → Bool
is_base64url_digit c =
    (leb b'A' c && leb c b'Z')
    || (leb b'a' c && leb c b'z')
    || is_digit c
    || (c == b'_')
    || (c == b'-')

unfoldable pub is_base64url43 : Text → Bool
is_base64url43 s = (length s == 43) && all is_base64url_digit s

-- `accepted.key ?? value`
abbrev pub string_or : Option Json → Text → Text
string_or (some (str s)) default = s
string_or _ default = default
