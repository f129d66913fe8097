-- ===== src/X402/Required.antt =====
-- Reading the answer 402: `parse402` of packages/sdk/src/x402.ts.
use reapp_protocol.Common.{
  Bool, Option, Text, [], err, false, guard, if◌then◌else◌, int, lit, ltb, negsuc, non_integer,
  none, not, ok, pos, some, text_eq, true, ◌==◌, ◌>>=◌, ◌>>◌,
}
use reapp_protocol.Json.{Json, bool, num, str, arr, cons, obj, Fields, end, Platform, member}
use reapp_protocol.X402.{
  not_json, no_accepts, no_amount, no_pay_to, unsupported_version, Parsed, BoundChallenge, object,
  parse_challenge,
}

pub record PaymentRequired : Type 0 where
  pub scheme : Text
  pub network : Text
  pub amount : Text
  pub asset : Text
  pub pay_to : Text
  pub resource : Text
  pub contract : Option Text
  pub challenge : Option BoundChallenge

-- `value ?? other`
abbrev pub or_else : Option Json → Option Json → Option Json
or_else none other = other
or_else (some Json.null) other = other
or_else (some value) other = some value

-- `String(value ?? otherwise)`; `string_of` is `String` of what is no string.
unfoldable pub text_or : (Json → Text) → Option Json → Text → Text
text_or string_of none otherwise = otherwise
text_or string_of (some Json.null) otherwise = otherwise
text_or string_of (some (str s)) otherwise = s
text_or string_of (some value) otherwise = string_of value

-- The values that count as true; parsed JSON has no NaN.
unfoldable pub is_truthy : Json → Bool
is_truthy Json.null = false
is_truthy (bool b) = b
is_truthy (num (int (pos n))) = ltb 0 n
is_truthy (num (int (negsuc n))) = true
is_truthy (num non_integer) = true
is_truthy (str s) = not (text_eq s [])
is_truthy (arr items) = true
is_truthy (obj fields) = true

abbrev contract_of : (Json → Text) → Option Json → Option Text
contract_of string_of none = none
contract_of string_of (some value) =
    if is_truthy value then some (text_or string_of (some value) []) else none

-- `body?.accepts`, where it is a list that is not empty: its first entry.
unfoldable pub first_accepted : Option Json → Parsed Json
first_accepted (some (arr (cons v vs))) = ok v
first_accepted _ = err no_accepts

abbrev member_of : Text → Json → Option Json
member_of k (obj fields) = member k fields
member_of k _ = none

-- Whether the requirement asks for version 2: `reappProofVersion` is absent or 2.
unfoldable pub asks_version_two : Option Json → Parsed Bool
asks_version_two none = ok false
asks_version_two (some (num (int (pos n)))) = if n == 2 then ok true else err unsupported_version
asks_version_two (some _) = err unsupported_version

module _ (platform : Platform) (string_of : Json → Text) where
  abbrev pub challenge_if : Bool → Fields → Parsed (Option BoundChallenge)
  challenge_if false extra = ok none
  challenge_if true extra =
      parse_challenge platform (member (lit "challenge") extra) >>= (λ c. ok (some c))

  abbrev body_of : Option Json → Parsed Json
  body_of none = err not_json
  body_of (some body) = ok body

  -- The body, where it is JSON.
  unfoldable pub parse402 : Option Json → Parsed PaymentRequired
  unfolding first_accepted text_or asks_version_two is_truthy object member
  parse402 response = do
    body ← body_of response
    entry ← first_accepted (member_of (lit "accepts") body)
    accepted ← object (some entry)
    let amount =
        text_or string_of
          (or_else (member (lit "maxAmountRequired") accepted) (member (lit "amount") accepted)) []
    let pay_to = text_or string_of (member (lit "payTo") accepted) []
    guard (not (text_eq amount [])) no_amount
    guard (not (text_eq pay_to [])) no_pay_to
    extra ← object (or_else (member (lit "extra") accepted) (some (obj end)))
    second ← asks_version_two (member (lit "reappProofVersion") extra)
    challenge ← challenge_if second extra
    ok (record {
      scheme = text_or string_of (member (lit "scheme") accepted) (lit "reapp-soroban");
      network = text_or string_of (member (lit "network") accepted) (lit "stellar-testnet");
      amount = amount;
      asset = text_or string_of (member (lit "asset") accepted) [];
      pay_to = pay_to;
      resource = text_or string_of (member (lit "resource") accepted) [];
      contract = contract_of string_of (member (lit "contract") extra);
      challenge = challenge;
    })
