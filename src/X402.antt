-- ===== src/X402.antt =====
-- The x402 wire format: packages/sdk/src/x402.ts. Challenges and proofs are read out of JSON
-- values; the integers of a challenge that has been read are natural numbers, since the reader
-- refuses others.
mod Readers
pub mod Wire
pub mod Required
unfoldable pub use Readers.*
use reapp_protocol.Common.{
  ==_iff, >>=-eq-ok, All, Bool, Bool-cases, List, List-cases, Number, Option, Option-cases, Result,
  String, Text, [], all, and3_elim, and4_elim, and_elim, ap, arith, err, false, find, find-insert,
  find-insert_self, find-remove, find_of_not_has, guard, has, has-eq-find, if◌then◌else◌, inl, inr,
  insert, int, is_digit, is_digits, is_exact, is_hex64, is_hex_digit, is_natural_safe,
  is_positive_safe, is_space, leb, leb→le, length, length-append, length-replicate, lit, lower_unit,
  ltb, ltb→lt, lt→ltb, map, max_safe_integer, natural, natural_pos, negsuc, non_integer, none, not,
  ok, or_elim_false, pos, refl, remove, replicate, some, suc, sym, take, text_eq, text_eq_refl,
  text_eq_iff, text_eq→eq, text_ne, to_lower, to_lower_idempotent, to_upper, trim, trim_start, true,
  upper_unit, zero, ℕ, ℤ, ◌%◌, ◌&&◌, ◌*◌, ◌++◌, ◌+◌, ◌-◌, ◌/◌, ◌<◌, ◌==◌, ◌>>=◌, ◌>>◌, ◌^◌, ◌||◌,
  ◌↔◌, ◌∙◌, ◌∷◌, ◌≡◌, ◌≢◌, ◌≤◌, ◌⊎◌,
}
use reapp_protocol.Json.{
  Json, null, bool, num, str, arr, obj, Items, nil, cons, Fields, end, field, Url, Platform, member,
  keys, text_le, insert_sorted, sort_texts, texts_equal, has_exact_keys, is_base64_digit, is_base64,
}

module _ (platform : Platform) where
  unfoldable pub canonical_origin : Text → Parsed Text
  canonical_origin origin = do
    guard (is_exact origin) not_exact_text
    elim (platform.parse_url origin) [
      | none ↦ err not_origin
      | some u ↦
          if (text_eq u.protocol (lit "https:") || text_eq u.protocol (lit "http:"))
            && text_eq u.origin origin
            && text_eq u.username []
            && text_eq u.password []
            && text_eq u.pathname (lit "/")
            && text_eq u.search []
            && text_eq u.fragment []
          then ok origin
          else err not_origin
    ]

  unfoldable pub canonical_base64 : Option Json → ℕ → Parsed Text
  unfolding text
  canonical_base64 value decoded_length = do
    encoded ← text value
    guard (is_base64 encoded) not_base64
    let decoded = platform.of_base64 encoded
    guard (length decoded == decoded_length && text_eq (platform.to_base64 decoded) encoded)
        not_base64
    ok encoded

  unfoldable pub canonical_base64url32 : Option Json → Parsed Text
  unfolding text is_base64url43
  canonical_base64url32 value = do
    encoded ← text value
    guard (is_base64url43 encoded) not_base64url
    let decoded = platform.of_base64url encoded
    guard (length decoded == 32 && text_eq (platform.to_base64url decoded) encoded) not_base64url
    ok encoded

  -- `challenge.bodySha256 === null ? null : text(…)`, with its form.
  unfoldable pub body_hash : Option Json → Parsed (Option Text)
  unfolding text
  body_hash (some null) = ok none
  body_hash value = do s ← text value; guard (is_hex64 s) bad_body_hash; ok (some s)

  abbrev pub challenge_keys : List Text
  challenge_keys =
      lit "proofVersion"
      ∷ lit "challengeId"
      ∷ lit "audience"
      ∷ lit "scheme"
      ∷ lit "method"
      ∷ lit "resource"
      ∷ lit "bodySha256"
      ∷ lit "network"
      ∷ lit "networkId"
      ∷ lit "registryId"
      ∷ lit "merchant"
      ∷ lit "asset"
      ∷ lit "amountStroops"
      ∷ lit "decimals"
      ∷ lit "issuedAt"
      ∷ lit "expiresAt"
      ∷ lit "authorization"
      ∷ []

  abbrev is_two : Option Json → Bool
  is_two (some (num (int (pos n)))) = n == 2
  is_two _ = false

  abbrev is_string : Option Json → Text → Bool
  is_string (some (str s)) t = text_eq s t
  is_string _ t = false

  unfoldable pub parse_authorization : Option Json → Parsed Fields
  unfolding object exact_keys
  parse_authorization value = do
    authorization ← object value
    exact_keys authorization (lit "algorithm" ∷ lit "mac" ∷ [])
    guard (is_string (member (lit "algorithm") authorization) (lit "hmac-sha256"))
        unsupported_authorization
    ok authorization

  unfoldable pub parse_challenge : Option Json → Parsed BoundChallenge
  parse_challenge value = do
    challenge ← object value
    exact_keys challenge challenge_keys
    guard (is_two (member (lit "proofVersion") challenge)) unsupported_version
    challenge_id ← canonical_base64url32 (member (lit "challengeId") challenge)
    method ← text (member (lit "method") challenge)
    guard (text_eq method (to_upper method)) method_not_uppercase
    body_sha256 ← body_hash (member (lit "bodySha256") challenge)
    network_id ← text (member (lit "networkId") challenge)
    guard (is_hex64 network_id) bad_network_id
    amount_stroops ← text (member (lit "amountStroops") challenge)
    guard (is_positive_decimal amount_stroops) bad_amount
    decimals_number ← safe_integer (member (lit "decimals") challenge)
    decimals ← natural_upto decimals_number 38 bad_decimals
    issued_number ← safe_integer (member (lit "issuedAt") challenge)
    expires_number ← safe_integer (member (lit "expiresAt") challenge)
    issued_at ← positive issued_number bad_window
    expires_at ← positive expires_number bad_window
    guard (ltb issued_at expires_at) bad_window
    authorization ← parse_authorization (member (lit "authorization") challenge)
    audience_text ← text (member (lit "audience") challenge)
    audience ← canonical_origin audience_text
    scheme ← text (member (lit "scheme") challenge)
    resource ← text (member (lit "resource") challenge)
    network ← text (member (lit "network") challenge)
    registry_id ← text (member (lit "registryId") challenge)
    merchant ← text (member (lit "merchant") challenge)
    asset ← text (member (lit "asset") challenge)
    mac ← canonical_base64 (member (lit "mac") authorization) 32
    ok (record {
      proof_version = 2;
      challenge_id = challenge_id;
      audience = audience;
      scheme = scheme;
      method = method;
      resource = resource;
      body_sha256 = body_sha256;
      network = network;
      network_id = network_id;
      registry_id = registry_id;
      merchant = merchant;
      asset = asset;
      amount_stroops = amount_stroops;
      decimals = decimals;
      issued_at = issued_at;
      expires_at = expires_at;
      authorization = record { algorithm = lit "hmac-sha256"; mac = mac };
    })

  unfoldable pub parse_bound_proof : Fields → Parsed BoundProof
  parse_bound_proof value = do
    exact_keys value (
        lit "proofVersion"
        ∷ lit "scheme"
        ∷ lit "network"
        ∷ lit "txHash"
        ∷ lit "mandateId"
        ∷ lit "challenge"
        ∷ lit "authorization"
        ∷ [])
    guard (is_two (member (lit "proofVersion") value)) unsupported_version
    challenge ← parse_challenge (member (lit "challenge") value)
    tx_hash ← text (member (lit "txHash") value)
    mandate_id ← text (member (lit "mandateId") value)
    guard (is_hex64 tx_hash) bad_tx_hash
    guard (is_hex64 mandate_id) bad_mandate_id
    authorization ← object (member (lit "authorization") value)
    exact_keys authorization (lit "algorithm" ∷ lit "signature" ∷ [])
    guard (is_string (member (lit "algorithm") authorization) (lit "stellar-ed25519-sha256"))
        unsupported_algorithm
    scheme ← text (member (lit "scheme") value)
    network ← text (member (lit "network") value)
    guard (text_eq scheme challenge.scheme && text_eq network challenge.network)
        scheme_or_network_differs
    signature ← canonical_base64 (member (lit "signature") authorization) 64
    ok (record {
      proof_version = 2;
      scheme = scheme;
      network = network;
      tx_hash = tx_hash;
      mandate_id = mandate_id;
      challenge = challenge;
      algorithm = lit "stellar-ed25519-sha256";
      signature = signature;
    })

  -- A field of a legacy proof: a non-empty string with no white space at its ends.
  abbrev legacy_field : Option Json → Parsed Text
  legacy_field (some (str s)) = if is_exact s then ok s else err bad_legacy_field
  legacy_field _ = err bad_legacy_field

  unfoldable pub parse_legacy_proof : Fields → Parsed LegacyProof
  parse_legacy_proof proof = do
    scheme ← legacy_field (member (lit "scheme") proof)
    network ← legacy_field (member (lit "network") proof)
    tx_hash ← legacy_field (member (lit "txHash") proof)
    mandate_id ← legacy_field (member (lit "mandateId") proof)
    amount ← legacy_field (member (lit "amount") proof)
    exact_keys proof
        (lit "scheme" ∷ lit "network" ∷ lit "txHash" ∷ lit "mandateId" ∷ lit "amount" ∷ [])
    ok (record {
      scheme = scheme;
      network = network;
      tx_hash = tx_hash;
      mandate_id = mandate_id;
      amount = amount;
    })

  -- A proof with a `proofVersion` is a bound proof of version 2, any other a legacy proof.
  unfoldable pub parse_proof : Fields → Parsed PaymentProof
  parse_proof proof = elim (member (lit "proofVersion") proof) [
    | some version ↦
        if is_two (some version)
        then (parse_bound_proof proof >>= λ p. ok (bound p))
        else err unsupported_version
    | none ↦ parse_legacy_proof proof >>= λ p. ok (legacy p)
  ]

  abbrev parsed_json : Text → Parsed Json
  parsed_json s = elim (platform.parse_json s) [ none ↦ err not_json | some j ↦ ok j ]

  unfoldable pub decode_proof : Text → Parsed PaymentProof
  decode_proof header = do
    guard (is_exact header) bad_header
    guard (leb (length header) 65536 && is_base64 header) bad_header
    let decoded = platform.of_base64 header
    guard (text_eq (platform.to_base64 decoded) header) bad_header
    parsed ← parsed_json (platform.of_utf8 decoded)
    proof ← object (some parsed)
    parse_proof proof
