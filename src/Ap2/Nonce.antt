-- ===== src/Ap2/Nonce.antt =====
-- The nonce of a binding: one that the caller gives, or 16 random bytes in hexadecimal
-- (packages/ap2/src/index.ts, secureNonce and bindIntentMandate).
use reapp_protocol.Common.{
  >>=-eq-ok, AreBytes, List, Option, Option-cases, Text, [], all, ap, arith, inl, inr, is_exact,
  is_hex_digit, length, lit, none, ok, refl, some, sym, true, ℕ, ◌%◌, ◌*◌, ◌/◌, ◌<◌, ◌∙◌, ◌∷◌, ◌≡◌,
}
use reapp_protocol.Json.{Json, Fields, Platform, member}
use reapp_protocol.Ap2.Types.{Stellar, StellarKeys, Binding, stellar_keys}
use reapp_protocol.Ap2.Intent.{
  reject_unknown_keys, normalize_ap2_intent, mandate_input, of_mandate, read_stellar, bind_with,
  hex_digit, hex_of_bytes, binding_nonce_of, secure_nonce, require_exact_text,
  require_ed25519_address, require_contract, intent_decimals, Normalizing,
}
use reapp_protocol.Mandate.{create_intent_mandate}
use reapp_protocol.Ap2.Normalized.{ok_injective, require_exact_text-ok}
use reapp_protocol.Ap2.Exact.{exact_of_hex}

-- Web Crypto draws 16 bytes, where it is present.
abbrev pub DrawsNonce : Option (List ℕ) → Type 0
DrawsNonce entropy = (bytes : List ℕ) → entropy ≡ some bytes → (length bytes ≡ 16) × AreBytes bytes

length-hex_of_bytes : (bytes : List ℕ) → length (hex_of_bytes bytes) ≡ 2 * length bytes
unfolding hex_of_bytes
length-hex_of_bytes [] = refl
length-hex_of_bytes (b ∷ bytes) = omega (arith, length-hex_of_bytes bytes)

hex_digit_lem : (n : ℕ) → n < 16 → is_hex_digit (hex_digit n) ≡ true
hex_digit_lem n h = ground arith

all-hex_of_bytes : (bytes : List ℕ) → AreBytes bytes → all is_hex_digit (hex_of_bytes bytes) ≡ true
unfolding hex_of_bytes
all-hex_of_bytes [] h = refl
all-hex_of_bytes (b ∷ bytes) (small, rest) =
    rw
      (
        hex_digit_lem (b / 16) (omega arith),
        hex_digit_lem (b % 16) (omega arith),
        all-hex_of_bytes bytes rest,
      )
      refl

text_injective : {s t : Text} → ◌≡◌ {A = Normalizing Text} (ok s) (ok t) → s ≡ t
text_injective h = cc

module _ (platform : Platform) (keys_of : StellarKeys) (entropy : Option (List ℕ))
    (draws : DrawsNonce entropy) where
  secure_nonce-exact :
      (nonce : Text) → secure_nonce platform keys_of entropy ≡ ok nonce → is_exact nonce ≡ true
  unfolding secure_nonce
  secure_nonce-exact nonce h = elim (Option-cases entropy) [
    | inl absent ↦ absurd (let e = rw (absent, secure_nonce) at h in cc)
    | inr (bytes, drawn) ↦
        let e = text_injective (rw (drawn, secure_nonce) at h) in
        let (size, are) = draws bytes drawn in
        ap is_exact (sym e)
        ∙ exact_of_hex (hex_of_bytes bytes) (omega (arith, size, length-hex_of_bytes bytes))
            (all-hex_of_bytes bytes are)
  ]

  binding_nonce_of-exact :
      (given : Option Json) (nonce : Text)
      → binding_nonce_of platform keys_of entropy given ≡ ok nonce
      → is_exact nonce ≡ true
  unfolding binding_nonce_of
  binding_nonce_of-exact none nonce h = secure_nonce-exact nonce h
  binding_nonce_of-exact (some text) nonce h = require_exact_text-ok (some text) nonce h

  read_stellar-exact :
      (members : Fields) (stellar : Stellar)
      → read_stellar platform keys_of entropy members ≡ ok stellar
      → is_exact stellar.nonce ≡ true
  unfolding read_stellar
  read_stellar-exact members stellar h =
      let (_, _, h1) =
        >>=-eq-ok (require_ed25519_address keys_of (member (lit "user") members)) _ h in
      let (_, _, h2) =
        >>=-eq-ok (require_ed25519_address keys_of (member (lit "agent") members)) _ h1 in
      let (_, _, h3) =
        >>=-eq-ok (require_contract platform keys_of (member (lit "asset") members)) _ h2 in
      let (nonce, nonce_read, h4) =
        >>=-eq-ok (binding_nonce_of platform keys_of entropy (member (lit "nonce") members)) _ h3 in
      let (_, _, h5) = >>=-eq-ok (intent_decimals (member (lit "decimals") members)) _ h4 in
      let (_, _, same) = >>=-eq-ok (require_exact_text (member (lit "maxAmount") members)) _ h5 in
      let is : nonce ≡ stellar.nonce = ap (λ (s : Stellar). s.nonce) (ok_injective same) in
      ap is_exact (sym is) ∙ binding_nonce_of-exact (member (lit "nonce") members) nonce nonce_read

  -- The nonce of what is bound is an exact text.
  pub bind_with-exact :
      (now : ℕ) (input : Json) (stellar : Stellar) (b : Binding)
      → bind_with platform keys_of now entropy input ≡ ok (stellar, b)
      → is_exact b.binding_nonce ≡ true
  unfolding bind_with
  bind_with-exact now input stellar b h =
      let (fields, _, h1) =
        >>=-eq-ok (reject_unknown_keys (some input) (lit "intent" ∷ lit "stellar" ∷ [])) _ h in
      let (members, _, h2) =
        >>=-eq-ok (reject_unknown_keys (member (lit "stellar") fields) stellar_keys) _ h1 in
      let (normal, _, h3) =
        >>=-eq-ok (normalize_ap2_intent keys_of now (member (lit "intent") fields)) _ h2 in
      let (s, read, h4) = >>=-eq-ok (read_stellar platform keys_of entropy members) _ h3 in
      let (m, _, same) =
        >>=-eq-ok
          (of_mandate platform keys_of
            (create_intent_mandate platform [] (mandate_input platform s normal.0 normal.1)))
          _ h4 in
      let is : s.nonce ≡ b.binding_nonce =
        ap (λ (p : Stellar × Binding). p.1.binding_nonce) (ok_injective same) in
      ap is_exact (sym is) ∙ read_stellar-exact members s read
