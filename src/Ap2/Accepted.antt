-- ===== src/Ap2/Accepted.antt =====
-- Admission of a mandate that was signed: packages/ap2/src/credential.ts with validator.ts.
use reapp_protocol.Common.{
  >>=-eq-ok, List, Option, Result, Text, [], ap, err, false, guard_then, int, is_exact, is_hex64,
  is_natural_safe, leb, length, le→leb, lt→ltb, max_safe_integer, ok, pos, refl, some, sym, text_eq,
  text_eq_refl, text_eq→eq, trim, true, ℕ, ◌<◌, ◌∙◌, ◌≡◌, ◌≤◌,
}
use reapp_protocol.Json.{Json, Platform}
use reapp_protocol.Amounts.{to_stroops}
use reapp_protocol.Mandate.Created.{IsCreated}
use reapp_protocol.Ap2.Calendar.RoundTrip.{to_civil-IsCivil}
use reapp_protocol.Ap2.Types.{
  Stellar, Binding, Credential, StellarKeys, spec_version, intent_data_key, ap2_binding_version,
  ap2_credential_version, credential_json,
}
use reapp_protocol.Ap2.Nonce.{DrawsNonce, bind_with-exact}
use mathlib.Core.Path.{subst}
use reapp_protocol.RedemptionStore.{set_has, in_memory_replay, consume_mandate}
use reapp_protocol.Ap2.Intent.{mandate_input, IntentError, bind_with}
use reapp_protocol.Ap2.Credential.{
  CredentialError, or_not_bound, or_not_signed, signed_with, Signer, create_signed,
  sign_ap2_mandate, payload_of, is_base64_64, signing_digest, decode_canonical_signature,
}
use reapp_protocol.Ap2.Bound.{
  IsBound, bind_with-IsBound, rebuild_lem, bound-IsCreated, trim_of_exact, bound_decimals,
}
use reapp_protocol.Ap2.Parsing.{IsWire, parse_signed_ap2_mandate-credential_json}
use reapp_protocol.Ap2.Validator.{
  ValidateInput, validated_of, capture_now, is_supported, read_amount, check_verified,
  has_valid_parties, check_signature, validate, replay_key, after_consumption, consume_validated,
  validate_and_consume,
}
use reapp_protocol.Ap2.Exact.{hex_exact, print_civil_exact}

-- The platform's functions work together: a hash is 32 bytes in lower-case hexadecimal, the base64
-- text of a signature is canonical and is decoded to it, and a signature is 64 bytes and verifies
-- under the signer's public key.
pub record SignsFor (platform : Platform) (signer : Signer) : Type 0 where
  pub hex : (bytes : List ℕ) → is_hex64 (platform.to_hex (platform.sha256 bytes)) ≡ true
  pub signature : (digest : List ℕ) → length (signer.sign digest) ≡ 64
  pub base64 : (digest : List ℕ) → is_base64_64 (platform.to_base64 (signer.sign digest)) ≡ true
  pub exact : (digest : List ℕ) → is_exact (platform.to_base64 (signer.sign digest)) ≡ true
  pub decoded :
      (digest : List ℕ)
      → platform.of_base64 (platform.to_base64 (signer.sign digest)) ≡ signer.sign digest
  pub valid :
      (digest : List ℕ)
      → platform.verify_signature signer.public_key digest (signer.sign digest) ≡ some true

-- The request that presents a credential to its own merchant.
abbrev pub request_for : Credential → Text → ValidateInput
request_for c amount = record {
  credential = credential_json c;
  expected_user = c.payload.stellar.user;
  merchant = c.payload.intent.merchant;
  amount = amount;
}

capture_now_lem : (t : ℕ) → t ≤ max_safe_integer → capture_now (int (pos t)) ≡ ok t
unfolding capture_now is_natural_safe
capture_now_lem t h = rw (le→leb t max_safe_integer h) refl

read_amount_lem :
    (amount : Text) (decimals n : ℕ)
    → to_stroops amount decimals ≡ ok n
    → 0 < n
    → read_amount amount decimals ≡ ok n
unfolding read_amount
read_amount_lem amount decimals n h positive = rw (h, lt→ltb 0 n positive) refl

-- What a credential is signed from.
record IsSigning (platform : Platform) (keys : StellarKeys) (now : ℕ) (signer : Signer)
    (c : Credential) (entropy : Option (List ℕ)) (input : Json) : Type 0 where
  stellar : Stellar
  binding : Binding
  binds : bind_with platform keys now entropy input ≡ ok (stellar, binding)
  bound : IsBound platform keys now stellar binding
  signer_is : signer.public_key ≡ binding.mandate.user
  digest : List ℕ
  digested :
      signing_digest platform ap2_credential_version
        (payload_of platform binding stellar.max_amount)
        binding.mandate.id
      ≡ ok digest
  signed :
      c
      ≡ signed_with platform signer binding (payload_of platform binding stellar.max_amount) digest

or_not_bound-ok : {A : Type 0} (r : Result IntentError A) {a : A} → or_not_bound r ≡ ok a → r ≡ ok a
or_not_bound-ok (err e) h = absurd (cc)
or_not_bound-ok (ok b) h = cc

or_not_signed-ok :
    {A : Type 0} (r : Result CredentialError A) {a : A} → or_not_signed r ≡ ok a → r ≡ ok a
or_not_signed-ok (err e) h = absurd (cc)
or_not_signed-ok (ok b) h = cc

ok_injective :
    {a b : Credential} → ◌≡◌ {A = Result CredentialError Credential} (ok a) (ok b) → a ≡ b
ok_injective h = cc

bound_injective :
    {a b : Stellar × Binding}
    → ◌≡◌ {A = Result IntentError (Stellar × Binding)} (ok a) (ok b)
    → a ≡ b
bound_injective h = cc

-- A request for an amount that a mandate covers, before the mandate expires.
pub record IsCovered (b : Binding) (t : ℕ) (amount : Text) (n : ℕ) : Type 0 where
  pub stroops : to_stroops amount b.mandate.decimals ≡ ok n
  pub positive : 0 < n
  pub within : n ≤ b.mandate.max_amount
  pub alive : t < b.mandate.expiry
  pub safe : t ≤ max_safe_integer

-- `validateAndConsume` over the in-memory store admits the credential.
abbrev pub IsAdmitted :
    Platform → StellarKeys → Text → List Text → Credential → Binding → ℕ → Text → ℕ → Type 0
IsAdmitted platform keys namespace seen c b t amount n =
    (validate_and_consume platform keys in_memory_replay namespace (int (pos t))
      (request_for c amount) seen).0
    ≡ ok (validated_of c b n t)

module _ (platform : Platform) (keys : StellarKeys) (now : ℕ) (signer : Signer) (c : Credential)
    (entropy : Option (List ℕ)) (input : Json) where
  sign_ap2_mandate-IsSigning :
      sign_ap2_mandate platform keys now entropy input signer ≡ ok c
      → IsSigning platform keys now signer c entropy input
  unfolding sign_ap2_mandate create_signed
  sign_ap2_mandate-IsSigning h =
      let (bound, binds, h1) =
        >>=-eq-ok (or_not_bound (bind_with platform keys now entropy input)) _ h in
      let signs = or_not_signed-ok (create_signed platform signer bound.1 bound.0.max_amount) h1 in
      let (same_key, h2) = guard_then (text_eq signer.public_key bound.1.mandate.user) _ _ signs in
      let (digest, digested, same) =
        >>=-eq-ok
          (signing_digest platform ap2_credential_version
            (payload_of platform bound.1 bound.0.max_amount) bound.1.mandate.id)
          _ h2 in
      record {
        stellar = bound.0;
        binding = bound.1;
        binds = or_not_bound-ok _ binds;
        bound =
            bind_with-IsBound platform keys now entropy input bound.0 bound.1
              (or_not_bound-ok _ binds);
        signer_is = text_eq→eq _ _ same_key;
        digest = digest;
        digested = digested;
        signed = sym (ok_injective same);
      }

  module _ (signs : SignsFor platform signer) (draws : DrawsNonce entropy)
      (s : IsSigning platform keys now signer c entropy input) where
    mandate_is :
        IsCreated platform []
          (mandate_input platform s.stellar s.binding.normalized_intent s.bound.unix)
          s.binding.mandate
    mandate_is = bound-IsCreated platform keys now s.stellar s.binding s.bound

    mandate_hash_hex : is_hex64 s.binding.mandate.id ≡ true
    mandate_hash_hex = ap is_hex64 mandate_is.id ∙ signs.hex _

    -- The texts of the credential are exact.
    signed-IsWire : IsWire (
        signed_with platform signer s.binding
          (payload_of platform s.binding s.stellar.max_amount)
          s.digest)
    unfolding is_exact text_eq trim
    signed-IsWire =
        let exact_nonce =
          bind_with-exact platform keys entropy draws now input s.stellar s.binding s.binds in
        let iso = s.bound.intent.expiry in
        let dated = to_civil-IsCivil iso.instant iso.civil iso.dated in
        record {
          credential_version = refl;
          spec_version = ap (λ b. is_exact b.ap2_spec_version) s.bound.bound;
          data_key = ap (λ b. is_exact b.ap2_data_key) s.bound.bound;
          binding_version = ap (λ b. is_exact b.binding_version) s.bound.bound;
          description = s.bound.intent.description;
          merchant = s.bound.intent.merchant;
          intent_expiry = ap is_exact iso.printed ∙ print_civil_exact iso.civil dated.fits;
          user = ap is_exact mandate_is.user ∙ s.bound.authorized.user;
          agent = ap is_exact mandate_is.agent ∙ s.bound.authorized.agent;
          asset = ap is_exact mandate_is.asset ∙ s.bound.authorized.asset;
          max_amount =
              ap is_exact (trim_of_exact s.stellar.max_amount s.bound.authorized.max_amount)
              ∙ s.bound.authorized.max_amount;
          decimals =
              ap (λ d. leb d 38) (bound_decimals platform keys now s.stellar s.binding s.bound)
              ∙ le→leb s.stellar.decimals 38 s.bound.authorized.decimals;
          nonce = exact_nonce;
          mandate_hash = hex_exact s.binding.mandate.id mandate_hash_hex;
          hex = mandate_hash_hex;
          algorithm = refl;
          signature = signs.exact s.digest;
        }

    abbrev credential_of : Credential
    credential_of =
        signed_with platform signer s.binding (payload_of platform s.binding s.stellar.max_amount)
          s.digest

    decode_lem :
        decode_canonical_signature platform credential_of.signature ≡ ok (signer.sign s.digest)
    unfolding decode_canonical_signature
    decode_lem =
        let size = signs.signature s.digest in
        rw (signs.base64 s.digest, signs.decoded s.digest, size)
          (rw (text_eq_refl (platform.to_base64 (signer.sign s.digest))) refl)

    check_signature_lem : check_signature platform keys credential_of ≡ ok tt
    unfolding check_signature check_verified
    check_signature_lem =
        rw (decode_lem, s.digested) (rw (sym s.signer_is) (rw (signs.valid s.digest) refl))

    is_supported_lem : is_supported credential_of ≡ true
    unfolding is_supported text_eq
    is_supported_lem =
        let spec = ap (λ b. text_eq b.ap2_spec_version spec_version) s.bound.bound in
        let key = ap (λ b. text_eq b.ap2_data_key intent_data_key) s.bound.bound in
        let version = ap (λ b. text_eq b.binding_version ap2_binding_version) s.bound.bound in
        rw (spec, key, version) refl

    has_valid_parties_lem :
        has_valid_parties platform keys credential_of.payload.stellar.user credential_of ≡ ok tt
    unfolding has_valid_parties
    has_valid_parties_lem =
        let user = ap keys.is_ed25519_public_key mandate_is.user ∙ s.bound.authorized.user_key in
        let agent = ap keys.is_ed25519_public_key mandate_is.agent ∙ s.bound.authorized.agent_key in
        let asset = ap keys.is_contract mandate_is.asset ∙ s.bound.authorized.contract in
        rw (user, text_eq_refl s.binding.mandate.user, agent, s.bound.intent.address, asset) refl

    validate_lem :
        (t : ℕ) (amount : Text) (n : ℕ)
        → t ≤ max_safe_integer
        → to_stroops amount s.binding.mandate.decimals ≡ ok n
        → 0 < n
        → n ≤ s.binding.mandate.max_amount
        → t < s.binding.mandate.expiry
        → validate platform keys (int (pos t)) (request_for credential_of amount)
          ≡ ok (validated_of credential_of s.binding n t)
    unfolding validate
    validate_lem t amount n safe stroops positive covered alive =
        rw
          (
            capture_now_lem t safe,
            parse_signed_ap2_mandate-credential_json credential_of signed-IsWire,
            is_supported_lem,
            has_valid_parties_lem,
            rebuild_lem platform keys now s.stellar s.binding s.bound,
            text_eq_refl s.binding.mandate.id,
            check_signature_lem,
            text_eq_refl s.binding.normalized_intent.merchant,
            read_amount_lem amount s.binding.mandate.decimals n stroops positive,
            le→leb n s.binding.mandate.max_amount covered,
            lt→ltb t s.binding.mandate.expiry alive,
          )
          refl

    accepted_of_signing :
        (stellar : Stellar) (b : Binding)
        → bind_with platform keys now entropy input ≡ ok (stellar, b)
        → (namespace : Text) (seen : List Text) (t : ℕ) (amount : Text) (n : ℕ)
        → IsCovered b t amount n
        → set_has (replay_key namespace credential_of.mandate_hash) seen ≡ false
        → IsAdmitted platform keys namespace seen credential_of b t amount n
    unfolding validate_and_consume consume_validated consume_mandate after_consumption
    accepted_of_signing stellar b binds namespace seen t amount n h fresh =
        let same : s.binding ≡ b =
          ap (λ (p : Stellar × Binding). p.1) (bound_injective (sym s.binds ∙ binds)) in
        let own = subst (λ x. IsCovered x t amount n) (sym same) h in
        let valid =
          validate_lem t amount n own.safe own.stroops own.positive own.within own.alive in
        rw (sym same) (rw (valid, fresh) refl)

-- Whatever `signAp2Mandate` signs is admitted: presented to its own merchant with a positive amount
-- up to the maximum of the mandate that `bindIntentMandate` made of the same input, at a safe time
-- before that mandate expires and where its key is not yet in the store, the credential passes every
-- check. The platform signs, hashes and encodes as documented: a signature is 64 bytes that verify
-- and survive base64, and a hash is printed in hexadecimal; 16 random bytes are drawn for a nonce.
pub sign_ap2_mandate-IsAdmitted :
    (platform : Platform) (keys : StellarKeys) (now : ℕ) (signer : Signer) (c : Credential)
    (entropy : Option (List ℕ)) (input : Json)
    → sign_ap2_mandate platform keys now entropy input signer ≡ ok c
    → SignsFor platform signer
    → DrawsNonce entropy
    → (stellar : Stellar) (b : Binding)
    → bind_with platform keys now entropy input ≡ ok (stellar, b)
    → (namespace : Text) (seen : List Text) (t : ℕ) (amount : Text) (n : ℕ) → IsCovered b t amount n
    → set_has (replay_key namespace c.mandate_hash) seen ≡ false
    → IsAdmitted platform keys namespace seen c b t amount n
sign_ap2_mandate-IsAdmitted platform keys now signer c entropy input h signs draws =
    let s = sign_ap2_mandate-IsSigning platform keys now signer c entropy input h in
    subst
      (λ x.
        (stellar : Stellar) (b : Binding)
        → bind_with platform keys now entropy input ≡ ok (stellar, b)
        → (namespace : Text) (seen : List Text) (t : ℕ) (amount : Text) (n : ℕ)
        → IsCovered b t amount n
        → set_has (replay_key namespace x.mandate_hash) seen ≡ false
        → IsAdmitted platform keys namespace seen x b t amount n)
      (sym s.signed) (accepted_of_signing platform keys now signer c entropy input signs draws s)
