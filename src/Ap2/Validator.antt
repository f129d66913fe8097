-- ===== src/Ap2/Validator.antt =====
-- Admitting a signed mandate once: `createAp2ComplianceValidator` of
-- packages/ap2/src/validator.ts.
use reapp_protocol.Common.{
  Bool, Number, Option, Result, Text, err, guard, if◌then◌else◌, is_natural_safe, leb, ltb, natural,
  none, ok, some, text_eq, ℕ, ◌&&◌, ◌++◌, ◌>>=◌, ◌>>◌, ◌∷◌,
}
use reapp_protocol.Json.{Json, Platform}
use reapp_protocol.Amounts.{to_stroops}
use reapp_protocol.Payment.{Reply, answer, unsupported, threw}
use reapp_protocol.RedemptionStore.{Consumption, consumed, duplicate, ReplayRecord, ReplayStore}
use reapp_protocol.Ap2.Types.{
  Credential, Binding, StellarKeys, spec_version, intent_data_key, ap2_binding_version,
  ap2_credential_version, signature_algorithm,
}
use reapp_protocol.Ap2.Credential.{
  parse_signed_ap2_mandate, rebuild_credential_binding, decode_canonical_signature, signing_digest,
}

pub data ErrorCode : Type 0 where
  invalid_credential unsupported_version invalid_signature signer_mismatch : ErrorCode
  binding_mismatch merchant_mismatch invalid_amount amount_exceeds_mandate expired : ErrorCode
  replayed replay_store_unavailable : ErrorCode
  -- An exception that carries no code.
  unclassified : ErrorCode

abbrev pub Validating : Type 0 → Type 0
Validating A = Result ErrorCode A

pub record ValidateInput : Type 0 where
  pub credential : Json
  pub expected_user : Text
  pub merchant : Text
  pub amount : Text

pub record Validated : Type 0 where
  pub credential : Credential
  pub binding : Binding
  pub mandate_hash : Text
  pub amount_stroops : ℕ
  pub accepted_at : ℕ

abbrev pub validated_of : Credential → Binding → ℕ → ℕ → Validated
validated_of c binding stroops accepted_at = record {
  credential = c;
  binding = binding;
  mandate_hash = c.mandate_hash;
  amount_stroops = stroops;
  accepted_at = accepted_at;
}

-- `Number.isInteger(value) && value >= 0 && Number.isSafeInteger(value)`
unfoldable pub capture_now : Number → Validating ℕ
unfolding is_natural_safe
capture_now value = if is_natural_safe value then ok (natural value) else err invalid_credential

-- `try { … } catch (cause) { throw new Ap2ValidationError(code, …) }`
abbrev pub or_code {ℓ} : {E : Type ℓ} {A : Type 0} → ErrorCode → Result E A → Validating A
or_code code (err e) = err code
or_code code (ok a) = ok a

unfoldable pub is_supported : Credential → Bool
is_supported c =
    text_eq c.credential_version ap2_credential_version
    && text_eq c.payload.ap2_spec_version spec_version
    && text_eq c.payload.ap2_data_key intent_data_key
    && text_eq c.payload.binding_version ap2_binding_version
    && text_eq c.algorithm signature_algorithm

unfoldable pub read_amount : Text → ℕ → Validating ℕ
unfolding to_stroops
read_amount amount decimals = do
  stroops ← or_code invalid_amount (to_stroops amount decimals)
  guard (ltb 0 stroops) invalid_amount
  ok stroops

-- What follows `Keypair.fromPublicKey(user).verify(digest, signature)`.
unfoldable pub check_verified : Option Bool → Validating (Unit {0})
check_verified none = err unclassified
check_verified (some valid) = guard valid invalid_signature

module _ (platform : Platform) (keys : StellarKeys) where
  unfoldable pub has_valid_parties : Text → Credential → Validating (Unit {0})
  has_valid_parties expected_user c = do
    guard
        (keys.is_ed25519_public_key c.payload.stellar.user
          && keys.is_ed25519_public_key expected_user)
        invalid_credential
    guard (text_eq c.payload.stellar.user expected_user) signer_mismatch
    guard (keys.is_ed25519_public_key c.payload.stellar.agent) invalid_credential
    guard (keys.is_address c.payload.intent.merchant) invalid_credential
    guard (keys.is_contract c.payload.stellar.asset) invalid_credential

  unfoldable pub check_signature : Credential → Validating (Unit {0})
  unfolding decode_canonical_signature signing_digest check_verified
  check_signature c = do
    signature ← or_code invalid_signature (decode_canonical_signature platform c.signature)
    digest ←
        or_code unclassified (signing_digest platform c.credential_version c.payload c.mandate_hash)
    check_verified (platform.verify_signature c.payload.stellar.user digest signature)

  -- Everything above the call of the store.
  unfoldable pub validate : Number → ValidateInput → Validating Validated
  unfolding capture_now parse_signed_ap2_mandate is_supported has_valid_parties
      rebuild_credential_binding check_signature read_amount
  validate clock input = do
    accepted_at ← capture_now clock
    c ← or_code invalid_credential (parse_signed_ap2_mandate input.credential)
    guard (is_supported c) unsupported_version
    has_valid_parties input.expected_user c
    binding ← or_code invalid_credential (rebuild_credential_binding platform c.payload)
    guard (text_eq binding.mandate.id c.mandate_hash) binding_mismatch
    check_signature c
    guard (text_eq input.merchant c.payload.intent.merchant) merchant_mismatch
    stroops ← read_amount input.amount c.payload.stellar.decimals
    guard (leb stroops binding.mandate.max_amount) amount_exceeds_mandate
    guard (ltb accepted_at binding.mandate.expiry) expired
    ok (validated_of c binding stroops accepted_at)

abbrev pub replay_key : Text → Text → Text
replay_key namespace mandate_hash = namespace ++ b':' ∷ mandate_hash

abbrev pub replay_record : Text → Validated → ReplayRecord
replay_record namespace v = record {
  key = replay_key namespace v.mandate_hash;
  namespace = namespace;
  mandate_hash = v.mandate_hash;
  user = v.credential.payload.stellar.user;
  accepted_at = v.accepted_at;
}

unfoldable pub after_consumption : Validated → Reply Consumption → Validating Validated
after_consumption v (answer consumed) = ok v
after_consumption v (answer duplicate) = err replayed
after_consumption v unsupported = err replay_store_unavailable
after_consumption v threw = err replay_store_unavailable

module _ (platform : Platform) (keys : StellarKeys) (store : ReplayStore) (namespace : Text) where
  unfoldable pub consume_validated :
      Validating Validated → store.State → Validating Validated × store.State
  unfolding after_consumption
  consume_validated (err code) s = (err code, s)
  consume_validated (ok v) s =
      let (reply, s') = store.consume_once (replay_record namespace v) s in
      (after_consumption v reply, s')

  -- `validateAndConsume`, with the clock's value.
  unfoldable pub validate_and_consume :
      Number → ValidateInput → store.State → Validating Validated × store.State
  unfolding validate consume_validated
  validate_and_consume clock input s = consume_validated (validate platform keys clock input) s
