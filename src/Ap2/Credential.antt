-- ===== src/Ap2/Credential.antt =====
-- Signed credentials: packages/ap2/src/credential.ts.
use reapp_protocol.Common.{
  Bool, List, Number, Option, Result, Text, [], all, drop, err, false, guard, if◌then◌else◌, int,
  is_exact, is_hex64, leb, length, lit, negsuc, none, ok, pos, some, take, text_eq, trim, ℕ, ◌&&◌,
  ◌*◌, ◌++◌, ◌+◌, ◌-◌, ◌==◌, ◌>>=◌, ◌>>◌, ◌∷◌,
}
use reapp_protocol.Json.{
  Json, bool, num, str, arr, nil, cons, obj, Fields, Platform, member, has_exact_keys,
  is_base64_digit,
}
use reapp_protocol.Mandate.{CreateInput, MandateError, create_intent_mandate}
use reapp_protocol.Ap2.Calendar.{
  CalendarError, Timestamp, is_real, date_parse, epoch, to_civil, print_civil, read_utc,
}
use reapp_protocol.Ap2.Types.{
  StellarKeys, Payload, Credential, Binding, ap2_credential_version, signature_algorithm,
  intent_keys, stellar_keys, intent_json, payload_json,
}
use reapp_protocol.Ap2.Canonical.{canonicalize}
use reapp_protocol.Ap2.Intent.{IntentError, bind_with, hash_of_intent, core_nonce}

pub data CredentialError : Type 0 where
  not_plain missing_or_unsupported not_exact not_array human_present refundable : CredentialError
  bad_decimals bad_mandate_hash wrong_signer bad_signature_encoding bad_expiry : CredentialError
  mandate_failed : MandateError → CredentialError

-- A Stellar key pair that signs.
pub record Signer : Type 0 where
  pub public_key : Text
  pub sign : List ℕ → List ℕ

abbrev pub Credentialed : Type 0 → Type 0
Credentialed A = Result CredentialError A

-- `requireRecord` with the `requireExactKeys` that follows it.
unfoldable pub require_record : Option Json → List Text → Credentialed Fields
unfolding has_exact_keys
require_record (some (obj fields)) expected =
    if has_exact_keys fields expected then ok fields else err missing_or_unsupported
require_record _ expected = err not_plain

unfoldable pub require_text : Option Json → Credentialed Text
require_text (some (str s)) = if is_exact s then ok s else err not_exact
require_text _ = err not_exact

-- The entry of an array of length 1, and an array of length 0.
unfoldable pub require_single : Option Json → Credentialed Text
unfolding require_text
require_single (some (arr (cons v nil))) = require_text (some v)
require_single _ = err not_array

unfoldable pub require_empty : Option Json → Credentialed (Unit {0})
require_empty (some (arr nil)) = ok tt
require_empty _ = err not_array

unfoldable pub require_false : CredentialError → Option Json → Credentialed (Unit {0})
require_false e (some (bool false)) = ok tt
require_false e _ = err e

unfoldable pub require_decimals : Option Json → Credentialed ℕ
require_decimals (some (num (int (pos n)))) = if leb n 38 then ok n else err bad_decimals
require_decimals _ = err bad_decimals

abbrev payload_keys : List Text
payload_keys =
    lit "ap2SpecVersion"
    ∷ lit "ap2DataKey"
    ∷ lit "bindingVersion"
    ∷ lit "intent"
    ∷ lit "stellar"
    ∷ []

abbrev envelope_keys : List Text
envelope_keys = lit "credentialVersion" ∷ lit "payload" ∷ lit "mandateHash" ∷ lit "signature" ∷ []

-- The checks before the value is built.
unfoldable pub parse_signed_ap2_mandate : Json → Credentialed Credential
unfolding require_record require_text require_single require_empty require_false require_decimals
    is_hex64 member
parse_signed_ap2_mandate value = do
  envelope ← require_record (some value) envelope_keys
  payload ← require_record (member (lit "payload") envelope) payload_keys
  intent ← require_record (member (lit "intent") payload) intent_keys
  require_false human_present (member (lit "user_cart_confirmation_required") intent)
  require_false refundable (member (lit "requires_refundability") intent)
  merchant ← require_single (member (lit "merchants") intent)
  require_empty (member (lit "skus") intent)
  stellar ← require_record (member (lit "stellar") payload) stellar_keys
  decimals ← require_decimals (member (lit "decimals") stellar)
  signature ←
      require_record (member (lit "signature") envelope) (lit "algorithm" ∷ lit "value" ∷ [])
  mandate_hash ← require_text (member (lit "mandateHash") envelope)
  guard (is_hex64 mandate_hash) bad_mandate_hash
  credential_version ← require_text (member (lit "credentialVersion") envelope)
  spec_version ← require_text (member (lit "ap2SpecVersion") payload)
  data_key ← require_text (member (lit "ap2DataKey") payload)
  binding_version ← require_text (member (lit "bindingVersion") payload)
  description ← require_text (member (lit "natural_language_description") intent)
  intent_expiry ← require_text (member (lit "intent_expiry") intent)
  user ← require_text (member (lit "user") stellar)
  agent ← require_text (member (lit "agent") stellar)
  asset ← require_text (member (lit "asset") stellar)
  max_amount ← require_text (member (lit "maxAmount") stellar)
  nonce ← require_text (member (lit "nonce") stellar)
  algorithm ← require_text (member (lit "algorithm") signature)
  signature_value ← require_text (member (lit "value") signature)
  ok (record {
    credential_version = credential_version;
    payload = record {
      ap2_spec_version = spec_version;
      ap2_data_key = data_key;
      binding_version = binding_version;
      intent = record {
        description = description;
        merchant = merchant;
        intent_expiry = intent_expiry;
      };
      stellar = record {
        user = user;
        agent = agent;
        asset = asset;
        max_amount = max_amount;
        decimals = decimals;
        nonce = nonce;
      };
    };
    mandate_hash = mandate_hash;
    algorithm = algorithm;
    signature = signature_value;
  })

-- `/^(?:[A-Za-z0-9+/]{4}){21}[A-Za-z0-9+/]{2}==$/`
unfoldable pub is_base64_64 : Text → Bool
is_base64_64 s =
    (length s == 88) && all is_base64_digit (take 86 s) && text_eq (drop 86 s) (lit "==")

abbrev nul : ℕ
nul = 0

abbrev pub signature_domain : Text
signature_domain =
    lit "REAPP" ++ nul ∷ (lit "AP2" ++ nul ∷ (lit "SIGNED-MANDATE" ++ nul ∷ (lit "V1" ++ nul ∷ [])))

-- `Buffer.from(text, "hex")` of digits in lower case.
abbrev hex_value : ℕ → ℕ
hex_value c = if leb c 57 then c - 48 else c - 87

unfoldable pub of_hex : Text → List ℕ
of_hex (a ∷ b ∷ s) = (16 * hex_value a + hex_value b) ∷ of_hex s
of_hex _ = []

-- The seconds since 1970, negative before.
abbrev pub unix_of : ℕ → Number
unix_of instant =
    int (if leb epoch instant then pos (instant - epoch) else negsuc (epoch - instant - 1))

abbrev of_calendar : {A : Type 0} → Result CalendarError A → Credentialed A
of_calendar (err e) = err bad_expiry
of_calendar (ok a) = ok a

abbrev of_mandate : {A : Type 0} → Result MandateError A → Credentialed A
of_mandate (err e) = err (mandate_failed e)
of_mandate (ok a) = ok a

abbrev prints_as : Text → Option Timestamp → Bool
prints_as text none = false
prints_as text (some t) = text_eq (print_civil t) text

-- The instant of a canonical UTC timestamp. `Date.parse` gives some text of this format that is no
-- real date (31 September) the instant of another one, which is printed otherwise: it is refused
-- either way.
unfoldable pub canonical_expiry : Text → Credentialed ℕ
unfolding read_utc is_real date_parse to_civil print_civil
canonical_expiry text = do
  t ← of_calendar (read_utc text)
  guard (is_real t && prints_as text (to_civil (date_parse t))) bad_expiry
  ok (date_parse t)

module _ (platform : Platform) where
  -- The bytes between and around the versions.
  abbrev signing_bytes : Text → Payload → Text → List ℕ
  signing_bytes version payload mandate_hash =
      platform.to_utf8 signature_domain
      ++ platform.to_utf8 version
      ++ 0
        ∷ (platform.to_utf8 payload.ap2_spec_version
            ++ 0
              ∷ (platform.to_utf8 payload.ap2_data_key
                  ++ 0
                    ∷ (platform.to_utf8 payload.binding_version
                        ++ 0
                          ∷ (platform.sha256
                                (platform.to_utf8 (canonicalize platform (payload_json payload)))
                              ++ 0 ∷ of_hex mandate_hash))))

  unfoldable pub signing_digest : Text → Payload → Text → Credentialed (List ℕ)
  unfolding is_hex64 canonicalize payload_json of_hex
  signing_digest version payload mandate_hash =
      if is_hex64 mandate_hash
      then ok (platform.sha256 (signing_bytes version payload mandate_hash))
      else err bad_mandate_hash

  abbrev pub payload_of : Binding → Text → Payload
  payload_of binding max_amount = record {
    ap2_spec_version = binding.ap2_spec_version;
    ap2_data_key = binding.ap2_data_key;
    binding_version = binding.binding_version;
    intent = binding.normalized_intent;
    stellar = record {
      user = binding.mandate.user;
      agent = binding.mandate.agent;
      asset = binding.mandate.asset;
      max_amount = trim max_amount;
      decimals = binding.mandate.decimals;
      nonce = binding.binding_nonce;
    };
  }

  abbrev pub signed_with : Signer → Binding → Payload → List ℕ → Credential
  signed_with signer binding payload digest = record {
    credential_version = ap2_credential_version;
    payload = payload;
    mandate_hash = binding.mandate.id;
    algorithm = signature_algorithm;
    signature = platform.to_base64 (signer.sign digest);
  }

  -- The last argument is `input.stellar.maxAmount`.
  unfoldable pub create_signed : Signer → Binding → Text → Credentialed Credential
  unfolding signing_digest trim
  create_signed signer binding max_amount = do
    guard (text_eq signer.public_key binding.mandate.user) wrong_signer
    digest ←
        signing_digest ap2_credential_version (payload_of binding max_amount) binding.mandate.id
    ok (signed_with signer binding (payload_of binding max_amount) digest)

  unfoldable pub decode_canonical_signature : Text → Credentialed (List ℕ)
  unfolding is_base64_64
  decode_canonical_signature value =
      let bytes = platform.of_base64 value in
      let canonical = (length bytes == 64) && text_eq (platform.to_base64 bytes) value in
      if is_base64_64 value && canonical then ok bytes else err bad_signature_encoding

  abbrev pub rebuild_input : Payload → ℕ → CreateInput
  rebuild_input payload instant = record {
    user = payload.stellar.user;
    agent = payload.stellar.agent;
    merchant = payload.intent.merchant;
    asset = payload.stellar.asset;
    max_amount = payload.stellar.max_amount;
    expiry = unix_of instant;
    decimals = some (int (pos payload.stellar.decimals));
    nonce = some (
        core_nonce payload.binding_version (hash_of_intent platform payload.intent)
          payload.stellar.nonce);
  }

  unfoldable pub rebuild_credential_binding : Payload → Credentialed Binding
  rebuild_credential_binding payload = do
    instant ← canonical_expiry payload.intent.intent_expiry
    mandate ← of_mandate (create_intent_mandate platform [] (rebuild_input payload instant))
    ok (record {
      ap2_spec_version = payload.ap2_spec_version;
      ap2_data_key = payload.ap2_data_key;
      binding_version = payload.binding_version;
      normalized_intent = payload.intent;
      canonical_intent = canonicalize platform (intent_json payload.intent);
      intent_hash = hash_of_intent platform payload.intent;
      binding_nonce = payload.stellar.nonce;
      mandate = mandate;
    })

pub data SignError : Type 0 where
  not_bound : IntentError → SignError
  not_signed : CredentialError → SignError

abbrev pub or_not_bound : {A : Type 0} → Result IntentError A → Result SignError A
or_not_bound (err e) = err (not_bound e)
or_not_bound (ok a) = ok a

abbrev pub or_not_signed : {A : Type 0} → Result CredentialError A → Result SignError A
or_not_signed (err e) = err (not_signed e)
or_not_signed (ok a) = ok a

-- `input.stellar.maxAmount` is the text that the binding read.
unfoldable pub sign_ap2_mandate :
    Platform → StellarKeys → ℕ → Option (List ℕ) → Json → Signer → Result SignError Credential
unfolding bind_with create_signed
sign_ap2_mandate platform keys now entropy input signer = do
  (stellar, binding) ← or_not_bound (bind_with platform keys now entropy input)
  or_not_signed (create_signed platform signer binding stellar.max_amount)
