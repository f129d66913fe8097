-- ===== src/Ap2/Types.antt =====
-- The data of the AP2 profile: packages/ap2/src/index.ts and credential.ts.
use reapp_protocol.Common.{Bool, List, Text, [], false, int, lit, pos, ℕ, ◌∷◌}
use reapp_protocol.Json.{Json, bool, num, str, arr, nil, cons, obj, end, field}
use reapp_protocol.Mandate.{IntentMandate}

-- What a normalized intent leaves open; its other members are constants.
pub record NormalizedIntent : Type 0 where
  pub description : Text
  pub merchant : Text
  pub intent_expiry : Text

pub record Stellar : Type 0 where
  pub user : Text
  pub agent : Text
  pub asset : Text
  pub max_amount : Text
  pub decimals : ℕ
  pub nonce : Text

pub record Binding : Type 0 where
  pub ap2_spec_version : Text
  pub ap2_data_key : Text
  pub binding_version : Text
  pub normalized_intent : NormalizedIntent
  pub canonical_intent : Text
  pub intent_hash : Text
  pub binding_nonce : Text
  pub mandate : IntentMandate

pub record Payload : Type 0 where
  pub ap2_spec_version : Text
  pub ap2_data_key : Text
  pub binding_version : Text
  pub intent : NormalizedIntent
  pub stellar : Stellar

pub record Credential : Type 0 where
  pub credential_version : Text
  pub payload : Payload
  pub mandate_hash : Text
  pub algorithm : Text
  pub signature : Text

-- What the packages ask of the Stellar SDK's keys.
pub record StellarKeys : Type 0 where
  pub is_address : Text → Bool
  pub is_ed25519_public_key : Text → Bool
  pub is_contract : Text → Bool

abbrev pub spec_version : Text
spec_version = lit "0.1.0"

abbrev pub intent_data_key : Text
intent_data_key = lit "ap2.mandates.IntentMandate"

abbrev pub ap2_binding_version : Text
ap2_binding_version = lit "reapp-ap2/1"

abbrev pub ap2_credential_version : Text
ap2_credential_version = lit "reapp-ap2-credential/1"

abbrev pub signature_algorithm : Text
signature_algorithm = lit "stellar-ed25519-sha256"

abbrev pub intent_keys : List Text
intent_keys =
    lit "user_cart_confirmation_required"
    ∷ lit "natural_language_description"
    ∷ lit "merchants"
    ∷ lit "skus"
    ∷ lit "requires_refundability"
    ∷ lit "intent_expiry"
    ∷ []

abbrev pub stellar_keys : List Text
stellar_keys =
    lit "user" ∷ lit "agent" ∷ lit "asset" ∷ lit "maxAmount" ∷ lit "decimals" ∷ lit "nonce" ∷ []

unfoldable pub intent_json : NormalizedIntent → Json
intent_json intent = obj (
    field (lit "user_cart_confirmation_required") (bool false) (
      field (lit "natural_language_description") (str intent.description) (
        field (lit "merchants") (arr (cons (str intent.merchant) nil)) (
          field (lit "skus") (arr nil) (
            field (lit "requires_refundability") (bool false)
              (field (lit "intent_expiry") (str intent.intent_expiry) end))))))

unfoldable pub stellar_json : Stellar → Json
stellar_json s = obj (
    field (lit "user") (str s.user) (
      field (lit "agent") (str s.agent) (
        field (lit "asset") (str s.asset) (
          field (lit "maxAmount") (str s.max_amount) (
            field (lit "decimals") (num (int (pos s.decimals)))
              (field (lit "nonce") (str s.nonce) end))))))

unfoldable pub payload_json : Payload → Json
unfolding intent_json stellar_json
payload_json p = obj (
    field (lit "ap2SpecVersion") (str p.ap2_spec_version) (
      field (lit "ap2DataKey") (str p.ap2_data_key) (
        field (lit "bindingVersion") (str p.binding_version) (
          field (lit "intent") (intent_json p.intent)
            (field (lit "stellar") (stellar_json p.stellar) end)))))

-- The object that `createSignedAp2Credential` returns.
unfoldable pub credential_json : Credential → Json
unfolding payload_json
credential_json c = obj (
    field (lit "credentialVersion") (str c.credential_version) (
      field (lit "payload") (payload_json c.payload) (
        field (lit "mandateHash") (str c.mandate_hash) (
          field (lit "signature")
            (obj (
              field (lit "algorithm") (str c.algorithm)
                (field (lit "value") (str c.signature) end)))
            end))))
