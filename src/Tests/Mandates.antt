-- ===== src/Tests/Mandates.antt =====
-- Runs of the AP2 profile on a small platform: every hash is 32 bytes of one value, and every
-- signature is 64 bytes of zero.
use reapp_protocol.Common.{
  AreBytes, List, Option, Text, [], arith, false, if◌then◌else◌, int, is_exact, is_hex64, length,
  lit, ltb, none, ok, pos, refl, replicate, some, text_eq, true, ℕ, ◌%◌, ◌++◌, ◌+◌, ◌/◌, ◌∷◌, ◌≡◌,
  ◌≤◌,
}
use mathlib.Core.Path.{subst}
use reapp_protocol.Json.{Json, bool, str, arr, nil, cons, obj, field, end, Platform}
use reapp_protocol.Amounts.{to_stroops}
use reapp_protocol.RedemptionStore.{set_has, consume_mandate}
use reapp_protocol.Mandate.{IntentMandate, create_intent_mandate}
use reapp_protocol.Ap2.Types.{
  NormalizedIntent, Stellar, StellarKeys, Binding, Credential, credential_json,
}
use reapp_protocol.Ap2.Intent.{bind_with, binding_of}
use reapp_protocol.Ap2.Credential.{
  canonical_expiry, is_base64_64, Signer, payload_of, parse_signed_ap2_mandate,
  rebuild_credential_binding, signed_with, sign_ap2_mandate,
}
use reapp_protocol.Ap2.Validator.{ValidateInput, validate, validated_of, replay_key}
use reapp_protocol.Ap2.Admission.{IsAdmissible, validate-IsAdmissible}
use reapp_protocol.Ap2.Once.{admissions, admissions-le-one}
use reapp_protocol.Ap2.Parsing.{IsWire, parse_signed_ap2_mandate-credential_json}
use reapp_protocol.Ap2.Accepted.{
  SignsFor, IsCovered, IsAdmitted, request_for, sign_ap2_mandate-IsAdmitted,
}
use reapp_protocol.Ap2.Nonce.{DrawsNonce}
use reapp_protocol.Ap2.Bound.{rebuild-bind_with}

abbrev hex_digit : ℕ → ℕ
hex_digit n = if ltb n 10 then 48 + n else 87 + n

abbrev hex_text : List ℕ → Text
hex_text [] = []
hex_text (b ∷ bytes) = hex_digit (b / 16 % 16) ∷ hex_digit (b % 16) ∷ hex_text bytes

abbrev pub platform : Platform
platform = record {
  sha256 = λ _. replicate 32 119;
  hmac_sha256 = λ _ _. replicate 32 119;
  to_utf8 = λ t. t;
  of_utf8 = λ t. t;
  to_hex = hex_text;
  to_base64 = λ _. replicate 86 b'A' ++ lit "==";
  of_base64 = λ _. replicate 64 0;
  to_base64url = λ b. b;
  of_base64url = λ s. s;
  parse_json = λ _. none;
  stringify = λ _. lit "json";
  parse_url = λ _. none;
  verify_signature = λ _ _ _. some true;
}

abbrev every_key : StellarKeys
every_key = record {
  is_address = λ _. true;
  is_ed25519_public_key = λ _. true;
  is_contract = λ _. true;
}

abbrev signer : Signer
signer = record { public_key = lit "GUSER"; sign = λ _. replicate 64 0 }

abbrev intent_input : Json
intent_input = obj (
    field (lit "user_cart_confirmation_required") (bool false) (
      field (lit "natural_language_description") (str (lit "books")) (
        field (lit "merchants") (arr (cons (str (lit "GSHOP")) nil))
          (field (lit "intent_expiry") (str (lit "2030-01-01T02:00:00+02:00")) end))))

abbrev bind_input : Json
bind_input = obj (
    field (lit "intent") intent_input (
      field (lit "stellar")
        (obj (
          field (lit "user") (str (lit "GUSER")) (
            field (lit "agent") (str (lit "GAGENT")) (
              field (lit "asset") (str (lit "CUSDC"))
                (field (lit "maxAmount") (str (lit "5.00")) end)))))
        end))

abbrev stellar : Stellar
stellar = record {
  user = lit "GUSER";
  agent = lit "GAGENT";
  asset = lit "CUSDC";
  max_amount = lit "5.00";
  decimals = 7;
  nonce = replicate 32 b'7';
}

abbrev mandate : IntentMandate
mandate = record {
  id = replicate 64 b'7';
  id_buffer = replicate 32 119;
  user = lit "GUSER";
  agent = lit "GAGENT";
  merchant = lit "GSHOP";
  asset = lit "CUSDC";
  max_amount = 50000000;
  expiry = 1893456000;
  decimals = 7;
}

abbrev normalized : NormalizedIntent
normalized = record {
  description = lit "books";
  merchant = lit "GSHOP";
  intent_expiry = lit "2030-01-01T00:00:00Z";
}

abbrev drawn : Option (List ℕ)
drawn = some (replicate 16 119)

abbrev binding : Binding
binding = binding_of platform normalized stellar.nonce mandate

binds : bind_with platform every_key 1000 drawn bind_input ≡ ok (stellar, binding)
unfolding bind_with text_eq is_exact to_stroops
binds = refl

rebuild-bind_with_example :
    rebuild_credential_binding platform (payload_of platform binding stellar.max_amount)
    ≡ ok binding
rebuild-bind_with_example =
    rebuild-bind_with platform every_key 1000 drawn bind_input stellar binding binds

abbrev credential : Credential
credential =
    signed_with platform signer binding (payload_of platform binding stellar.max_amount)
      (replicate 32 119)

signs : sign_ap2_mandate platform every_key 1000 drawn bind_input signer ≡ ok credential
unfolding sign_ap2_mandate text_eq is_exact to_stroops
signs = refl

parsed_credential : IsWire credential
unfolding is_exact text_eq is_hex64
parsed_credential = record {
  credential_version = refl;
  spec_version = refl;
  data_key = refl;
  binding_version = refl;
  description = refl;
  merchant = refl;
  intent_expiry = refl;
  user = refl;
  agent = refl;
  asset = refl;
  max_amount = refl;
  decimals = refl;
  nonce = refl;
  mandate_hash = refl;
  hex = refl;
  algorithm = refl;
  signature = refl;
}

parse_signed_ap2_mandate-credential_json_example :
    parse_signed_ap2_mandate (credential_json credential) ≡ ok credential
parse_signed_ap2_mandate-credential_json_example =
    parse_signed_ap2_mandate-credential_json credential parsed_credential

platform-SignsFor : SignsFor platform signer
unfolding is_exact text_eq is_hex64 is_base64_64
platform-SignsFor = record {
  hex = λ _. refl;
  signature = λ _. refl;
  base64 = λ _. refl;
  exact = λ _. refl;
  decoded = λ _. refl;
  valid = λ _. refl;
}

drawn-DrawsNonce : DrawsNonce drawn
drawn-DrawsNonce bytes h =
    let same : replicate 16 119 ≡ bytes = cc in
    subst (λ b. (length b ≡ 16) × AreBytes b) same (refl, nonce_bytes)
  where
    nonce_bytes : AreBytes (replicate 16 119)
    nonce_bytes = (
      omega arith,
      (
        omega arith,
        (
          omega arith,
          (
            omega arith,
            (
              omega arith,
              (
                omega arith,
                (
                  omega arith,
                  (
                    omega arith,
                    (
                      omega arith,
                      (
                        omega arith,
                        (
                          omega arith,
                          (
                            omega arith,
                            (omega arith, (omega arith, (omega arith, (omega arith, tt)))),
                          ),
                        ),
                      ),
                    ),
                  ),
                ),
              ),
            ),
          ),
        ),
      ),
    )

credential-IsCovered : IsCovered binding 2000 (lit "1.50") 15000000
unfolding to_stroops
credential-IsCovered = record {
  stroops = refl;
  positive = omega arith;
  within = omega arith;
  alive = omega arith;
  safe = omega arith;
}

unseen : set_has (replay_key (lit "shop") credential.mandate_hash) [] ≡ false
unfolding set_has
unseen = refl

sign_ap2_mandate-IsAdmitted_example :
    IsAdmitted platform every_key (lit "shop") [] credential binding 2000 (lit "1.50") 15000000
sign_ap2_mandate-IsAdmitted_example =
    sign_ap2_mandate-IsAdmitted platform every_key 1000 signer credential drawn bind_input signs
      platform-SignsFor drawn-DrawsNonce stellar binding binds (lit "shop") [] 2000 (lit "1.50")
      15000000 credential-IsCovered unseen

abbrev request : ValidateInput
request = request_for credential (lit "1.50")

admissions_run :
    admissions platform every_key
      (lit "shop")
      credential.mandate_hash
      ((int (pos 2000), request) ∷ (int (pos 3000), request) ∷ [])
      []
    ≡ 1
unfolding admissions validate text_eq is_exact to_stroops credential_json canonical_expiry
    create_intent_mandate consume_mandate
admissions_run = refl

admissions-le-one_example :
    admissions platform every_key
      (lit "shop")
      credential.mandate_hash
      ((int (pos 2000), request) ∷ (int (pos 3000), request) ∷ [])
      []
    ≤ 1
admissions-le-one_example =
    admissions-le-one platform every_key (lit "shop") credential.mandate_hash
      ((int (pos 2000), request) ∷ (int (pos 3000), request) ∷ []) []

valid_request :
    validate platform every_key (int (pos 2000)) request
    ≡ ok (validated_of credential binding 15000000 2000)
unfolding validate text_eq is_exact to_stroops credential_json canonical_expiry
    create_intent_mandate
valid_request = refl

validate-IsAdmissible_example :
    IsAdmissible platform every_key
      (int (pos 2000))
      request
      (validated_of credential binding 15000000 2000)
validate-IsAdmissible_example =
    validate-IsAdmissible platform every_key (int (pos 2000)) request
      (validated_of credential binding 15000000 2000) valid_request
