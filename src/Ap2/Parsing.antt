-- ===== src/Ap2/Parsing.antt =====
-- Reading back a credential from its JSON (packages/ap2/src/credential.ts).
use reapp_protocol.Common.{is_exact, is_hex64, leb, ok, refl, text_eq, true, ◌≡◌}
use reapp_protocol.Ap2.Types.{Credential, credential_json}
use reapp_protocol.Ap2.Credential.{parse_signed_ap2_mandate}

-- The texts of a credential have no surrounding space and are not empty, its mandate hash is 32 bytes
-- in hexadecimal, and its decimals are at most 38.
pub record IsWire (c : Credential) : Type 0 where
  pub credential_version : is_exact c.credential_version ≡ true
  pub spec_version : is_exact c.payload.ap2_spec_version ≡ true
  pub data_key : is_exact c.payload.ap2_data_key ≡ true
  pub binding_version : is_exact c.payload.binding_version ≡ true
  pub description : is_exact c.payload.intent.description ≡ true
  pub merchant : is_exact c.payload.intent.merchant ≡ true
  pub intent_expiry : is_exact c.payload.intent.intent_expiry ≡ true
  pub user : is_exact c.payload.stellar.user ≡ true
  pub agent : is_exact c.payload.stellar.agent ≡ true
  pub asset : is_exact c.payload.stellar.asset ≡ true
  pub max_amount : is_exact c.payload.stellar.max_amount ≡ true
  pub decimals : leb c.payload.stellar.decimals 38 ≡ true
  pub nonce : is_exact c.payload.stellar.nonce ≡ true
  pub mandate_hash : is_exact c.mandate_hash ≡ true
  pub hex : is_hex64 c.mandate_hash ≡ true
  pub algorithm : is_exact c.algorithm ≡ true
  pub signature : is_exact c.signature ≡ true

-- A credential is read from its JSON as it was, if its texts are exact, its mandate hash is 32 bytes
-- in lower-case hexadecimal and its decimals are at most 38.
pub parse_signed_ap2_mandate-credential_json :
    (c : Credential) → IsWire c → parse_signed_ap2_mandate (credential_json c) ≡ ok c
unfolding parse_signed_ap2_mandate credential_json text_eq
parse_signed_ap2_mandate-credential_json c w =
    rw
      (
        w.merchant, w.decimals, w.mandate_hash, w.hex, w.credential_version, w.spec_version,
        w.data_key, w.binding_version, w.description, w.intent_expiry, w.user, w.agent, w.asset,
        w.max_amount, w.nonce, w.algorithm, w.signature,
      )
      refl
