-- ===== src/Tests/Scenario.antt =====
-- The data of the runs. The platform's encodings are as simple as the readers allow: text and bytes
-- are the same, base64 is left as it is, and a MAC is 32 letters.
use reapp_protocol.Common.{
  List, Text, [], if◌then◌else◌, lit, none, pos, replicate, some, take, text_eq, ℕ, ◌++◌, ◌==◌, ◌∷◌,
}
use reapp_protocol.Json.{Json, Platform, Url}
use reapp_protocol.X402.{BoundChallenge, BoundProof, bound_payment_scheme}
use reapp_protocol.X402.Wire.{proof_json}
use reapp_protocol.Payment.{PaymentRequirement}
use reapp_protocol.Request.{Request}
use reapp_protocol.Events.{decoded, NativeValue, bytes, bigint, vec, nil, cons, DecodedEvent}
use reapp_protocol.Verifier.{LoadedTransaction, Chain, VerifierConfig}

abbrev pub letters : ℕ → Text
letters n = replicate n b'A'

abbrev pub hash_text : Text
hash_text = replicate 64 b'a'

abbrev pub challenge : BoundChallenge
challenge = record {
  proof_version = 2;
  challenge_id = letters 43;
  audience = lit "https://shop";
  scheme = bound_payment_scheme;
  method = lit "GET";
  resource = lit "/r";
  body_sha256 = none;
  network = lit "net";
  network_id = hash_text;
  registry_id = lit "R";
  merchant = lit "M";
  asset = lit "S";
  amount_stroops = lit "50";
  decimals = 1;
  issued_at = 100;
  expires_at = 400;
  authorization = record { algorithm = lit "hmac-sha256"; mac = letters 32 };
}

abbrev pub proof : BoundProof
proof = record {
  proof_version = 2;
  scheme = bound_payment_scheme;
  network = lit "net";
  tx_hash = hash_text;
  mandate_id = replicate 64 b'0';
  challenge = challenge;
  algorithm = lit "stellar-ed25519-sha256";
  signature = letters 64;
}

abbrev pub url : Text → Url
url origin = record {
  protocol = lit "https:";
  origin = origin;
  username = [];
  password = [];
  pathname = lit "/";
  search = [];
  fragment = [];
}

-- What the one JSON text of a run reads as is a parameter.
abbrev pub platform : Json → Platform
platform json = record {
  sha256 = λ _. hash_text;
  hmac_sha256 = λ _ _. letters 32;
  to_utf8 = λ s. s;
  of_utf8 = λ b. b;
  to_hex = λ b. b;
  to_base64 = λ b. b;
  of_base64 = λ s. s;
  to_base64url = λ b. b ++ letters 11;
  of_base64url = λ s. take 32 s;
  parse_json = λ _. some json;
  stringify = λ _. [];
  parse_url = λ s. some (url s);
  verify_signature = λ agent _ _. some (text_eq agent (lit "G"));
}

abbrev pub bound_platform : Platform
bound_platform = platform (proof_json proof)

abbrev pub request : Request
request = record {
  method = lit "get";
  original_url = lit "/r";
  url = lit "/r";
  raw_headers =
      lit "Reapp-Payment-Capabilities" ∷ lit "reapp-bound-v2" ∷ lit "X-Payment" ∷ lit "AAAA" ∷ [];
}

abbrev pub mandate_bytes : List ℕ
mandate_bytes = replicate 32 0

-- A registry payment of 50 stroops and the transfer that it makes.
abbrev pub payment_event : DecodedEvent
payment_event = record {
  type = lit "contract";
  contract_id = some (lit "R");
  topics =
      decoded (lit "scvSymbol") (NativeValue.text (lit "payment"))
      ∷ decoded (lit "scvAddress") (NativeValue.text (lit "M"))
      ∷ [];
  body = decoded (lit "scvVec") (
      vec (
        cons (decoded (lit "scvBytes") (bytes mandate_bytes))
          (cons (decoded (lit "scvI128") (bigint (pos 50))) nil)));
}

abbrev pub transfer_event : DecodedEvent
transfer_event = record {
  type = lit "contract";
  contract_id = some (lit "S");
  topics =
      decoded (lit "scvSymbol") (NativeValue.text (lit "transfer"))
      ∷ decoded (lit "scvAddress") (NativeValue.text (lit "U"))
      ∷ decoded (lit "scvAddress") (NativeValue.text (lit "M"))
      ∷ [];
  body = decoded (lit "scvI128") (bigint (pos 50));
}

abbrev pub events : List DecodedEvent
events = payment_event ∷ transfer_event ∷ []

abbrev pub transaction : LoadedTransaction
transaction = record {
  status = lit "SUCCESS";
  ledger = some 90;
  latest_ledger = some 100;
  events = events;
}

-- The transaction is found at the second attempt.
abbrev pub chain : Chain
chain = record {
  load_network_passphrase = some (lit "pass");
  load_transaction = λ _ attempt.
      some (if attempt == 0 then record transaction { status = lit "NOT_FOUND" } else transaction);
  load_mandate =
      λ _. some (record { user = lit "U"; agent = lit "G"; merchant = lit "M"; asset = lit "S" });
}

abbrev pub rules : VerifierConfig
rules = record { network_passphrase = lit "pass"; poll_attempts = 3; max_proof_age_ledgers = 120 }

abbrev pub requirement : PaymentRequirement
requirement = record {
  scheme = bound_payment_scheme;
  network = lit "net";
  resource = lit "/r";
  merchant = lit "M";
  asset = lit "S";
  amount = lit "5";
  amount_stroops = 50;
  registry_id = lit "R";
  decimals = 1;
}
