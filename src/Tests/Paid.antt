-- ===== src/Tests/Paid.antt =====
-- Runs of the two middlewares.
use reapp_protocol.Common.{
  List, Text, [], find, has, insert, int, is_digits, is_exact, is_hex64, is_positive_safe, lit,
  none, pos, refl, replicate, some, take, text_eq, to_lower, to_upper, ◌∷◌, ◌≡◌, ◌≤◌,
}
use reapp_protocol.Json.{Platform, obj, end, field, str, is_base64, has_exact_keys, member}
use reapp_protocol.X402.{
  bound_payment_scheme, exact_keys, object, text, safe_integer, is_positive_decimal, is_base64url43,
  canonical_origin, canonical_base64, canonical_base64url32, body_hash, parse_authorization,
  parse_challenge, parse_bound_proof, parse_legacy_proof, parse_proof, decode_proof,
}
use reapp_protocol.X402.Wire.{proof_json, challenge_json, verify_proof_signature}
use reapp_protocol.Payment.{PaymentRequirement, VerifiedPayment, verified}
use reapp_protocol.Request.{
  Request, static, resolve_request_value, resolve_resource, one_raw_header,
  canonical_payment_header, redemption_key,
}
use reapp_protocol.Amounts.{to_stroops, show, value_from, format_stroops}
use reapp_protocol.Verifier.{verify, to_hex}
use reapp_protocol.DeliveryStore.{
  DeliveryRecord, Completion, executing, StoredResponse, claim, lookup, freeze_executing,
}
use reapp_protocol.DeliveryStore as DeliveryStore
use reapp_protocol.RedemptionStore as RedemptionStore
use reapp_protocol.Bound as Bound
use reapp_protocol.BoundRequest as BoundRequest
use reapp_protocol.Bound.Deliveries.{Served, handle-Served}
use reapp_protocol.Bound.Once.{Segment, start, go_on, finish, starts_all, starts_all-le-one}
use reapp_protocol.Middleware as Middleware
use reapp_protocol.Middleware.Grants.{Reaches, ConsumedNow, handle-next}
use reapp_protocol.Middleware.Once.{grants, grants-le-one, handle-next-IsSettled}
use reapp_protocol.Verifier.Soundness.{IsSettled}
use reapp_protocol.Events.{
  select_payment, select_transfer, registry_payment, payment_payload, exact_value, is_transfer,
}
use reapp_protocol.Tests.Scenario.{
  letters, hash_text, challenge, proof, platform, bound_platform, request, chain, rules,
  requirement,
}

abbrev shop : BoundRequest.Config
shop = record {
  merchant = lit "M";
  amount = static (lit "5");
  audience = static (lit "https://shop");
  resource = none;
  asset = lit "S";
  registry_id = lit "R";
  network_passphrase = lit "pass";
  network = lit "net";
  decimals = 1;
  max_header_bytes = 8192;
  challenge_ttl_seconds = 300;
  challenge_secret = [];
}

abbrev moment : BoundRequest.Moment
moment = record { clock = int (pos 150); entropy = take 32 (letters 32); uuid = lit "id-1" }

abbrev paid : VerifiedPayment
paid = record {
  tx_hash = hash_text;
  ledger = 90;
  mandate_id = replicate 64 b'0';
  user = lit "U";
  agent = lit "G";
  amount = lit "5";
  amount_stroops = 50;
  merchant = lit "M";
  asset = lit "S";
  registry_id = lit "R";
  scheme = bound_payment_scheme;
  network = lit "net";
}

abbrev always : BoundRequest.Verify
always _ _ = some (verified paid)

bound_route : Unit {0}
unfolding Bound.handle Bound.begin Bound.resume BoundRequest.mac_is_valid to_upper to_lower text_eq
    resolve_request_value resolve_resource one_raw_header canonical_payment_header is_exact
    is_base64 decode_proof parse_proof parse_bound_proof parse_challenge parse_authorization object
    text safe_integer canonical_origin canonical_base64 canonical_base64url32 is_base64url43
    body_hash exact_keys has_exact_keys is_hex64 is_positive_decimal member to_stroops is_digits
    value_from show verify_proof_signature is_positive_safe redemption_key proof_json challenge_json
    claim lookup find insert
bound_route = tt

abbrev key : Text
key = redemption_key bound_platform (lit "pass") (lit "R") hash_text

abbrev delivered : DeliveryRecord
delivered = record {
  key = key;
  proof_digest = hash_text;
  payment = paid;
  execution_id = lit "id-1";
  started_at = 150;
  state = executing;
}

abbrev delivery : BoundRequest.Delivery
delivery = record { kind = BoundRequest.claimed; delivered = delivered }

bound_run :
    (Bound.handle bound_platform shop DeliveryStore.in_memory always request moment []).0
    ≡ BoundRequest.next delivery
unfolding bound_route
bound_run = refl

handle-Served_example :
    Served bound_platform shop DeliveryStore.in_memory always request moment [] delivery
handle-Served_example =
    handle-Served bound_platform shop DeliveryStore.in_memory always request moment [] delivery
      bound_run

abbrev pending : BoundRequest.Pending
pending = record {
  visit = record { requirement = requirement; audience = lit "https://shop"; now = 150 };
  offer = record { max_amount_required = lit "5"; resource = lit "/r"; challenge = challenge };
  proof = proof;
}

-- Two requests with one proof overlap: both are verified before either claims.
abbrev overlapping : List Segment
overlapping =
    start request moment
    ∷ start request moment
    ∷ go_on moment pending (some (verified paid))
    ∷ go_on moment pending (some (verified paid))
    ∷ []

overlapping_run : starts_all bound_platform shop key overlapping [] ≡ 1
unfolding bound_route starts_all reapp_protocol.Bound.Once.starts_now reapp_protocol.Bound.Once.run
overlapping_run = refl

starts_all-le-one_example : starts_all bound_platform shop key overlapping [] ≤ 1
starts_all-le-one_example = starts_all-le-one bound_platform shop key overlapping []

-- The legacy middleware, paid by the transaction of the scenario.
abbrev legacy_platform : Platform
legacy_platform = platform (
    obj (
      field (lit "scheme") (str (lit "reapp-soroban")) (
        field (lit "network") (str (lit "net")) (
          field (lit "txHash") (str hash_text)
            (field (lit "mandateId") (str (lit "m")) (field (lit "amount") (str (lit "5")) end))))))

abbrev api : Middleware.Config
api = record {
  merchant = lit "M";
  amount = static (lit "5");
  resource = none;
  asset = lit "S";
  registry_id = lit "R";
  network_passphrase = lit "pass";
  network = lit "net";
  scheme = lit "reapp-soroban";
  decimals = 1;
  max_header_bytes = 8192;
  max_proof_age_ledgers = 120;
}

abbrev settled : VerifiedPayment
settled = record paid { scheme = lit "reapp-soroban" }

abbrev on_chain : Middleware.Verify
on_chain = λ t r. some (verify rules chain t r)

legacy_route : Unit {0}
unfolding bound_route Middleware.handle verify select_payment select_transfer registry_payment
    payment_payload exact_value is_transfer to_hex format_stroops RedemptionStore.consume_once
    parse_legacy_proof has
legacy_route = tt

legacy_run :
    (Middleware.handle legacy_platform api on_chain RedemptionStore.in_memory request []).0
    ≡ Middleware.next settled
unfolding legacy_route
legacy_run = refl

handle-next-IsSettled_example :
    (requirement' : PaymentRequirement) × (tx_hash : Text) × (Middleware.requirement_for api request
      ≡ some requirement')
    × IsSettled rules chain tx_hash requirement' settled
handle-next-IsSettled_example =
    handle-next-IsSettled legacy_platform api rules chain RedemptionStore.in_memory request settled
      [] legacy_run

handle-next_example :
    (reached : Reaches legacy_platform api on_chain RedemptionStore.in_memory request settled)
    × ConsumedNow legacy_platform api on_chain RedemptionStore.in_memory reached.requirement settled
        []
handle-next_example =
    handle-next legacy_platform api on_chain RedemptionStore.in_memory request settled [] legacy_run

abbrev legacy_key : Text
legacy_key = redemption_key legacy_platform (lit "pass") (lit "R") hash_text

abbrev visits : List (Request × Middleware.Verify)
visits = (request, on_chain) ∷ (request, on_chain) ∷ []

visits_run : grants legacy_platform api legacy_key visits [] ≡ 1
unfolding legacy_route grants
visits_run = refl

grants-le-one_example : grants legacy_platform api legacy_key visits [] ≤ 1
grants-le-one_example = grants-le-one legacy_platform api legacy_key visits []
