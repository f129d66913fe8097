-- ===== src/Middleware.antt =====
-- The payment middleware of the legacy proofs: `createReappPaymentMiddleware` of
-- packages/express-middleware/src/middleware.ts. Its configuration is taken as already checked by
-- the set-up; a request is one call of `handle`, with the store's state passed along. The awaits of
-- `handle` are the calls of the verifier and of the store, so that other requests run between the
-- two touches no value that this one reads.
pub mod Grants
pub mod Once
use reapp_protocol.Common.{
  ◌>>=?◌, ==_iff, >>=-eq-ok, All, Bool, Bool-cases, List, List-cases, Number, Option, Option-cases,
  Result, String, Text, [], all, and3_elim, and4_elim, and_elim, ap, arith, err, false, find,
  find-insert, find-insert_self, find-remove, find_of_not_has, guard, has, has-eq-find,
  if◌then◌else◌, inl, inr, insert, int, is_digit, is_digits, is_exact, is_hex64, is_hex_digit,
  is_natural_safe, is_positive_safe, is_space, leb, leb→le, length, length-append, length-replicate,
  lit, lower_unit, ltb, ltb→lt, lt→ltb, map, max_safe_integer, natural, natural_pos, negsuc,
  non_integer, none, not, ok, or_elim_false, pos, refl, remove, replicate, some, suc, sym, take,
  text_eq, text_eq_refl, text_eq_iff, text_eq→eq, text_ne, to_lower, to_lower_idempotent, to_upper,
  trim, trim_start, true, upper_unit, zero, ℕ, ℤ, ◌%◌, ◌&&◌, ◌*◌, ◌++◌, ◌+◌, ◌-◌, ◌/◌, ◌<◌, ◌==◌,
  ◌>>=◌, ◌>>◌, ◌^◌, ◌||◌, ◌↔◌, ◌∙◌, ◌∷◌, ◌≡◌, ◌≢◌, ◌≤◌, ◌⊎◌,
}
use reapp_protocol.Json.{Platform}
use reapp_protocol.X402.{
  X402Error, fields, not_object, not_exact_text, not_origin, not_safe_integer, not_base64,
  not_base64url, unsupported_version, method_not_uppercase, bad_body_hash, bad_network_id,
  bad_amount, bad_decimals, bad_window, unsupported_authorization, bad_tx_hash, bad_mandate_id,
  unsupported_algorithm, scheme_or_network_differs, bad_header, not_json, bad_legacy_field,
  no_accepts, no_amount, no_pay_to, Parsed, Authorization, BoundChallenge, LegacyProof, BoundProof,
  PaymentProof, legacy, bound, bound_payment_scheme, bound_payment_capability, exact_keys, object,
  text, safe_integer, natural_upto, positive, is_positive_decimal, is_base64url_digit,
  is_base64url43, string_or, canonical_origin, canonical_base64, canonical_base64url32, body_hash,
  challenge_keys, parse_authorization, parse_challenge, parse_bound_proof, parse_legacy_proof,
  parse_proof, decode_proof,
}
use reapp_protocol.Payment.{
  PaymentRequirement, VerifiedPayment, FailureKind, invalid, unavailable, Reason, hash_not_hex,
  wrong_passphrase, identity_read_failed, transaction_read_failed, not_found, unsafe_ledgers,
  ledger_ahead, outside_freshness_window, transaction_is, no_events, several_payments, no_payment,
  paid_below, mandate_read_failed, merchant_differs, asset_differs, several_transfers, no_transfer,
  VerificationResult, verified, refused, Reply, answer, unsupported, threw, supported,
}
use reapp_protocol.Request.{
  Request, RequestValue, static, computed, exact_text, resolve_request_value, resolve_resource,
  header_values, OneHeader, no_header, rejected_header, one_header, one_raw_header,
  canonical_header, canonical_payment_header, redemption_key,
}
use reapp_protocol.RedemptionStore.{
  RedemptionRecord, Consumption, consumed, duplicate, RedemptionStore, consume_once, in_memory,
  ReplayRecord, ReplayStore, set_has, consume_mandate, in_memory_replay,
}
use reapp_protocol.Amounts.{to_stroops, AmountError}

pub record Config : Type 0 where
  pub merchant : Text
  pub amount : RequestValue
  pub resource : Option RequestValue
  pub asset : Text
  pub registry_id : Text
  pub network_passphrase : Text
  pub network : Text
  pub scheme : Text
  pub decimals : ℕ
  pub max_header_bytes : ℕ
  pub max_proof_age_ledgers : ℕ

pub record Challenge : Type 0 where
  pub scheme : Text
  pub network : Text
  pub max_amount_required : Text
  pub asset : Text
  pub pay_to : Text
  pub resource : Text
  pub contract : Text

-- The texts of the `error` member.
pub data Problem : Type 0 where
  config_failed malformed_header malformed_proof wrong_scheme wrong_network bad_hash : Problem
  verification_threw store_unavailable already_redeemed : Problem
  verification_unavailable not_verified : Reason → Problem

-- A response that `json` sends, with the challenge that some of them spread into the body, and
-- `retry-after` with `retryable`.
pub record Response : Type 0 where
  pub status : ℕ
  pub problem : Option Problem
  pub challenge : Option Challenge
  pub retryable : Bool

pub data Outcome : Type 0 where
  respond : Response → Outcome
  next : VerifiedPayment → Outcome

-- `verifier.verify`, `none` where it throws.
abbrev pub Verify : Type 0
Verify = Text → PaymentRequirement → Option VerificationResult

unfoldable pub build_challenge : PaymentRequirement → Challenge
build_challenge r = record {
  scheme = r.scheme;
  network = r.network;
  max_amount_required = r.amount;
  asset = r.asset;
  pay_to = r.merchant;
  resource = r.resource;
  contract = r.registry_id;
}

abbrev pub plain_response : ℕ → Problem → Response
plain_response status problem = record {
  status = status;
  problem = some problem;
  challenge = none;
  retryable = false;
}

abbrev pub plain : ℕ → Problem → Outcome
plain status problem = respond (plain_response status problem)

abbrev pub retry : Problem → Outcome
retry problem =
    respond (record { status = 503; problem = some problem; challenge = none; retryable = true })

abbrev pub charge_response : Option Problem → Challenge → Response
charge_response problem challenge = record {
  status = 402;
  problem = problem;
  challenge = some challenge;
  retryable = false;
}

abbrev pub charge : Option Problem → Challenge → Outcome
charge problem challenge = respond (charge_response problem challenge)

abbrev pub positive_amount : Result AmountError ℕ → Option ℕ
positive_amount (ok n) = if ltb 0 n then some n else none
positive_amount (err _) = none

abbrev pub requirement_of : Config → Text → ℕ → Text → PaymentRequirement
requirement_of config amount amount_stroops resource = record {
  scheme = config.scheme;
  network = config.network;
  resource = resource;
  merchant = config.merchant;
  asset = config.asset;
  amount = amount;
  amount_stroops = amount_stroops;
  registry_id = config.registry_id;
  decimals = config.decimals;
}

-- The first `try` block; `none` where it throws.
unfoldable pub requirement_for : Config → Request → Option PaymentRequirement
requirement_for config request = resolve_request_value config.amount request >>=? λ amount.
    positive_amount (to_stroops amount config.decimals) >>=? λ amount_stroops.
    resolve_resource config.resource request >>=? λ resource.
    some (requirement_of config amount amount_stroops resource)

-- The fields that a proof of either kind has.
abbrev pub proof_scheme : PaymentProof → Text
proof_scheme (legacy p) = p.scheme
proof_scheme (bound p) = p.scheme

abbrev pub proof_network : PaymentProof → Text
proof_network (legacy p) = p.network
proof_network (bound p) = p.network

abbrev pub proof_tx_hash : PaymentProof → Text
proof_tx_hash (legacy p) = p.tx_hash
proof_tx_hash (bound p) = p.tx_hash

module _ (platform : Platform) (config : Config) (verify : Verify) (store : RedemptionStore) where
  abbrev pub key_of : PaymentRequirement → VerifiedPayment → Text
  key_of requirement payment =
      redemption_key platform config.network_passphrase requirement.registry_id payment.tx_hash

  abbrev pub record_of : PaymentRequirement → VerifiedPayment → RedemptionRecord
  record_of requirement payment = record {
    key = key_of requirement payment;
    payment = payment;
    accepted_through_ledger = payment.ledger + config.max_proof_age_ledgers;
  }

  abbrev pub after_store : VerifiedPayment → Option Consumption → Outcome
  after_store payment none = retry store_unavailable
  after_store payment (some duplicate) = plain 409 already_redeemed
  after_store payment (some consumed) = next payment

  unfoldable pub redeem : PaymentRequirement → VerifiedPayment → store.State → Outcome × store.State
  redeem requirement payment s =
      let (reply, s') = store.consume_once (record_of requirement payment) s in
      (after_store payment (supported reply), s')

  -- From the verdict on.
  unfoldable pub judge :
      PaymentRequirement → Option VerificationResult → store.State → Outcome × store.State
  judge requirement none s = (retry verification_threw, s)
  judge requirement (some (refused unavailable reason)) s =
      (retry (verification_unavailable reason), s)
  judge requirement (some (refused invalid reason)) s =
      (charge (some (not_verified reason)) (build_challenge requirement), s)
  judge requirement (some (verified payment)) s = redeem requirement payment s

  -- From the decoded proof on.
  unfoldable pub admit : PaymentRequirement → PaymentProof → store.State → Outcome × store.State
  admit requirement proof s =
      let challenge = build_challenge requirement in
      if not (text_eq (proof_scheme proof) requirement.scheme)
      then (charge (some wrong_scheme) challenge, s)
      else if not (text_eq (proof_network proof) requirement.network)
      then (charge (some wrong_network) challenge, s)
      else if not (is_hex64 (to_lower (proof_tx_hash proof)))
      then (charge (some bad_hash) challenge, s)
      else judge requirement (verify (to_lower (proof_tx_hash proof)) requirement) s

  -- From the payment header on.
  unfoldable pub present_proof :
      PaymentRequirement → OneHeader → store.State → Outcome × store.State
  present_proof requirement rejected_header s =
      (charge (some malformed_header) (build_challenge requirement), s)
  present_proof requirement no_header s = (charge none (build_challenge requirement), s)
  present_proof requirement (one_header header) s = elim (decode_proof platform header) [
    | err _ ↦ (charge (some malformed_proof) (build_challenge requirement), s)
    | ok proof ↦ admit requirement proof s
  ]

  unfoldable pub handle : Request → store.State → Outcome × store.State
  unfolding requirement_for present_proof admit judge redeem
  handle request s = elim (requirement_for config request) [
    | none ↦ (plain 500 config_failed, s)
    | some requirement ↦
        present_proof requirement
          (canonical_payment_header platform request config.max_header_bytes) s
  ]
