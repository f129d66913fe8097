-- ===== src/Bound.antt =====
-- The middleware of the agent-bound proofs: the request handler of
-- `createBoundReappPaymentMiddleware` of packages/express-middleware/src/bound.ts. Its
-- configuration is taken as already checked by the set-up. A request runs in two segments, up to
-- the verifier's await (`begin`) and from there (`resume`); `handle` is their composition, and
-- other requests may run in between.
pub mod Matching
pub mod Begin
pub mod Deliveries
pub mod Once
use reapp_protocol.Common.{
  ==_iff, >>=-eq-ok, All, Bool, Bool-cases, List, List-cases, Number, Option, Option-cases, Result,
  String, Text, [], all, conjunction, conjunction→All, and3_elim, and4_elim, and_elim, ap, arith,
  err, false, find, find-insert, find-insert_self, find-remove, find_of_not_has, guard, has,
  has-eq-find, has-insert, if◌then◌else◌, inl, inr, insert, int, is_digit, is_digits, is_exact,
  is_hex64, is_hex_digit, is_natural_safe, is_positive_safe, is_space, leb, leb→le, length,
  length-append, length-replicate, lit, lower_unit, ltb, ltb→lt, lt→ltb, map, max_safe_integer,
  natural, natural_pos, ne_of_text_eq, negsuc, non_integer, none, not, ok, or_elim_false, pos, refl,
  remove, replicate, some, suc, sym, take, text_eq, text_eq_refl, text_eq_iff, text_eq→eq, text_ne,
  to_lower, to_lower_idempotent, to_upper, trim, trim_start, true, upper_unit, zero, ℕ, ℤ, ◌%◌,
  ◌&&◌, ◌*◌, ◌++◌, ◌+◌, ◌-◌, ◌/◌, ◌<◌, ◌==◌, ◌>>=◌, ◌>>◌, ◌^◌, ◌||◌, ◌↔◌, ◌∙◌, ◌∷◌, ◌≡◌, ◌≢◌, ◌≤◌,
  ◌⊎◌,
}
use reapp_protocol.Json.{Platform}
use reapp_protocol.X402.{
  X402Error, fields, not_object, not_exact_text, not_origin, not_safe_integer, not_base64,
  not_base64url, unsupported_version, method_not_uppercase, bad_body_hash, bad_network_id,
  bad_amount, bad_decimals, bad_window, unsupported_authorization, bad_tx_hash, bad_mandate_id,
  unsupported_algorithm, scheme_or_network_differs, bad_header, not_json, bad_legacy_field,
  no_accepts, no_amount, no_pay_to, Parsed, Authorization, BoundChallenge, LegacyProof, BoundProof,
  PaymentProof, legacy, bound, bound_payment_scheme, bound_payment_capability, exact_keys, object,
  text, safe_integer, natural_upto, positive, is_positive_decimal, is_base64url_digit,
  is_base64url43, string_or, canonical_origin, canonical_base64, canonical_base64url32, body_hash,
  challenge_keys, parse_authorization, parse_challenge, parse_bound_proof, parse_legacy_proof,
  parse_proof, decode_proof,
}
use reapp_protocol.Payment.{
  PaymentRequirement, VerifiedPayment, FailureKind, invalid, unavailable, Reason, hash_not_hex,
  wrong_passphrase, identity_read_failed, transaction_read_failed, not_found, unsafe_ledgers,
  ledger_ahead, outside_freshness_window, transaction_is, no_events, several_payments, no_payment,
  paid_below, mandate_read_failed, merchant_differs, asset_differs, several_transfers, no_transfer,
  VerificationResult, verified, refused, Reply, answer, unsupported, threw, supported,
}
use reapp_protocol.Request.{
  Request, RequestValue, static, computed, exact_text, resolve_request_value, resolve_resource,
  header_values, OneHeader, no_header, rejected_header, one_header, one_raw_header,
  canonical_header, canonical_payment_header, redemption_key,
}
use reapp_protocol.DeliveryStore.{RedemptionRecord, BoundRedemptionStore}
use reapp_protocol.BoundRequest.{
  Config, Moment, Offer, Problem, only_get, config_failed, single_capability, capability_required,
  challenge_failed, malformed_proof, bound_required, not_this_request, already_bound, still_pending,
  recovery_evidence, expired, verification_threw, store_unavailable, no_match, stored_evidence,
  verification_unavailable, not_verified, Response, DeliveryKind, claimed, completed, Delivery,
  Outcome, respond, next, plain, charge, retry, closed, Verify, Visit, Pending, Started, finished,
  verifying, without_error, is_absent, capture_now, in_window, network_id, bound_requirement,
  visit_for, mac_of, unsigned_challenge, authenticate, offer_for, mac_is_valid, exact_tests,
  exact_challenge, proof_digest, key_of, match_tests, payment_matches, record_tests, record_matches,
  deliver, after_lookup, after_claim,
}

module _ (platform : Platform) (config : Config) (store : BoundRedemptionStore) where
  -- From the decoded proof on.
  unfoldable pub bind_request :
      Text → Visit → Offer → PaymentProof → store.State → Started × store.State
  unfolding exact_challenge after_lookup
  bind_request method visit offer (legacy _) s =
      (finished (respond (charge (some bound_required) offer)), s)
  bind_request method visit offer (bound proof) s =
      if exact_challenge platform config method visit proof
      then (let (reply, s') =
            store.lookup (key_of platform config proof) (proof_digest platform config proof) s in
          (after_lookup platform config visit offer proof (supported reply), s'))
      else (finished (respond (charge (some not_this_request) offer)), s)

  -- From the payment header on.
  unfoldable pub read_proof : Text → Visit → Offer → OneHeader → store.State → Started × store.State
  read_proof method visit offer rejected_header s =
      (finished (respond (charge (some malformed_proof) offer)), s)
  read_proof method visit offer no_header s = (finished (respond (charge none offer)), s)
  read_proof method visit offer (one_header header) s = elim (decode_proof platform header) [
    | err _ ↦ (finished (respond (charge (some malformed_proof) offer)), s)
    | ok proof ↦ bind_request method visit offer proof s
  ]

  -- From the capability header on.
  unfoldable pub negotiate :
      Request → Moment → Visit → OneHeader → store.State → Started × store.State
  negotiate request moment visit rejected_header s =
      (finished (respond (plain 426 single_capability)), s)
  negotiate request moment visit no_header s =
      (finished (respond (plain 426 capability_required)), s)
  negotiate request moment visit (one_header capability) s =
      if text_eq capability bound_payment_capability
      then elim (offer_for platform config request visit moment) [
        | none ↦ (finished (respond (plain 500 challenge_failed)), s)
        | some offer ↦
            read_proof (to_upper request.method) visit offer
              (canonical_payment_header platform request config.max_header_bytes) s
      ]
      else (finished (respond (plain 426 capability_required)), s)

  unfoldable pub begin : Request → Moment → store.State → Started × store.State
  unfolding visit_for negotiate read_proof bind_request offer_for
  begin request moment s =
      if text_eq (to_upper request.method) (lit "GET")
      then elim (visit_for platform config request moment) [
        | none ↦ (finished (respond (plain 500 config_failed)), s)
        | some visit ↦
            negotiate request moment visit
              (one_raw_header platform request (lit "reapp-payment-capabilities") 256) s
      ]
      else (finished (respond (plain 405 only_get)), s)

  abbrev pub claim_record : Pending → VerifiedPayment → RedemptionRecord
  claim_record p payment = record {
    key = key_of platform config p.proof;
    proof_digest = proof_digest platform config p.proof;
    payment = payment;
  }

  -- From the verifier's verdict on.
  unfoldable pub resume :
      Moment → Pending → Option VerificationResult → store.State → Outcome × store.State
  unfolding payment_matches after_claim
  resume moment p none s = (respond (retry verification_threw), s)
  resume moment p (some (refused unavailable reason)) s =
      (respond (retry (verification_unavailable reason)), s)
  resume moment p (some (refused invalid reason)) s =
      (respond (charge (some (not_verified reason)) p.offer), s)
  resume moment p (some (verified payment)) s =
      if payment_matches platform config p.visit p.proof payment
      then (let (reply, s') = store.claim (claim_record p payment) moment.uuid p.visit.now s in
          (after_claim platform config p (supported reply), s'))
      else (respond (charge (some no_match) p.offer), s)

  abbrev pub continue : Verify → Moment → Started → store.State → Outcome × store.State
  continue verify moment (finished outcome) s = (outcome, s)
  continue verify moment (verifying p) s =
      resume moment p (verify p.proof.tx_hash p.visit.requirement) s

  unfoldable pub handle : Verify → Request → Moment → store.State → Outcome × store.State
  unfolding begin resume
  handle verify request moment s =
      let (started, s') = begin request moment s in continue verify moment started s'
