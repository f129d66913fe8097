-- ===== src/BoundRequest.antt =====
-- What the bound middleware fixes for a request and checks of its proof: the parts of
-- `createBoundReappPaymentMiddleware` of packages/express-middleware/src/bound.ts above its calls
-- of the store and the verifier.
mod Types
pub use Types.*
use reapp_protocol.Common.{
  ◌>>=?◌, Bool, List, Number, Option, Text, [], conjunction, err, false, if◌then◌else◌,
  is_positive_safe, leb, length, lit, ltb, natural, none, ok, some, text_eq, to_upper, true, ℕ,
  ◌&&◌, ◌+◌, ◌==◌, ◌∷◌,
}
use reapp_protocol.Json.{Platform}
use reapp_protocol.X402.{Parsed, BoundChallenge, BoundProof, bound_payment_scheme, canonical_origin}
use reapp_protocol.X402.Wire.{proof_json, authorization_bytes, verify_proof_signature}
use reapp_protocol.Payment.{PaymentRequirement, VerifiedPayment, Reason, VerificationResult}
use reapp_protocol.Request.{
  Request, RequestValue, resolve_request_value, resolve_resource, redemption_key,
}
use reapp_protocol.Amounts.{to_stroops, show}
use reapp_protocol.Middleware.{positive_amount}
use reapp_protocol.DeliveryStore.{DeliveryRecord, Lookup, Claim}

module _ (platform : Platform) (config : Config) where
  abbrev pub network_id : Text
  network_id = platform.to_hex (platform.sha256 (platform.to_utf8 config.network_passphrase))

  abbrev pub bound_requirement : Text → ℕ → Text → PaymentRequirement
  bound_requirement amount amount_stroops resource = record {
    scheme = bound_payment_scheme;
    network = config.network;
    resource = resource;
    merchant = config.merchant;
    asset = config.asset;
    amount = amount;
    amount_stroops = amount_stroops;
    registry_id = config.registry_id;
    decimals = config.decimals;
  }

  -- The first `try` block: requirement, audience and clock.
  unfoldable pub visit_for : Request → Moment → Option Visit
  visit_for request moment = resolve_request_value config.amount request >>=? λ amount.
      positive_amount (to_stroops amount config.decimals) >>=? λ amount_stroops.
      resolve_resource config.resource request >>=? λ resource.
      resolve_request_value config.audience request >>=? λ origin.
      without_error (canonical_origin platform origin) >>=? λ audience.
      capture_now moment.clock >>=? λ now. some (record {
        requirement = bound_requirement amount amount_stroops resource;
        audience = audience;
        now = now;
      })

  abbrev pub mac_of : BoundChallenge → List ℕ
  mac_of c = platform.hmac_sha256 config.challenge_secret (authorization_bytes platform c)

  abbrev pub unsigned_challenge : Request → Visit → Moment → BoundChallenge
  unsigned_challenge request visit moment = record {
    proof_version = 2;
    challenge_id = platform.to_base64url moment.entropy;
    audience = visit.audience;
    scheme = bound_payment_scheme;
    method = to_upper request.method;
    resource = visit.requirement.resource;
    body_sha256 = none;
    network = config.network;
    network_id = network_id;
    registry_id = config.registry_id;
    merchant = config.merchant;
    asset = config.asset;
    amount_stroops = show visit.requirement.amount_stroops;
    decimals = config.decimals;
    issued_at = visit.now;
    expires_at = visit.now + config.challenge_ttl_seconds;
    authorization = record { algorithm = []; mac = [] };
  }

  -- `authenticateChallenge`: the bytes leave the authorization out.
  unfoldable pub authenticate : BoundChallenge → BoundChallenge
  authenticate c = record c {
    authorization = record { algorithm = lit "hmac-sha256"; mac = platform.to_base64 (mac_of c) };
  }

  unfoldable pub offer_for : Request → Visit → Moment → Option Offer
  unfolding authenticate
  offer_for request visit moment =
      if length moment.entropy == 32
      then some (record {
        max_amount_required = visit.requirement.amount;
        resource = visit.requirement.resource;
        challenge = authenticate (unsigned_challenge request visit moment);
      })
      else none

  -- `timingSafeEqual` of buffers of one length.
  unfoldable pub mac_is_valid : BoundChallenge → Bool
  mac_is_valid c =
      let actual = platform.of_base64 c.authorization.mac in
      (length actual == length (mac_of c)) && text_eq actual (mac_of c)

  -- The conjuncts of `exactChallenge`.
  abbrev pub exact_tests : Text → Visit → BoundProof → List Bool
  exact_tests method visit proof =
      let c = proof.challenge in
      (c.proof_version == 2)
      ∷ text_eq c.audience visit.audience
      ∷ text_eq c.scheme bound_payment_scheme
      ∷ text_eq c.method method
      ∷ text_eq c.resource visit.requirement.resource
      ∷ is_absent c.body_sha256
      ∷ text_eq c.network config.network
      ∷ text_eq c.network_id network_id
      ∷ text_eq c.registry_id config.registry_id
      ∷ text_eq c.merchant config.merchant
      ∷ text_eq c.asset config.asset
      ∷ text_eq c.amount_stroops (show visit.requirement.amount_stroops)
      ∷ (c.decimals == config.decimals)
      ∷ (c.expires_at == c.issued_at + config.challenge_ttl_seconds)
      ∷ text_eq c.authorization.algorithm (lit "hmac-sha256")
      ∷ mac_is_valid c
      ∷ text_eq proof.scheme bound_payment_scheme
      ∷ text_eq proof.network config.network
      ∷ []

  unfoldable pub exact_challenge : Text → Visit → BoundProof → Bool
  exact_challenge method visit proof = conjunction (exact_tests method visit proof)

  abbrev pub proof_digest : BoundProof → Text
  proof_digest proof =
      platform.to_hex (platform.sha256 (platform.to_utf8 (platform.stringify (proof_json proof))))

  abbrev pub key_of : BoundProof → Text
  key_of proof = redemption_key platform config.network_passphrase config.registry_id proof.tx_hash

  -- The conjuncts of `paymentMatchesProof`.
  abbrev pub match_tests : Visit → BoundProof → VerifiedPayment → List Bool
  match_tests visit proof payment =
      text_eq payment.tx_hash proof.tx_hash
      ∷ text_eq payment.mandate_id proof.mandate_id
      ∷ (payment.amount_stroops == visit.requirement.amount_stroops)
      ∷ text_eq payment.merchant config.merchant
      ∷ text_eq payment.asset config.asset
      ∷ text_eq payment.registry_id config.registry_id
      ∷ text_eq payment.scheme bound_payment_scheme
      ∷ text_eq payment.network config.network
      ∷ verify_proof_signature platform proof payment.agent
      ∷ []

  unfoldable pub payment_matches : Visit → BoundProof → VerifiedPayment → Bool
  payment_matches visit proof payment = conjunction (match_tests visit proof payment)

  -- The stored record is that of this proof and of a payment that matches it.
  abbrev pub record_tests : Visit → BoundProof → DeliveryRecord → List Bool
  record_tests visit proof r =
      text_eq r.key (key_of proof)
      ∷ text_eq r.proof_digest (proof_digest proof)
      ∷ payment_matches visit proof r.payment
      ∷ []

  unfoldable pub record_matches : Visit → BoundProof → DeliveryRecord → Bool
  record_matches visit proof r = conjunction (record_tests visit proof r)

  -- The outcome where the store holds a record for the proof.
  unfoldable pub deliver : DeliveryKind → Problem → Visit → BoundProof → DeliveryRecord → Outcome
  unfolding record_matches
  deliver kind problem visit proof r =
      if record_matches visit proof r
      then next (record { kind = kind; delivered = r })
      else respond (closed problem)

  -- From the answer of `lookup` on, up to the verifier.
  unfoldable pub after_lookup : Visit → Offer → BoundProof → Option Lookup → Started
  unfolding deliver
  after_lookup visit offer proof none = finished (respond (retry store_unavailable))
  after_lookup visit offer proof (some Lookup.conflict) =
      finished (respond (plain 409 already_bound))
  after_lookup visit offer proof (some (Lookup.executing _)) =
      finished (respond (retry still_pending))
  after_lookup visit offer proof (some (Lookup.completed r)) =
      finished (deliver completed recovery_evidence visit proof r)
  after_lookup visit offer proof (some Lookup.missing) =
      if in_window proof.challenge visit.now
      then verifying (record { visit = visit; offer = offer; proof = proof })
      else finished (respond (charge (some expired) offer))

  unfoldable pub after_claim : Pending → Option Claim → Outcome
  unfolding deliver
  after_claim p none = respond (retry store_unavailable)
  after_claim p (some Claim.conflict) = respond (plain 409 already_bound)
  after_claim p (some (Claim.executing _)) = respond (retry still_pending)
  after_claim p (some (Claim.claimed r)) = deliver claimed stored_evidence p.visit p.proof r
  after_claim p (some (Claim.completed r)) = deliver completed stored_evidence p.visit p.proof r
