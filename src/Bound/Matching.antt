-- ===== src/Bound/Matching.antt =====
-- What the bound middleware's tests of a proof and of a stored record establish
-- (packages/express-middleware/src/bound.ts).
use reapp_protocol.Common.{
  ==_iff, Bool-cases, Option, Text, conjunction→All, and_elim, arith, inl, inr, none, refl, some,
  text_eq→eq, true, ◌+◌, ◌≡◌,
}
use reapp_protocol.Json.{Platform}
use reapp_protocol.X402.{BoundChallenge, BoundProof, bound_payment_scheme}
use reapp_protocol.X402.Wire.{verify_proof_signature}
use reapp_protocol.Amounts.{show}
use reapp_protocol.DeliveryStore.{DeliveryRecord}
use reapp_protocol.BoundRequest.{
  Config, Problem, DeliveryKind, Delivery, next, Visit, is_absent, network_id, mac_of, mac_is_valid,
  exact_tests, exact_challenge, proof_digest, key_of, match_tests, payment_matches, record_tests,
  record_matches, deliver,
}

module _ (platform : Platform) (config : Config) where
  -- The proof's challenge is one that this merchant issued for this request.
  pub record IsIssued (method : Text) (visit : Visit) (proof : BoundProof) : Type 0 where
    pub audience : proof.challenge.audience ≡ visit.audience
    pub same_method : proof.challenge.method ≡ method
    pub resource : proof.challenge.resource ≡ visit.requirement.resource
    pub no_body : proof.challenge.body_sha256 ≡ none
    pub network : proof.challenge.network ≡ config.network
    pub network_hash : proof.challenge.network_id ≡ network_id platform config
    pub registry : proof.challenge.registry_id ≡ config.registry_id
    pub merchant : proof.challenge.merchant ≡ config.merchant
    pub asset : proof.challenge.asset ≡ config.asset
    pub price : proof.challenge.amount_stroops ≡ show visit.requirement.amount_stroops
    pub decimals : proof.challenge.decimals ≡ config.decimals
    pub lifetime :
        proof.challenge.expires_at ≡ proof.challenge.issued_at + config.challenge_ttl_seconds
    pub mac :
        platform.of_base64 proof.challenge.authorization.mac
        ≡ mac_of platform config proof.challenge
    pub scheme : proof.scheme ≡ bound_payment_scheme

  mac_is_valid→eq :
      (c : BoundChallenge)
      → mac_is_valid platform config c ≡ true
      → platform.of_base64 c.authorization.mac ≡ mac_of platform config c
  unfolding mac_is_valid
  mac_is_valid→eq c h = text_eq→eq _ _ (and_elim _ _ h).1

  absent→none : (o : Option Text) → is_absent o ≡ true → o ≡ none
  absent→none none h = refl
  absent→none (some x) h = cc

  pub exact_challenge→IsIssued :
      (method : Text) (visit : Visit) (proof : BoundProof)
      → exact_challenge platform config method visit proof ≡ true
      → IsIssued method visit proof
  unfolding exact_challenge
  exact_challenge→IsIssued method visit proof h =
      let t = conjunction→All (exact_tests platform config method visit proof) h in
      let u = t.1.1.1.1.1.1 in
      let v = u.1.1.1.1.1.1 in
      record {
        audience = text_eq→eq _ _ t.1.0;
        same_method = text_eq→eq _ _ t.1.1.1.0;
        resource = text_eq→eq _ _ t.1.1.1.1.0;
        no_body = absent→none _ t.1.1.1.1.1.0;
        network = text_eq→eq _ _ u.0;
        network_hash = text_eq→eq _ _ u.1.0;
        registry = text_eq→eq _ _ u.1.1.0;
        merchant = text_eq→eq _ _ u.1.1.1.0;
        asset = text_eq→eq _ _ u.1.1.1.1.0;
        price = text_eq→eq _ _ u.1.1.1.1.1.0;
        decimals = (==_iff _ _).0 v.0;
        lifetime = (==_iff _ _).0 v.1.0;
        mac = mac_is_valid→eq proof.challenge v.1.1.1.0;
        scheme = text_eq→eq _ _ v.1.1.1.1.0;
      }

  -- The record is that of this proof, and its payment is the one that the proof's agent signed for,
  -- at this request's price and to this merchant.
  pub record IsOfProof (visit : Visit) (proof : BoundProof) (r : DeliveryRecord) : Type 0 where
    pub key : r.key ≡ key_of platform config proof
    pub digest : r.proof_digest ≡ proof_digest platform config proof
    pub tx_hash : r.payment.tx_hash ≡ proof.tx_hash
    pub mandate_id : r.payment.mandate_id ≡ proof.mandate_id
    pub price : r.payment.amount_stroops ≡ visit.requirement.amount_stroops
    pub merchant : r.payment.merchant ≡ config.merchant
    pub asset : r.payment.asset ≡ config.asset
    pub registry : r.payment.registry_id ≡ config.registry_id
    pub signed : verify_proof_signature platform proof r.payment.agent ≡ true

  pub record_matches→IsOfProof :
      (visit : Visit) (proof : BoundProof) (r : DeliveryRecord)
      → record_matches platform config visit proof r ≡ true
      → IsOfProof visit proof r
  unfolding record_matches payment_matches
  record_matches→IsOfProof visit proof r h =
      let t = conjunction→All (record_tests platform config visit proof r) h in
      let u = conjunction→All (match_tests platform config visit proof r.payment) t.1.1.0 in
      record {
        key = text_eq→eq _ _ t.0;
        digest = text_eq→eq _ _ t.1.0;
        tx_hash = text_eq→eq _ _ u.0;
        mandate_id = text_eq→eq _ _ u.1.0;
        price = (==_iff _ _).0 u.1.1.0;
        merchant = text_eq→eq _ _ u.1.1.1.0;
        asset = text_eq→eq _ _ u.1.1.1.1.0;
        registry = text_eq→eq _ _ u.1.1.1.1.1.0;
        signed = u.1.1.1.1.1.1.1.1.0;
      }

  pub deliver-next :
      (kind : DeliveryKind) (problem : Problem) (visit : Visit) (proof : BoundProof)
      (r : DeliveryRecord) (d : Delivery)
      → deliver platform config kind problem visit proof r ≡ next d
      → (d ≡ record { kind = kind; delivered = r }) × IsOfProof visit proof r
  unfolding deliver
  deliver-next kind problem visit proof r d h =
      elim (Bool-cases (record_matches platform config visit proof r)) [
        | inl fits ↦ (ground arith, record_matches→IsOfProof visit proof r fits)
        | inr differs ↦ absurd (ground arith)
      ]
