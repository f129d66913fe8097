-- ===== src/Bound/Deliveries.antt =====
-- What has happened when the bound middleware hands a delivery to the route
-- (packages/express-middleware/src/bound.ts).
use reapp_protocol.Common.{
  Bool, Bool-cases, Option, ap, arith, false, if◌then◌else◌, inl, inr, none, refl, some, sym, true,
  ◌∙◌, ◌≡◌,
}
use reapp_protocol.Json.{Platform}
use reapp_protocol.X402.{BoundProof}
use reapp_protocol.Payment.{
  VerifiedPayment, invalid, unavailable, VerificationResult, verified, refused, supported,
}
use reapp_protocol.Request.{Request}
use reapp_protocol.DeliveryStore.{DeliveryRecord, BoundRedemptionStore, Lookup, Claim}
use reapp_protocol.BoundRequest.{
  Config, Moment, Offer, recovery_evidence, expired, stored_evidence, Response, claimed, completed,
  Delivery, Outcome, respond, next, charge, Verify, Visit, Pending, finished, verifying, in_window,
  proof_digest, key_of, payment_matches, after_lookup, after_claim,
}
use reapp_protocol.Bound.{begin, claim_record, resume, continue, handle}
use reapp_protocol.Bound.Matching.{IsOfProof, deliver-next}
use reapp_protocol.Bound.Begin.{Authorized, begin_cases}

module _ (platform : Platform) (config : Config) where
  module _ (store : BoundRedemptionStore) where
    -- The claim's answer is the delivery that is handed on.
    pub data ClaimGave : Option Claim → Delivery → Type 0 where
      fresh :
          {c : Option Claim} {d : Delivery} (r : DeliveryRecord)
          → c ≡ some (Claim.claimed r)
          → d ≡ record { kind = claimed; delivered = r }
          → ClaimGave c d
      raced :
          {c : Option Claim} {d : Delivery} (r : DeliveryRecord)
          → c ≡ some (Claim.completed r)
          → d ≡ record { kind = completed; delivered = r }
          → ClaimGave c d

    after_claim-next :
        (p : Pending) (c : Option Claim) (d : Delivery)
        → after_claim platform config p c ≡ next d
        → ClaimGave c d × IsOfProof platform config p.visit p.proof d.delivered
    unfolding after_claim
    after_claim-next p none d h = absurd (cc)
    after_claim-next p (some Claim.conflict) d h = absurd (cc)
    after_claim-next p (some (Claim.executing r)) d h = absurd (cc)
    after_claim-next p (some (Claim.claimed r)) d h =
        let (same, fits) =
          deliver-next platform config claimed stored_evidence p.visit p.proof r d h in
        (fresh r refl same, rw same fits)
    after_claim-next p (some (Claim.completed r)) d h =
        let (same, fits) =
          deliver-next platform config completed stored_evidence p.visit p.proof r d h in
        (raced r refl same, rw same fits)

    -- The second segment hands on only what the store gave for a payment that was verified for this
    -- proof's transaction and matches the proof.
    pub record Resumed (moment : Moment) (p : Pending) (v : Option VerificationResult)
        (s : store.State) (d : Delivery) : Type 0 where
      pub payment : VerifiedPayment
      pub verdict : v ≡ some (verified payment)
      pub matching : payment_matches platform config p.visit p.proof payment ≡ true
      pub given :
          ClaimGave
            (supported
              (store.claim
                (claim_record platform config store p payment)
                moment.uuid
                p.visit.now
                s).0)
            d
      pub of_proof : IsOfProof platform config p.visit p.proof d.delivered

    pub resume-next :
        (moment : Moment) (p : Pending) (v : Option VerificationResult) (s : store.State)
        (d : Delivery)
        → (resume platform config store moment p v s).0 ≡ next d
        → Resumed moment p v s d
    unfolding resume
    resume-next moment p none s d h = absurd (cc)
    resume-next moment p (some (refused unavailable reason)) s d h = absurd (cc)
    resume-next moment p (some (refused invalid reason)) s d h = absurd (cc)
    resume-next moment p (some (verified payment)) s d h =
        elim (Bool-cases (payment_matches platform config p.visit p.proof payment)) [
          | inl fits ↦
              let (given, of_proof) =
                after_claim-next p
                  (supported
                    (store.claim (claim_record platform config store p payment) moment.uuid
                      p.visit.now s).0)
                  d (with_match fits) in
              record {
                payment = payment;
                verdict = refl;
                matching = fits;
                given = given;
                of_proof = of_proof;
              }
          | inr differs ↦ absurd (without_match differs)
        ]
      where
        with_match :
            payment_matches platform config p.visit p.proof payment ≡ true
            → after_claim platform config p (
                supported
                  (store.claim
                    (claim_record platform config store p payment)
                    moment.uuid
                    p.visit.now
                    s).0)
              ≡ next d
        with_match fits = ground arith

        without_match : payment_matches platform config p.visit p.proof payment ≡ false → ⊥
        without_match differs = ground arith

    -- Where a delivery that is handed on comes from: replayed by the store's lookup, or claimed in
    -- the challenge's lifetime after a verification.
    pub data Origin (verify : Verify) (moment : Moment) (visit : Visit) (proof : BoundProof)
        (s : store.State) (d : Delivery) : Type 0 where
      replayed :
          (r : DeliveryRecord)
          → supported
              (store.lookup (key_of platform config proof) (proof_digest platform config proof) s).0
            ≡ some (Lookup.completed r)
          → d ≡ record { kind = completed; delivered = r }
          → Origin verify moment visit proof s d
      verified_now :
          (p : Pending) (s' : store.State)
          → p.visit ≡ visit
          → p.proof ≡ proof
          → in_window proof.challenge visit.now ≡ true
          → Resumed moment p (verify proof.tx_hash visit.requirement) s' d
          → Origin verify moment visit proof s d

    pub record Served (verify : Verify) (request : Request) (moment : Moment) (s : store.State)
        (d : Delivery) : Type 0 where
      pub visit : Visit
      pub proof : BoundProof
      pub authorized : Authorized platform config request moment visit proof
      pub of_proof : IsOfProof platform config visit proof d.delivered
      pub origin : Origin verify moment visit proof s d

    answer-next :
        (verify : Verify) (request : Request) (moment : Moment) (visit : Visit) (proof : BoundProof)
        (offer : Offer) (l : Option Lookup) (s s' : store.State) (d : Delivery)
        → supported
            (store.lookup (key_of platform config proof) (proof_digest platform config proof) s).0
          ≡ l
        → (continue platform config store verify moment
            (after_lookup platform config visit offer proof l)
            s').0
          ≡ next d
        → IsOfProof platform config visit proof d.delivered × Origin verify moment visit proof s d
    unfolding after_lookup
    answer-next verify request moment visit proof offer none s s' d e h = absurd (cc)
    answer-next verify request moment visit proof offer (some Lookup.conflict) s s' d e h =
        absurd (cc)
    answer-next verify request moment visit proof offer (some (Lookup.executing r)) s s' d e h =
        absurd (cc)
    answer-next verify request moment visit proof offer (some (Lookup.completed r)) s s' d e h =
        let (same, fits) =
          deliver-next platform config completed recovery_evidence visit proof r d h in
        (rw same fits, replayed r e same)
    answer-next verify request moment visit proof offer (some Lookup.missing) s s' d e h =
        elim (Bool-cases (in_window proof.challenge visit.now)) [
          | inl alive ↦
              let p : Pending = record { visit = visit; offer = offer; proof = proof } in
              let resumed =
                resume-next moment p (verify proof.tx_hash visit.requirement) s' d
                  (started alive) in
              (resumed.of_proof, verified_now p s' refl refl alive resumed)
          | inr late ↦ absurd (stopped late)
        ]
      where
        branch : Bool → Outcome
        branch b =
            (continue platform config store verify moment
              (if b
                then verifying (record { visit = visit; offer = offer; proof = proof })
                else finished (respond (charge (some expired) offer)))
              s').0

        started :
            in_window proof.challenge visit.now ≡ true
            → (resume platform config store moment
                (record { visit = visit; offer = offer; proof = proof })
                (verify proof.tx_hash visit.requirement)
                s').0
              ≡ next d
        started alive = sym (ap branch alive) ∙ h

        stopped : in_window proof.challenge visit.now ≡ false → ⊥
        stopped late = apart (sym (ap branch late) ∙ h)
          where
            apart : respond (charge (some expired) offer) ≡ next d → ⊥
            apart k = cc

    -- A delivery reaches the route only for a GET request with the bound capability and one
    -- canonical payment header, whose proof answers a challenge that this merchant authenticated
    -- for this very request; the record handed on is that of the proof, its payment at this price
    -- is signed for by the mandate's agent, and it was stored as completed before or claimed after
    -- a verification within the challenge's lifetime.
    pub handle-Served :
        (verify : Verify) (request : Request) (moment : Moment) (s : store.State) (d : Delivery)
        → (handle platform config store verify request moment s).0 ≡ next d
        → Served verify request moment s d
    unfolding handle
    handle-Served verify request moment s d h =
        elim (begin_cases platform config store request moment s) [
          | inl (r, e) ↦ absurd (not_next r (rw e at h))
          | inr (visit, proof, offer, authorized, e) ↦
              let (of_proof, origin) =
                answer-next verify request moment visit proof offer _ s
                  (begin platform config store request moment s).1 d refl (rw e at h) in
              record {
                visit = visit;
                proof = proof;
                authorized = authorized;
                of_proof = of_proof;
                origin = origin;
              }
        ]
      where
        not_next : (r : Response) → respond r ≡ next d → ⊥
        not_next r k = cc
