-- ===== src/Bound/Once.antt =====
-- Interleaved requests over the in-memory store, and the starts of a key's paid work
-- (packages/express-middleware/src/bound.ts, bound-store.ts).
use reapp_protocol.Common.{
  Bool-cases, List, Option, Option-cases, Text, [], arith, err, false, if◌then◌else◌, inl, inr, lit,
  none, ok, refl, some, text_eq, to_upper, true, ℕ, ◌+◌, ◌∷◌, ◌≡◌, ◌≤◌, ◌⊎◌,
}
use reapp_protocol.Json.{Platform}
use reapp_protocol.Payment.{
  VerifiedPayment, invalid, unavailable, VerificationResult, verified, refused,
}
use reapp_protocol.Request.{
  Request, OneHeader, no_header, rejected_header, one_header, one_raw_header,
  canonical_payment_header,
}
use reapp_protocol.DeliveryStore.{
  DeliveryRecord, Records, Lookup, Claim, Completion, in_memory, claim, complete,
}
use reapp_protocol.DeliveryStore.Claims.{
  Call, claim_call, complete_call, after, claimed_reply, claims_now, claims, claims-le-one,
}
use mathlib.Core.Path.{subst}
use reapp_protocol.X402.{
  Parsed, BoundProof, PaymentProof, legacy, bound, bound_payment_capability, decode_proof,
}
use reapp_protocol.BoundRequest.{
  Config, Moment, Offer, Problem, malformed_proof, recovery_evidence, no_match, stored_evidence,
  claimed, completed, Outcome, respond, next, charge, Visit, Pending, Started, finished, verifying,
  in_window, visit_for, offer_for, exact_challenge, payment_matches, record_matches, deliver,
  after_lookup, after_claim,
}
use reapp_protocol.Bound.{bind_request, read_proof, negotiate, begin, claim_record, resume}
use reapp_protocol.Bound.Begin.{begin_cases}

-- The segments of all the requests of one process, in the order in which they run. A segment of one
-- request may stand between two of another. The completion is that of the route.
pub data Segment : Type 0 where
  start : Request → Moment → Segment
  go_on : Moment → Pending → Option VerificationResult → Segment
  finish : Completion → Segment

module _ (platform : Platform) (config : Config) where
  unfoldable pub run : Segment → Records → Records
  run (start request moment) m = (begin platform config in_memory request moment m).1
  run (go_on moment p v) m = (resume platform config in_memory moment p v m).1
  run (finish c) m = (complete c m).1

  -- One where the segment hands the route a fresh claim under `key`: the paid work is started.
  abbrev starts : Text → Outcome → ℕ
  starts key (respond r) = 0
  starts key (next d) = elim d.kind [
    | claimed ↦ if text_eq d.delivered.key key then 1 else 0
    | completed ↦ 0
  ]

  abbrev started_outcome : Started → Outcome
  started_outcome (finished o) = o
  started_outcome (verifying p) = respond (charge none p.offer)

  unfoldable pub starts_now : Text → Segment → Records → ℕ
  starts_now key (start request moment) m =
      starts key (started_outcome (begin platform config in_memory request moment m).0)
  starts_now key (go_on moment p v) m = starts key (resume platform config in_memory moment p v m).0
  starts_now key (finish c) m = 0

  unfoldable pub starts_all : Text → List Segment → Records → ℕ
  starts_all key [] m = 0
  starts_all key (g ∷ gs) m = starts_now key g m + starts_all key gs (run g m)

  -- What a segment does to the store, as the one call that it makes there.
  abbrev Effect : Text → Segment → Records → Type 0
  Effect key g m =
      ((starts_now key g m ≡ 0) × (run g m ≡ m))
      ⊎ ((c : Call) × (starts_now key g m ≤ claims_now key c m) × (run g m ≡ after c m))

  deliver-starts :
      (key : Text) (problem : Problem) (visit : Visit) (proof : BoundProof) (r : DeliveryRecord)
      → starts key (deliver platform config completed problem visit proof r) ≡ 0
  unfolding deliver
  deliver-starts key problem visit proof r =
      elim (Bool-cases (record_matches platform config visit proof r)) [
        | inl fits ↦ rw fits refl
        | inr differs ↦ rw differs refl
      ]

  after_lookup-starts :
      (key : Text) (visit : Visit) (offer : Offer) (proof : BoundProof) (l : Option Lookup)
      → starts key (started_outcome (after_lookup platform config visit offer proof l)) ≡ 0
  unfolding after_lookup
  after_lookup-starts key visit offer proof none = refl
  after_lookup-starts key visit offer proof (some Lookup.conflict) = refl
  after_lookup-starts key visit offer proof (some (Lookup.executing r)) = refl
  after_lookup-starts key visit offer proof (some (Lookup.completed r)) =
      deliver-starts key recovery_evidence visit proof r
  after_lookup-starts key visit offer proof (some Lookup.missing) =
      elim (Bool-cases (in_window proof.challenge visit.now)) [
        | inl alive ↦ rw alive refl
        | inr late ↦ rw late refl
      ]

  -- The lookup of the in-memory store leaves the records as they are.
  bind-state :
      (method : Text) (visit : Visit) (offer : Offer) (p : PaymentProof) (m : Records)
      → (bind_request platform config in_memory method visit offer p m).1 ≡ m
  unfolding bind_request
  bind-state method visit offer (legacy p) m = refl
  bind-state method visit offer (bound proof) m =
      elim (Bool-cases (exact_challenge platform config method visit proof)) [
        | inl exact ↦ rw exact refl
        | inr other ↦ rw other refl
      ]

  read-state :
      (method : Text) (visit : Visit) (offer : Offer) (h : OneHeader) (m : Records)
      → (read_proof platform config in_memory method visit offer h m).1 ≡ m
  unfolding read_proof
  read-state method visit offer no_header m = refl
  read-state method visit offer rejected_header m = refl
  read-state method visit offer (one_header header) m = from_proof (decode_proof platform header)
    where
      from_proof :
          (p : Parsed PaymentProof)
          → (elim p as (λ _. Started × Records) [
            | err _ ↦ (finished (respond (charge (some malformed_proof) offer)), m)
            | ok proof ↦ bind_request platform config in_memory method visit offer proof m
          ]).1
            ≡ m
      from_proof (err x) = refl
      from_proof (ok proof) = bind-state method visit offer proof m

  negotiate-state :
      (request : Request) (moment : Moment) (visit : Visit) (h : OneHeader) (m : Records)
      → (negotiate platform config in_memory request moment visit h m).1 ≡ m
  unfolding negotiate
  negotiate-state request moment visit no_header m = refl
  negotiate-state request moment visit rejected_header m = refl
  negotiate-state request moment visit (one_header c) m =
      elim (Bool-cases (text_eq c bound_payment_capability)) [
        | inr other ↦ rw other refl
        | inl capable ↦ elim (Option-cases (offer_for platform config request visit moment)) [
          | inl failed ↦ rw capable (rw (failed, negotiate) refl)
          | inr (offer, made) ↦ rw capable (
              rw (made, negotiate)
                (read-state (to_upper request.method) visit offer
                  (canonical_payment_header platform request config.max_header_bytes) m))
        ]
      ]

  begin-state :
      (request : Request) (moment : Moment) (m : Records)
      → (begin platform config in_memory request moment m).1 ≡ m
  unfolding begin
  begin-state request moment m = elim (Bool-cases (text_eq (to_upper request.method) (lit "GET"))) [
    | inr other ↦ rw other refl
    | inl get ↦ elim (Option-cases (visit_for platform config request moment)) [
      | inl failed ↦ rw get (rw (failed, begin) refl)
      | inr (visit, visited) ↦ rw get (
          rw (visited, begin)
            (negotiate-state request moment visit
              (one_raw_header platform request (lit "reapp-payment-capabilities") 256) m))
    ]
  ]

  begin-Effect :
      (key : Text) (request : Request) (moment : Moment) (m : Records)
      → Effect key (start request moment) m
  unfolding starts_now run
  begin-Effect key request moment m = inl (
    elim (begin_cases platform config in_memory request moment m) [
      | inl (r, e) ↦ rw e refl
      | inr (visit, proof, offer, _, e) ↦ rw e (after_lookup-starts key visit offer proof _)
    ],
    begin-state request moment m,
  )

  after_claim-starts :
      (key : Text) (p : Pending) (c : Claim)
      → starts key (after_claim platform config p (some c)) ≤ claimed_reply key c
  unfolding after_claim deliver
  after_claim-starts key p Claim.conflict = omega arith
  after_claim-starts key p (Claim.executing r) = omega arith
  after_claim-starts key p (Claim.claimed r) =
      elim (Bool-cases (record_matches platform config p.visit p.proof r)) [
        | inl fits ↦ rw fits (omega arith)
        | inr differs ↦ rw differs (omega arith)
      ]
  after_claim-starts key p (Claim.completed r) =
      omega (arith, deliver-starts key stored_evidence p.visit p.proof r)

  abbrev claim_reply : Moment → Pending → VerifiedPayment → Records → Claim × Records
  claim_reply moment p payment m =
      claim (claim_record platform config in_memory p payment) moment.uuid p.visit.now m

  resume-verified :
      (moment : Moment) (p : Pending) (payment : VerifiedPayment) (m : Records)
      → payment_matches platform config p.visit p.proof payment ≡ true
      → resume platform config in_memory moment p (some (verified payment)) m ≡ (
        after_claim platform config p (some (claim_reply moment p payment m).0),
        (claim_reply moment p payment m).1,
      )
  unfolding resume
  resume-verified moment p payment m fits = rw fits refl

  resume-no_match :
      (moment : Moment) (p : Pending) (payment : VerifiedPayment) (m : Records)
      → payment_matches platform config p.visit p.proof payment ≡ false
      → resume platform config in_memory moment p (some (verified payment)) m
        ≡ (respond (charge (some no_match) p.offer), m)
  unfolding resume
  resume-no_match moment p payment m differs = rw differs refl

  resume-Effect :
      (key : Text) (moment : Moment) (p : Pending) (v : Option VerificationResult) (m : Records)
      → Effect key (go_on moment p v) m
  unfolding starts_now run claims_now after
  resume-Effect key moment p none m = inl (unfold resume in refl, unfold resume in refl)
  resume-Effect key moment p (some (refused unavailable reason)) m =
      inl (unfold resume in refl, unfold resume in refl)
  resume-Effect key moment p (some (refused invalid reason)) m =
      inl (unfold resume in refl, unfold resume in refl)
  resume-Effect key moment p (some (verified payment)) m =
      elim (Bool-cases (payment_matches platform config p.visit p.proof payment)) [
        | inr differs ↦ rw (resume-no_match moment p payment m differs, run) (inl (refl, refl))
        | inl fits ↦ inr (
          claim_call (claim_record platform config in_memory p payment) moment.uuid p.visit.now,
          rw (resume-verified moment p payment m fits)
              (after_claim-starts key p (claim_reply moment p payment m).0),
          rw (resume-verified moment p payment m fits, run) refl,
        )
      ]

  segment-Effect : (key : Text) (g : Segment) (m : Records) → Effect key g m
  segment-Effect key (start request moment) m = begin-Effect key request moment m
  segment-Effect key (go_on moment p v) m = resume-Effect key moment p v m
  segment-Effect key (finish c) m = inr (complete_call c, zero_starts, completes)
    where
      zero_starts : starts_now key (finish c) m ≤ claims_now key (complete_call c) m
      zero_starts = unfold starts_now claims_now in omega arith

      completes : run (finish c) m ≡ after (complete_call c) m
      completes = unfold run after in refl

  -- The segments come to a sequence of calls that claims at least as often.
  as_calls :
      (key : Text) (gs : List Segment) (m : Records)
      → (cs : List Call) × (starts_all key gs m ≤ claims key cs m)
  unfolding starts_all claims
  as_calls key [] m = ([], omega arith)
  as_calls key (g ∷ gs) m =
      let (cs, rest) = as_calls key gs (run g m) in
      elim (segment-Effect key g m) [
        | inl (none_now, stays) ↦ (
          cs,
          omega (
            arith,
            none_now,
            subst (λ x. starts_all key gs (run g m) ≤ claims key cs x) stays rest,
          ),
        )
        | inr (c, now, stays) ↦ (
          c ∷ cs,
          omega (arith, now, subst (λ x. starts_all key gs (run g m) ≤ claims key cs x) stays rest),
        )
      ]

  -- Whatever segments of requests and completions run over the in-memory store, in whatever order,
  -- and whatever the verifier answers, at most one of them hands the route a fresh claim for a key,
  -- so the paid work of a settlement is started at most once.
  pub starts_all-le-one : (key : Text) (gs : List Segment) (m : Records) → starts_all key gs m ≤ 1
  starts_all-le-one key gs m =
      let (cs, below) = as_calls key gs m in omega (arith, below, claims-le-one key cs m)
