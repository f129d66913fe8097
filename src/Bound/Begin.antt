-- ===== src/Bound/Begin.antt =====
-- The first segment of a request of the bound middleware, up to the verifier
-- (packages/express-middleware/src/bound.ts).
use reapp_protocol.Common.{
  Bool-cases, Option-cases, Text, ap, err, inl, inr, lit, none, ok, refl, some, text_eq, text_eq→eq,
  to_upper, ◌∙◌, ◌≡◌, ◌⊎◌,
}
use reapp_protocol.Json.{Platform}
use reapp_protocol.X402.{
  Parsed, BoundProof, PaymentProof, legacy, bound, bound_payment_capability, decode_proof,
}
use reapp_protocol.Payment.{supported}
use reapp_protocol.Request.{
  Request, OneHeader, no_header, rejected_header, one_header, one_raw_header,
  canonical_payment_header,
}
use reapp_protocol.DeliveryStore.{BoundRedemptionStore}
use reapp_protocol.BoundRequest.{
  Config, Moment, Offer, only_get, config_failed, single_capability, capability_required,
  challenge_failed, malformed_proof, bound_required, not_this_request, Response, respond, plain,
  charge, Visit, Started, finished, visit_for, offer_for, exact_challenge, proof_digest, key_of,
  after_lookup,
}
use reapp_protocol.Bound.{bind_request, read_proof, negotiate, begin}
use reapp_protocol.Bound.Matching.{IsIssued, exact_challenge→IsIssued}

module _ (platform : Platform) (config : Config) where
  -- A request whose one payment header decodes to a bound proof of a challenge issued for it.
  pub record Authorized (request : Request) (moment : Moment) (visit : Visit) (proof : BoundProof)
      : Type 0 where
    pub is_get : to_upper request.method ≡ lit "GET"
    pub visited : visit_for platform config request moment ≡ some visit
    pub capability :
        one_raw_header platform request (lit "reapp-payment-capabilities") 256
        ≡ one_header bound_payment_capability
    pub header : Text
    pub sent : canonical_payment_header platform request config.max_header_bytes ≡ one_header header
    pub decoded : decode_proof platform header ≡ ok (bound proof)
    pub exact : IsIssued platform config (to_upper request.method) visit proof

  -- What the first segment can come to: an answer that lets nothing through, or the answer of the
  -- store's lookup for an authorized request.
  module _ (store : BoundRedemptionStore) where
    abbrev pub Looked : Request → Moment → store.State → Type 0
    Looked request moment s =
        (visit : Visit) × (proof : BoundProof) × (offer : Offer) × Authorized request moment visit
          proof
        × ((begin platform config store request moment s).0
            ≡ after_lookup platform config visit offer proof (
                supported
                  (store.lookup (key_of platform config proof) (proof_digest platform config proof)
                    s).0))

    abbrev pub BeginCases : Request → Moment → store.State → Type 0
    BeginCases request moment s =
        ((r : Response) × (begin platform config store request moment s
            ≡ (finished (respond r), s)))
        ⊎ Looked request moment s

    bind_cases :
        (method : Text) (visit : Visit) (offer : Offer) (p : PaymentProof) (s : store.State)
        → ((r : Response) × (bind_request platform config store method visit offer p s
              ≡ (finished (respond r), s)))
          ⊎ ((proof : BoundProof) × (p ≡ bound proof)
              × IsIssued platform config method visit proof
              × ((bind_request platform config store method visit offer p s).0
                  ≡ after_lookup platform config visit offer proof (
                      supported
                        (store.lookup
                          (key_of platform config proof)
                          (proof_digest platform config proof)
                          s).0)))
    unfolding bind_request
    bind_cases method visit offer (legacy p) s = inl (charge (some bound_required) offer, refl)
    bind_cases method visit offer (bound proof) s =
        elim (Bool-cases (exact_challenge platform config method visit proof)) [
          | inl exact ↦ inr (
            proof,
            refl,
            exact_challenge→IsIssued platform config method visit proof exact,
            rw exact refl,
          )
          | inr other ↦ inl (charge (some not_this_request) offer, rw other refl)
        ]

    -- The answer of the store's lookup, as the request's first segment gives it on.
    abbrev Answer : Visit → Offer → BoundProof → store.State → Started
    Answer visit offer proof s = after_lookup platform config visit offer proof (
        supported
          (store.lookup (key_of platform config proof) (proof_digest platform config proof) s).0)

    read_cases :
        (method : Text) (visit : Visit) (offer : Offer) (h : OneHeader) (s : store.State)
        → ((r : Response) × (read_proof platform config store method visit offer h s
              ≡ (finished (respond r), s)))
          ⊎ ((header : Text) × (proof : BoundProof) × (h ≡ one_header header)
              × (decode_proof platform header ≡ ok (bound proof))
              × IsIssued platform config method visit proof
              × ((read_proof platform config store method visit offer h s).0
                  ≡ Answer visit offer proof s))
    unfolding read_proof
    read_cases method visit offer no_header s = inl (charge none offer, refl)
    read_cases method visit offer rejected_header s =
        inl (charge (some malformed_proof) offer, refl)
    read_cases method visit offer (one_header header) s =
        from_proof (decode_proof platform header) refl
      where
        from_proof :
            (p : Parsed PaymentProof)
            → decode_proof platform header ≡ p
            → ((r : Response) × (read_proof platform config store method visit offer
                    (one_header header)
                    s
                  ≡ (finished (respond r), s)))
              ⊎ ((header' : Text) × (proof : BoundProof) × (one_header header ≡ one_header header')
                  × (decode_proof platform header' ≡ ok (bound proof))
                  × IsIssued platform config method visit proof
                  × ((read_proof platform config store method visit offer (one_header header) s).0
                      ≡ Answer visit offer proof s))
        from_proof (err x) d = inl (charge (some malformed_proof) offer, rw (d, read_proof) refl)
        from_proof (ok p) d = elim (bind_cases method visit offer p s) [
          | inl (r, e) ↦ inl (r, rw (d, read_proof) e)
          | inr (proof, same, exact, e) ↦ inr (
            header,
            proof,
            refl,
            d ∙ ap (λ (q : PaymentProof). ok q) same,
            exact,
            rw (d, read_proof) e,
          )
        ]

    negotiate_cases :
        (request : Request) (moment : Moment) (visit : Visit) (h : OneHeader) (s : store.State)
        → ((r : Response) × (negotiate platform config store request moment visit h s
              ≡ (finished (respond r), s)))
          ⊎ ((offer : Offer) × (header : Text) × (proof : BoundProof) × (h
                ≡ one_header bound_payment_capability)
              × (canonical_payment_header platform request config.max_header_bytes
                  ≡ one_header header)
              × (decode_proof platform header ≡ ok (bound proof))
              × IsIssued platform config (to_upper request.method) visit proof
              × ((negotiate platform config store request moment visit h s).0
                  ≡ Answer visit offer proof s))
    unfolding negotiate
    negotiate_cases request moment visit no_header s = inl (plain 426 capability_required, refl)
    negotiate_cases request moment visit rejected_header s = inl (plain 426 single_capability, refl)
    negotiate_cases request moment visit (one_header c) s =
        elim (Bool-cases (text_eq c bound_payment_capability)) [
          | inr other ↦ inl (plain 426 capability_required, rw other refl)
          | inl capable ↦ elim (Option-cases (offer_for platform config request visit moment)) [
            | inl failed ↦
                inl (plain 500 challenge_failed, rw capable (rw (failed, negotiate) refl))
            | inr (offer, made) ↦
                elim (read_cases (to_upper request.method) visit offer
                  (canonical_payment_header platform request config.max_header_bytes) s) [
                    | inl (r, e) ↦ inl (r, rw capable (rw (made, negotiate) e))
                    | inr (header, proof, sent, decoded, exact, e) ↦ inr (
                      offer,
                      header,
                      proof,
                      ap (λ (t : Text). one_header t) (text_eq→eq _ _ capable),
                      sent,
                      decoded,
                      exact,
                      rw capable (rw (made, negotiate) e),
                    )
                  ]
          ]
        ]

    pub begin_cases :
        (request : Request) (moment : Moment) (s : store.State) → BeginCases request moment s
    unfolding begin
    begin_cases request moment s =
        elim (Bool-cases (text_eq (to_upper request.method) (lit "GET"))) [
          | inr other ↦ inl (plain 405 only_get, rw other refl)
          | inl get ↦ elim (Option-cases (visit_for platform config request moment)) [
            | inl failed ↦ inl (plain 500 config_failed, rw get (rw (failed, begin) refl))
            | inr (visit, visited) ↦
                elim (negotiate_cases request moment visit
                  (one_raw_header platform request (lit "reapp-payment-capabilities") 256) s) [
                    | inl (r, e) ↦ inl (r, rw get (rw (visited, begin) e))
                    | inr (offer, header, proof, capability, sent, decoded, exact, e) ↦ inr (
                      visit,
                      proof,
                      offer,
                      record {
                        is_get = text_eq→eq _ _ get;
                        visited = visited;
                        capability = capability;
                        header = header;
                        sent = sent;
                        decoded = decoded;
                        exact = exact;
                      },
                      rw get (rw (visited, begin) e),
                    )
                  ]
          ]
        ]
