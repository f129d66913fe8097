-- ===== src/Middleware/Grants.antt =====
-- What has happened when the legacy middleware lets a request through
-- (packages/express-middleware/src/middleware.ts).
use reapp_protocol.Common.{
  Bool-cases, Option, Option-cases, Text, ap, err, inl, inr, is_hex64, none, ok, refl, some,
  text_eq, text_eq→eq, to_lower, true, ◌∙◌, ◌≡◌, ◌⊎◌,
}
use reapp_protocol.Json.{Platform}
use reapp_protocol.X402.{Parsed, PaymentProof, decode_proof}
use reapp_protocol.Payment.{
  PaymentRequirement, VerifiedPayment, invalid, unavailable, VerificationResult, verified, refused,
  supported,
}
use reapp_protocol.Request.{
  Request, OneHeader, no_header, rejected_header, one_header, canonical_payment_header,
}
use reapp_protocol.RedemptionStore.{Consumption, consumed, duplicate, RedemptionStore}
use reapp_protocol.Middleware.{
  Config, config_failed, malformed_header, malformed_proof, wrong_scheme, wrong_network, bad_hash,
  Response, respond, next, Verify, build_challenge, plain_response, charge_response,
  requirement_for, proof_scheme, proof_network, proof_tx_hash, redeem, judge, admit, present_proof,
  handle, after_store, record_of,
}

module _ (platform : Platform) (config : Config) (verify : Verify) (store : RedemptionStore) where
  -- The way of a request to the store: its requirement, its one canonical header, the proof in it,
  -- and the verdict on the proof's transaction hash.
  pub record Reaches (request : Request) (payment : VerifiedPayment) : Type 0 where
    pub requirement : PaymentRequirement
    pub required : requirement_for config request ≡ some requirement
    pub header : Text
    pub sent : canonical_payment_header platform request config.max_header_bytes ≡ one_header header
    pub proof : PaymentProof
    pub decoded : decode_proof platform header ≡ ok proof
    pub same_scheme : proof_scheme proof ≡ requirement.scheme
    pub same_network : proof_network proof ≡ requirement.network
    pub hash_is_hex : is_hex64 (to_lower (proof_tx_hash proof)) ≡ true
    pub verdict : verify (to_lower (proof_tx_hash proof)) requirement ≡ some (verified payment)

  -- A request is refused with the store untouched, or it is redeemed.
  abbrev pub Handled : Request → store.State → Type 0
  Handled request s =
      ((r : Response) × (handle platform config verify store request s ≡ (respond r, s)))
      ⊎ ((payment : VerifiedPayment) × (reached : Reaches request payment) × (handle platform config
              verify store request s
            ≡ redeem platform config verify store reached.requirement payment s))

  judge_cases :
      (requirement : PaymentRequirement) (v : Option VerificationResult) (s : store.State)
      → ((r : Response) × (judge platform config verify store requirement v s ≡ (respond r, s)))
        ⊎ ((payment : VerifiedPayment) × (v ≡ some (verified payment))
            × (judge platform config verify store requirement v s
                ≡ redeem platform config verify store requirement payment s))
  unfolding judge
  judge_cases requirement none s = inl (_, refl)
  judge_cases requirement (some (refused unavailable reason)) s = inl (_, refl)
  judge_cases requirement (some (refused invalid reason)) s = inl (_, refl)
  judge_cases requirement (some (verified payment)) s = inr (payment, refl, refl)

  admit_cases :
      (requirement : PaymentRequirement) (proof : PaymentProof) (s : store.State)
      → ((r : Response) × (admit platform config verify store requirement proof s ≡ (respond r, s)))
        ⊎ ((payment : VerifiedPayment) × (proof_scheme proof ≡ requirement.scheme)
            × (proof_network proof ≡ requirement.network)
            × (is_hex64 (to_lower (proof_tx_hash proof)) ≡ true)
            × (verify (to_lower (proof_tx_hash proof)) requirement ≡ some (verified payment))
            × (admit platform config verify store requirement proof s
                ≡ redeem platform config verify store requirement payment s))
  unfolding admit
  admit_cases requirement proof s =
      elim (Bool-cases (text_eq (proof_scheme proof) requirement.scheme)) [
        | inr no_scheme ↦
            inl
              (charge_response (some wrong_scheme) (build_challenge requirement), rw no_scheme refl)
        | inl scheme ↦ elim (Bool-cases (text_eq (proof_network proof) requirement.network)) [
          | inr no_network ↦ inl (
            charge_response (some wrong_network) (build_challenge requirement),
            rw (scheme, no_network) refl,
          )
          | inl network ↦ elim (Bool-cases (is_hex64 (to_lower (proof_tx_hash proof)))) [
            | inr no_hash ↦ inl (
              charge_response (some bad_hash) (build_challenge requirement),
              rw (scheme, network, no_hash) refl,
            )
            | inl hash ↦
                elim (judge_cases requirement (verify (to_lower (proof_tx_hash proof)) requirement)
                  s) [
                    | inl (r, e) ↦ inl (r, rw (scheme, network, hash) e)
                    | inr (payment, verdict, e) ↦ inr (
                      payment,
                      text_eq→eq _ _ scheme,
                      text_eq→eq _ _ network,
                      hash,
                      verdict,
                      rw (scheme, network, hash) e,
                    )
                  ]
          ]
        ]
      ]

  pub handle_cases : (request : Request) (s : store.State) → Handled request s
  unfolding handle present_proof
  handle_cases request s = elim (Option-cases (requirement_for config request)) [
    | inl failed ↦ inl (plain_response 500 config_failed, rw (failed, handle) refl)
    | inr (requirement, required) ↦
        from_header requirement required
          (canonical_payment_header platform request config.max_header_bytes) refl
  ]
    where
      from_header :
          (requirement : PaymentRequirement)
          → requirement_for config request ≡ some requirement
          → (h : OneHeader) → canonical_payment_header platform request config.max_header_bytes ≡ h
          → Handled request s
      from_header requirement required no_header e = inl (
        charge_response (none) (build_challenge requirement),
        rw (required, handle) (rw (e, present_proof) refl),
      )
      from_header requirement required rejected_header e = inl (
        charge_response (some malformed_header) (build_challenge requirement),
        rw (required, handle) (rw (e, present_proof) refl),
      )
      from_header requirement required (one_header header) e =
          from_proof (decode_proof platform header) refl
        where
          from_proof :
              (p : Parsed PaymentProof) → decode_proof platform header ≡ p → Handled request s
          from_proof (err x) d = inl (
            charge_response (some malformed_proof) (build_challenge requirement),
            rw (required, handle) (rw (e, present_proof) (rw (d, present_proof) refl)),
          )
          from_proof (ok proof) d = elim (admit_cases requirement proof s) [
            | inl (r, same) ↦
                inl (r, rw (required, handle) (rw (e, present_proof) (rw (d, present_proof) same)))
            | inr (payment, scheme, network, hash, verdict, same) ↦ inr (
              payment,
              record {
                requirement = requirement;
                required = required;
                header = header;
                sent = e;
                proof = proof;
                decoded = d;
                same_scheme = scheme;
                same_network = network;
                hash_is_hex = hash;
                verdict = verdict;
              },
              rw (required, handle) (rw (e, present_proof) (rw (d, present_proof) same)),
            )
          ]

  -- The store answered `consumed` for the record of a payment.
  abbrev pub ConsumedNow : PaymentRequirement → VerifiedPayment → store.State → Type 0
  ConsumedNow requirement payment s =
      supported
        (store.consume_once (record_of platform config verify store requirement payment) s).0
      ≡ some consumed

  after_store-next :
      (p payment : VerifiedPayment) (o : Option Consumption)
      → after_store platform config verify store p o ≡ next payment
      → (p ≡ payment) × (o ≡ some consumed)
  after_store-next p payment none h = (cc, cc)
  after_store-next p payment (some duplicate) h = (cc, cc)
  after_store-next p payment (some consumed) h = (cc, refl)

  redeem-next :
      (requirement : PaymentRequirement) (p payment : VerifiedPayment) (s : store.State)
      → (redeem platform config verify store requirement p s).0 ≡ next payment
      → (p ≡ payment) × ConsumedNow requirement payment s
  unfolding redeem
  redeem-next requirement p payment s h =
      let (same, now) = after_store-next p payment _ h in (same, rw (← same) now)

  -- A request is let through only with a requirement of this configuration, one canonical header
  -- that decodes to a proof of the required scheme and network with a hexadecimal transaction
  -- hash, a verified payment for that hash and requirement, and the store's answer `consumed`.
  pub handle-next :
      (request : Request) (payment : VerifiedPayment) (s : store.State)
      → (handle platform config verify store request s).0 ≡ next payment
      → (reached : Reaches request payment) × ConsumedNow reached.requirement payment s
  handle-next request payment s h = elim (handle_cases request s) [
    | inl (r, e) ↦ absurd (refuse r (rw e at h))
    | inr (p, reached, e) ↦
        let (same, now) = redeem-next reached.requirement p payment s (rw e at h) in
        (
          record {
            requirement = reached.requirement;
            required = reached.required;
            header = reached.header;
            sent = reached.sent;
            proof = reached.proof;
            decoded = reached.decoded;
            same_scheme = reached.same_scheme;
            same_network = reached.same_network;
            hash_is_hex = reached.hash_is_hex;
            verdict = reached.verdict ∙ ap (λ (q : VerifiedPayment). some (verified q)) same;
          },
          now,
        )
  ]
    where
      refuse : (r : Response) → respond r ≡ next payment → ⊥
      refuse r k = cc
