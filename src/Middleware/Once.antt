-- ===== src/Middleware/Once.antt =====
-- The legacy middleware over the in-memory store and over the on-chain verifier
-- (packages/express-middleware/src/middleware.ts, proof-store.ts, verification.ts).
use reapp_protocol.Common.{
  Bool-cases, List, Text, [], arith, false, has, has-insert, if◌then◌else◌, inl, inr, refl, some,
  text_eq, text_eq→eq, to_lower, true, ℕ, ◌+◌, ◌∙◌, ◌∷◌, ◌≡◌, ◌≤◌, ◌⊎◌,
}
use reapp_protocol.Json.{Platform}
use reapp_protocol.Payment.{PaymentRequirement, VerifiedPayment, VerificationResult}
use reapp_protocol.Request.{Request, redemption_key}
use reapp_protocol.RedemptionStore.{RedemptionRecord, RedemptionStore, consume_once, in_memory}
use reapp_protocol.Verifier.{verify, VerifierConfig, Chain}
use reapp_protocol.Verifier.Soundness.{IsSettled, verify-IsSettled}
use reapp_protocol.Middleware.{
  Config, Outcome, respond, next, Verify, requirement_for, proof_tx_hash, record_of, redeem, handle,
}
use reapp_protocol.Middleware.Grants.{handle_cases, handle-next}

-- One for an outcome that lets a request through with a payment whose redemption key is `key`.
abbrev grant : Platform → Config → Text → Outcome → ℕ
grant platform config key (respond r) = 0
grant platform config key (next payment) =
    if text_eq
      (redemption_key platform config.network_passphrase config.registry_id payment.tx_hash) key
    then 1
    else 0

-- The requests of one process, in the order in which they reach the store. What the verifier
-- answers may differ from request to request.
unfoldable pub grants :
    Platform → Config → Text → List (Request × Verify) → List (Text × RedemptionRecord) → ℕ
grants platform config key [] m = 0
grants platform config key ((request, verify) ∷ visits) m =
    let (outcome, m') = handle platform config verify in_memory request m in
    grant platform config key outcome + grants platform config key visits m'

module _ (platform : Platform) (config : Config) where
  requirement-registry :
      (request : Request) (r : PaymentRequirement)
      → requirement_for config request ≡ some r
      → r.registry_id ≡ config.registry_id
  unfolding requirement_for
  requirement-registry request r h = ground arith

  -- One request: no grant and no loss of a key, or a grant for a key that was free and is now taken.
  abbrev Effect : Text → Request → Verify → List (Text × RedemptionRecord) → Type 0
  Effect key request verify m =
      let (outcome, m') = handle platform config verify in_memory request m in
      ((grant platform config key outcome ≡ 0) × (has key m ≡ true → has key m' ≡ true))
      ⊎ ((grant platform config key outcome ≡ 1) × (has key m ≡ false) × (has key m' ≡ true))

  redeem_effect :
      (key : Text) (verify : Verify) (r : PaymentRequirement) (p : VerifiedPayment)
      (m : List (Text × RedemptionRecord))
      → r.registry_id ≡ config.registry_id
      → let (outcome, m') = redeem platform config verify in_memory r p m in
        ((grant platform config key outcome ≡ 0) × (has key m ≡ true → has key m' ≡ true))
        ⊎ ((grant platform config key outcome ≡ 1) × (has key m ≡ false) × (has key m' ≡ true))
  unfolding redeem consume_once
  redeem_effect key verify r p m e =
      let k = redemption_key platform config.network_passphrase r.registry_id p.tx_hash in
      let rec = record_of platform config verify in_memory r p in
      elim (Bool-cases (has k m)) [
        | inl known ↦ rw known (inl (refl, λ h. h))
        | inr fresh ↦ elim (Bool-cases (text_eq k key)) [
          | inl hit ↦ rw fresh (
              rw (← e) (
                inr (
                  rw hit refl,
                  rw (← text_eq→eq k key hit) fresh,
                  has-insert k key rec m ∙ (rw hit refl),
                )))
          | inr miss ↦
              rw fresh
                (rw (← e) (inl (rw miss refl, λ h. has-insert k key rec m ∙ (rw (miss, h) refl))))
        ]
      ]

  handle-Effect :
      (key : Text) (request : Request) (verify : Verify) (m : List (Text × RedemptionRecord))
      → Effect key request verify m
  handle-Effect key request verify m =
      elim (handle_cases platform config verify in_memory request m) [
        | inl (r, e) ↦ rw e (inl (refl, λ h. h))
        | inr (p, reached, e) ↦ rw e (
            redeem_effect key verify reached.requirement p m
              (requirement-registry request reached.requirement reached.required))
      ]

  grants_of_known :
      (key : Text) (visits : List (Request × Verify)) (m : List (Text × RedemptionRecord))
      → has key m ≡ true
      → grants platform config key visits m ≡ 0
  unfolding grants
  grants_of_known key [] m h = refl
  grants_of_known key ((request, verify) ∷ visits) m h = elim (handle-Effect key request verify m) [
    | inl (none_now, kept) ↦ omega (
      arith,
      none_now,
      grants_of_known key visits (handle platform config verify in_memory request m).1 (kept h),
    )
    | inr (_, free, _) ↦ absurd (cc)
  ]

  -- However the requests reach the in-memory store, and whatever the verifier answers, at most one
  -- request is let through for a redemption key.
  pub grants-le-one :
      (key : Text) (visits : List (Request × Verify)) (m : List (Text × RedemptionRecord))
      → grants platform config key visits m ≤ 1
  unfolding grants
  grants-le-one key [] m = omega arith
  grants-le-one key ((request, verify) ∷ visits) m = elim (handle-Effect key request verify m) [
    | inl (none_now, _) ↦ omega (
      arith,
      none_now,
      grants-le-one key visits (handle platform config verify in_memory request m).1,
    )
    | inr (one, _, taken) ↦ omega (
      arith,
      one,
      grants_of_known key visits (handle platform config verify in_memory request m).1 taken,
    )
  ]

some_injective : (a b : VerificationResult) → some a ≡ some b → a ≡ b
some_injective a b h = cc

-- With the on-chain verifier, a request is let through only for a settled payment: the conditions
-- of `verify` hold of the chain for the request's own requirement.
pub handle-next-IsSettled :
    (platform : Platform) (config : Config) (rules : VerifierConfig) (chain : Chain)
    (store : RedemptionStore) (request : Request) (payment : VerifiedPayment) (s : store.State)
    → (handle platform config (λ h r. some (verify rules chain h r)) store request s).0
      ≡ next payment
    → (requirement : PaymentRequirement) × (tx_hash : Text) × (requirement_for config request
        ≡ some requirement)
      × IsSettled rules chain tx_hash requirement payment
handle-next-IsSettled platform config rules chain store request payment s h =
    let on_chain : Verify = λ t r. some (verify rules chain t r) in
    let (reached, _) = handle-next platform config on_chain store request payment s h in
    let hash = to_lower (proof_tx_hash reached.proof) in
    (
      reached.requirement,
      hash,
      reached.required,
      verify-IsSettled rules chain hash reached.requirement payment
          (some_injective _ _ reached.verdict),
    )
