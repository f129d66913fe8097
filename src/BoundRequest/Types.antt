-- ===== src/BoundRequest/Types.antt =====
-- The configuration, the answers and the evidence of the bound middleware
-- (packages/express-middleware/src/bound.ts).
use reapp_protocol.Common.{
  Bool, List, Number, Option, Text, err, false, if◌then◌else◌, is_positive_safe, leb, ltb, natural,
  none, ok, some, true, ℕ, ◌&&◌, ◌+◌,
}
use reapp_protocol.X402.{Parsed, BoundChallenge, BoundProof}
use reapp_protocol.Payment.{PaymentRequirement, Reason, VerificationResult}
use reapp_protocol.Request.{RequestValue}
use reapp_protocol.DeliveryStore.{DeliveryRecord}

pub record Config : Type 0 where
  pub merchant : Text
  pub amount : RequestValue
  pub audience : RequestValue
  pub resource : Option RequestValue
  pub asset : Text
  pub registry_id : Text
  pub network_passphrase : Text
  pub network : Text
  pub decimals : ℕ
  pub max_header_bytes : ℕ
  pub challenge_ttl_seconds : ℕ
  pub challenge_secret : List ℕ

-- What a request draws from its surroundings: the clock, 32 random bytes and a random UUID.
pub record Moment : Type 0 where
  pub clock : Number
  pub entropy : List ℕ
  pub uuid : Text

-- `BoundX402Challenge`, with its one requirement.
pub record Offer : Type 0 where
  pub max_amount_required : Text
  pub resource : Text
  pub challenge : BoundChallenge

-- The texts of the `error` member.
pub data Problem : Type 0 where
  only_get config_failed single_capability capability_required challenge_failed : Problem
  malformed_proof bound_required not_this_request already_bound still_pending : Problem
  recovery_evidence expired verification_threw store_unavailable no_match stored_evidence : Problem
  verification_unavailable not_verified : Reason → Problem

pub record Response : Type 0 where
  pub status : ℕ
  pub problem : Option Problem
  pub offer : Option Offer
  pub retryable : Bool
  pub retry_after : Bool

pub data DeliveryKind : Type 0 where
  claimed completed : DeliveryKind

-- The delivery context that the route finds in the response's locals.
pub record Delivery : Type 0 where
  pub kind : DeliveryKind
  pub delivered : DeliveryRecord

pub data Outcome : Type 0 where
  respond : Response → Outcome
  next : Delivery → Outcome

abbrev pub plain : ℕ → Problem → Response
plain status problem = record {
  status = status;
  problem = some problem;
  offer = none;
  retryable = false;
  retry_after = false;
}

abbrev pub charge : Option Problem → Offer → Response
charge problem offer = record {
  status = 402;
  problem = problem;
  offer = some offer;
  retryable = false;
  retry_after = false;
}

abbrev pub retry : Problem → Response
retry problem = record {
  status = 503;
  problem = some problem;
  offer = none;
  retryable = true;
  retry_after = true;
}

-- Refused with a pause, but not as retryable.
abbrev pub closed : Problem → Response
closed problem = record {
  status = 503;
  problem = some problem;
  offer = none;
  retryable = false;
  retry_after = true;
}

abbrev pub Verify : Type 0
Verify = Text → PaymentRequirement → Option VerificationResult

-- What a request has fixed before its payment header is read.
pub record Visit : Type 0 where
  pub requirement : PaymentRequirement
  pub audience : Text
  pub now : ℕ

-- What a request carries over the verifier's await.
pub record Pending : Type 0 where
  pub visit : Visit
  pub offer : Offer
  pub proof : BoundProof

pub data Started : Type 0 where
  finished : Outcome → Started
  verifying : Pending → Started

abbrev pub without_error : {A : Type 0} → Parsed A → Option A
without_error (ok a) = some a
without_error (err _) = none

-- `value === null`
abbrev pub is_absent : Option Text → Bool
is_absent none = true
is_absent (some _) = false

abbrev pub capture_now : Number → Option ℕ
capture_now clock = if is_positive_safe clock then some (natural clock) else none

-- The test of a challenge's lifetime, negated: issued at most a minute ahead, and not expired.
abbrev pub in_window : BoundChallenge → ℕ → Bool
in_window c now = leb c.issued_at (now + 60) && ltb now c.expires_at
