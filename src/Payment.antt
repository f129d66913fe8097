-- ===== src/Payment.antt =====
-- Requirements and settlement evidence: packages/express-middleware/src/types.ts.
use reapp_protocol.Common.{ℕ, Text, Option}

-- A request-specific price and the deployment it must settle through. `amount_stroops` is a bigint
-- that `toStroops` made, so it is not negative.
pub record PaymentRequirement : Type 0 where
  pub scheme : Text
  pub network : Text
  pub resource : Text
  pub merchant : Text
  pub asset : Text
  pub amount : Text
  pub amount_stroops : ℕ
  pub registry_id : Text
  pub decimals : ℕ

-- Settlement evidence derived from Stellar.
pub record VerifiedPayment : Type 0 where
  pub tx_hash : Text
  pub ledger : ℕ
  pub mandate_id : Text
  pub user : Text
  pub agent : Text
  pub amount : Text
  pub amount_stroops : ℕ
  pub merchant : Text
  pub asset : Text
  pub registry_id : Text
  pub scheme : Text
  pub network : Text

pub data FailureKind : Type 0 where
  invalid unavailable : FailureKind

-- The `reason` texts of a refusal, one constructor for each template. The texts of errors that
-- come from outside are left out.
pub data Reason : Type 0 where
  hash_not_hex wrong_passphrase identity_read_failed transaction_read_failed : Reason
  not_found unsafe_ledgers ledger_ahead outside_freshness_window : Reason
  transaction_is : Text → Reason
  no_events several_payments no_payment : Reason
  paid_below : ℕ → Reason
  mandate_read_failed merchant_differs asset_differs : Reason
  several_transfers no_transfer : Reason

pub data VerificationResult : Type 0 where
  verified : VerifiedPayment → VerificationResult
  refused : FailureKind → Reason → VerificationResult

-- What the call of an outside service gives: its answer, an answer of a kind that the caller does
-- not support, or an exception.
pub data Reply (A : Type 0) : Type 0 where
  answer : A → Reply A
  unsupported : Reply A
  threw : Reply A

-- The callers treat the last two alike: an unsupported answer is thrown inside the `try`.
abbrev pub supported : {A : Type 0} → Reply A → Option A
supported (answer a) = Option.some a
supported unsupported = Option.none
supported threw = Option.none
