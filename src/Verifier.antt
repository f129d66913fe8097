-- ===== src/Verifier.antt =====
-- The on-chain verification of a settlement: `createStellarPaymentVerifier(options).verify` of
-- packages/express-middleware/src/verification.ts. The RPC calls are the parameters of `Chain`; a
-- call that throws gives `none`. Ledger numbers are natural numbers, absent where the RPC omits
-- them; Stellar has no negative ones.
pub mod Soundness
use reapp_protocol.Common.{
  ==_iff, >>=-eq-ok, All, Bool, Bool-cases, List, List-cases, Number, Option, Option-cases, Result,
  String, Text, [], all, and3_elim, and4_elim, and_elim, ap, arith, err, false, find, find-insert,
  find-insert_self, find-remove, find_of_not_has, guard, has, has-eq-find, if◌then◌else◌, inl, inr,
  insert, int, is_digit, is_digits, is_exact, is_hex64, is_hex_digit, is_natural_safe,
  is_positive_safe, is_space, leb, leb→le, length, length-append, length-replicate, lit, lower_unit,
  ltb, ltb→lt, lt→ltb, map, max_safe_integer, natural, natural_pos, negsuc, non_integer, none, not,
  ok, or_elim_false, pos, refl, remove, replicate, some, suc, sym, take, text_eq, text_eq_refl,
  text_eq_iff, text_eq→eq, text_ne, to_lower, to_lower_idempotent, to_upper, trim, trim_start, true,
  upper_unit, zero, ℕ, ℤ, ◌%◌, ◌&&◌, ◌*◌, ◌++◌, ◌+◌, ◌-◌, ◌/◌, ◌<◌, ◌==◌, ◌>>=◌, ◌>>◌, ◌^◌, ◌||◌,
  ◌↔◌, ◌∙◌, ◌∷◌, ◌≡◌, ◌≢◌, ◌≤◌, ◌⊎◌,
}
use reapp_protocol.Payment.{
  PaymentRequirement, VerifiedPayment, FailureKind, invalid, unavailable, Reason, hash_not_hex,
  wrong_passphrase, identity_read_failed, transaction_read_failed, not_found, unsafe_ledgers,
  ledger_ahead, outside_freshness_window, transaction_is, no_events, several_payments, no_payment,
  paid_below, mandate_read_failed, merchant_differs, asset_differs, several_transfers, no_transfer,
  VerificationResult, verified, refused, Reply, answer, unsupported, threw, supported,
}
use reapp_protocol.Events.{
  DecodedValue, decoded, NativeValue, text, bytes, bigint, vec, other, DecodedValues, nil, cons,
  DecodedEvent, PaymentCheck, Payload, PaymentSelection, chosen, none_chosen, is_text, exact_value,
  emitted_by, payload_of_pair, payload_of_values, payment_payload, payment_topics, registry_payment,
  Found, larger, add_payload, collect, conclude, nothing_found, select_payment, TransferCheck,
  is_amount, transfer_topics, is_transfer, count_transfers, select_transfer,
}
use reapp_protocol.Amounts.{format_stroops}

pub record LoadedTransaction : Type 0 where
  pub status : Text
  pub ledger : Option ℕ
  pub latest_ledger : Option ℕ
  pub events : List DecodedEvent

pub record LoadedMandate : Type 0 where
  pub user : Text
  pub agent : Text
  pub merchant : Text
  pub asset : Text

-- What the verifier asks of the network. A read of the transaction is made again at every attempt,
-- so its answer depends on the attempt's number.
pub record Chain : Type 0 where
  pub load_network_passphrase : Option Text
  pub load_transaction : Text → ℕ → Option LoadedTransaction
  pub load_mandate : List ℕ → Option LoadedMandate

pub record VerifierConfig : Type 0 where
  pub network_passphrase : Text
  pub poll_attempts : ℕ
  pub max_proof_age_ledgers : ℕ

abbrev pub Refusal : Type 0
Refusal = FailureKind × Reason

abbrev pub Checked : Type 0 → Type 0
Checked A = Result Refusal A

-- `Buffer.toString("hex")`
abbrev pub hex_digit : ℕ → ℕ
hex_digit d = if ltb d 10 then 48 + d else 87 + d

unfoldable pub to_hex : List ℕ → Text
to_hex [] = []
to_hex (b ∷ bs) = hex_digit (b / 16) ∷ hex_digit (b % 16) ∷ to_hex bs

-- The error of a failed read, thrown out of an RPC call.
abbrev pub read : {A : Type 0} → Option A → Reason → Checked A
read none reason = err (unavailable, reason)
read (some a) reason = ok a

abbrev pub is_not_found : LoadedTransaction → Bool
is_not_found t = text_eq t.status (lit "NOT_FOUND")

-- The loop over the attempts, with the number of the attempt and those left after it. A read that
-- throws ends it.
unfoldable pub poll : (ℕ → Option LoadedTransaction) → ℕ → ℕ → Option LoadedTransaction
poll load attempt zero = load attempt
poll load attempt (suc left) = elim (load attempt) [
  | none ↦ none
  | some t ↦ elim (is_not_found t) [ true ↦ poll load (attempt + 1) left | false ↦ some t ]
]

-- `Number.isSafeInteger` of a ledger number that may be absent.
abbrev pub safe_ledger : Option ℕ → Checked ℕ
safe_ledger none = err (unavailable, unsafe_ledgers)
safe_ledger (some n) = if leb n max_safe_integer then ok n else err (unavailable, unsafe_ledgers)

-- The checks of a transaction's status and freshness; gives its ledger.
unfoldable pub fresh_ledger : VerifierConfig → LoadedTransaction → Checked ℕ
fresh_ledger config t = do
  guard (not (is_not_found t)) (unavailable, not_found)
  guard (text_eq t.status (lit "SUCCESS")) (invalid, transaction_is t.status)
  ledger ← safe_ledger t.ledger
  latest ← safe_ledger t.latest_ledger
  guard (leb ledger latest) (unavailable, ledger_ahead)
  guard (leb (latest - ledger) config.max_proof_age_ledgers) (invalid, outside_freshness_window)
  ok ledger

abbrev pub selected : PaymentSelection → Checked Payload
selected (chosen p) = ok p
selected (none_chosen reason) = err (invalid, reason)

abbrev pub transferred : Option Reason → Checked (Unit {0})
transferred none = ok tt
transferred (some reason) = err (invalid, reason)

abbrev pub payment_check : PaymentRequirement → PaymentCheck
payment_check requirement = record {
  merchant = requirement.merchant;
  registry_id = requirement.registry_id;
  price_stroops = requirement.amount_stroops;
}

abbrev pub transfer_check : LoadedMandate → Payload → TransferCheck
transfer_check mandate p = record {
  asset = mandate.asset;
  user = mandate.user;
  merchant = mandate.merchant;
  amount = p.amount;
}

-- The evidence that is returned.
unfoldable pub evidence : Text → ℕ → PaymentRequirement → LoadedMandate → Payload → VerifiedPayment
evidence tx_hash ledger requirement mandate p = record {
  tx_hash = tx_hash;
  ledger = ledger;
  mandate_id = to_hex p.mandate_id;
  user = mandate.user;
  agent = mandate.agent;
  amount = format_stroops p.amount requirement.decimals;
  amount_stroops = p.amount;
  merchant = mandate.merchant;
  asset = mandate.asset;
  registry_id = requirement.registry_id;
  scheme = requirement.scheme;
  network = requirement.network;
}

-- The checks of the events and of the mandate that they name.
unfoldable pub check_events :
    Chain → PaymentRequirement → List DecodedEvent → Checked (Payload × LoadedMandate)
check_events chain requirement events = do
  p ← selected (select_payment events (payment_check requirement))
  mandate ← read (chain.load_mandate p.mandate_id) mandate_read_failed
  guard (text_eq mandate.merchant requirement.merchant) (invalid, merchant_differs)
  guard (text_eq mandate.asset requirement.asset) (invalid, asset_differs)
  transferred (select_transfer events (transfer_check mandate p))
  ok (p, mandate)

unfoldable pub verify_steps :
    VerifierConfig → Chain → Text → PaymentRequirement → Checked VerifiedPayment
unfolding fresh_ledger check_events evidence poll
verify_steps config chain tx_hash requirement = do
  let hash = to_lower tx_hash
  guard (is_hex64 hash) (invalid, hash_not_hex)
  passphrase ← read chain.load_network_passphrase identity_read_failed
  guard (text_eq passphrase config.network_passphrase) (unavailable, wrong_passphrase)
  t ← read (poll (chain.load_transaction hash) 0 config.poll_attempts) transaction_read_failed
  ledger ← fresh_ledger config t
  found ← check_events chain requirement t.events
  ok (evidence hash ledger requirement found.1 found.0)

abbrev pub result_of : Checked VerifiedPayment → VerificationResult
result_of (ok payment) = verified payment
result_of (err (kind, reason)) = refused kind reason

unfoldable pub verify : VerifierConfig → Chain → Text → PaymentRequirement → VerificationResult
unfolding verify_steps
verify config chain tx_hash requirement = result_of (verify_steps config chain tx_hash requirement)
