-- ===== src/Verifier/Soundness.antt =====
-- What a verified payment rests on (packages/express-middleware/src/verification.ts).
use reapp_protocol.Common.{
  >>=-eq-ok, Bool, Bool-cases, List, Option, Option-cases, Text, ap, arith, err, false, guard, inl,
  inr, is_hex64, leb, leb→le, lit, max_safe_integer, none, not, ok, refl, some, suc, text_eq,
  text_eq→eq, to_lower, true, zero, ℕ, ◌+◌, ◌-◌, ◌∙◌, ◌≡◌, ◌≤◌,
}
use reapp_protocol.Payment.{
  PaymentRequirement, VerifiedPayment, invalid, unavailable, Reason, hash_not_hex, wrong_passphrase,
  transaction_read_failed, not_found, ledger_ahead, outside_freshness_window, verified,
}
use reapp_protocol.Events.{DecodedEvent, Payload, PaymentSelection, chosen, none_chosen}
use reapp_protocol.Events.Selection.{OnePays, select_payment_iff}
use reapp_protocol.Events.Transfers.{OneTransfer, select_transfer_iff}
use reapp_protocol.Verifier.{
  LoadedTransaction, LoadedMandate, Chain, VerifierConfig, Checked, read, is_not_found, poll,
  safe_ledger, fresh_ledger, selected, transferred, payment_check, transfer_check, evidence,
  check_events, verify_steps, result_of, verify,
}

-- The transaction counts: it succeeded, its ledger numbers are safe, and it is recent enough.
pub record IsFresh (config : VerifierConfig) (t : LoadedTransaction) (ledger : ℕ) : Type 0 where
  pub succeeded : t.status ≡ lit "SUCCESS"
  pub ledger_known : t.ledger ≡ some ledger
  pub latest : ℕ
  pub latest_known : t.latest_ledger ≡ some latest
  pub safe : latest ≤ max_safe_integer
  pub not_ahead : ledger ≤ latest
  pub young : latest ≤ ledger + config.max_proof_age_ledgers

-- The events hold one payment that covers the price and one transfer of exactly its amount, from
-- the mandate's user to the merchant, in the configured asset.
pub record IsCovered (chain : Chain) (requirement : PaymentRequirement) (events : List DecodedEvent)
    (p : Payload) (mandate : LoadedMandate) : Type 0 where
  pub pays : OnePays (payment_check requirement) events p
  pub mandate_read : chain.load_mandate p.mandate_id ≡ some mandate
  pub same_merchant : mandate.merchant ≡ requirement.merchant
  pub same_asset : mandate.asset ≡ requirement.asset
  pub moved : OneTransfer (transfer_check mandate p) events

guard-ok : {E : Type 0} (b : Bool) (e : E) {u : Unit {0}} → guard b e ≡ ok u → b ≡ true
guard-ok true e h = refl
guard-ok false e h = cc

read-ok : {A : Type 0} (o : Option A) (r : Reason) {a : A} → read o r ≡ ok a → o ≡ some a
read-ok none r h = cc
read-ok (some a) r h = cc

safe_ledger-ok :
    (o : Option ℕ) (n : ℕ) → safe_ledger o ≡ ok n → (o ≡ some n) × (n ≤ max_safe_integer)
safe_ledger-ok none n h = (cc, absurd (cc))
safe_ledger-ok (some m) n h = (ground arith, ground arith)

pub fresh_ledger-IsFresh :
    (config : VerifierConfig) (t : LoadedTransaction) (ledger : ℕ)
    → fresh_ledger config t ≡ ok ledger
    → IsFresh config t ledger
unfolding fresh_ledger
fresh_ledger-IsFresh config t ledger h =
    let (_, _, h1) =
      >>=-eq-ok {A = Unit {0}} (guard (not (is_not_found t)) (unavailable, not_found)) _ h in
    let (_, success, h2) = >>=-eq-ok _ _ h1 in
    let (n, known, h3) = >>=-eq-ok _ _ h2 in
    let (latest, latest_known, h4) = >>=-eq-ok _ _ h3 in
    let (_, ahead, h5) = >>=-eq-ok _ _ h4 in
    let (_, young, same) = >>=-eq-ok _ _ h5 in
    let n_eq : n ≡ ledger = cc in
    let (known', _) = safe_ledger-ok t.ledger n known in
    let (latest', safe) = safe_ledger-ok t.latest_ledger latest latest_known in
    let below = leb→le n latest (guard-ok (leb n latest) (unavailable, ledger_ahead) ahead) in
    let age = leb→le (latest - n) config.max_proof_age_ledgers (
      guard-ok (leb (latest - n) config.max_proof_age_ledgers) (invalid, outside_freshness_window)
        young) in
    record {
      succeeded = text_eq→eq _ _ (guard-ok _ _ success);
      ledger_known = known' ∙ ap (λ (x : ℕ). some x) n_eq;
      latest = latest;
      latest_known = latest';
      safe = safe;
      not_ahead = omega arith;
      young = omega arith;
    }

selected-ok : (s : PaymentSelection) (p : Payload) → selected s ≡ ok p → s ≡ chosen p
selected-ok (chosen q) p h = cc
selected-ok (none_chosen r) p h = cc

transferred-ok : (o : Option Reason) {u : Unit {0}} → transferred o ≡ ok u → o ≡ none
transferred-ok none h = refl
transferred-ok (some r) h = cc

pub check_events-IsCovered :
    (chain : Chain) (requirement : PaymentRequirement) (events : List DecodedEvent) (p : Payload)
    (mandate : LoadedMandate)
    → check_events chain requirement events ≡ ok (p, mandate)
    → IsCovered chain requirement events p mandate
unfolding check_events
check_events-IsCovered chain requirement events p mandate h =
    let (q, paid, h1) = >>=-eq-ok _ _ h in
    let (m, stored, h2) = >>=-eq-ok _ _ h1 in
    let (_, merchant, h3) = >>=-eq-ok _ _ h2 in
    let (_, asset, h4) = >>=-eq-ok _ _ h3 in
    let (_, moved, same) = >>=-eq-ok _ _ h4 in
    let q_eq : q ≡ p = cc in
    let m_eq : m ≡ mandate = cc in
    record {
      pays = rw (← q_eq) ((select_payment_iff _ events q).0 (selected-ok _ q paid));
      mandate_read = rw (← q_eq, ← m_eq) (read-ok _ _ stored);
      same_merchant = rw (← m_eq) (text_eq→eq _ _ (guard-ok _ _ merchant));
      same_asset = rw (← m_eq) (text_eq→eq _ _ (guard-ok _ _ asset));
      moved = rw (← q_eq, ← m_eq) ((select_transfer_iff _ events).0 (transferred-ok _ moved));
    }

-- An attempt at reading the transaction gave `t`.
abbrev pub WasRead : (ℕ → Option LoadedTransaction) → ℕ → LoadedTransaction → Type 0
WasRead load last t = (attempt : ℕ) × (attempt ≤ last) × (load attempt ≡ some t)

poll-WasRead :
    (load : ℕ → Option LoadedTransaction) (attempt left last : ℕ) (t : LoadedTransaction)
    → attempt + left ≤ last
    → poll load attempt left ≡ some t
    → WasRead load last t
unfolding poll
poll-WasRead load attempt zero last t b h = (attempt, omega arith, h)
poll-WasRead load attempt (suc left) last t b h = elim (Option-cases (load attempt)) [
  | inl failed ↦ absurd (ground arith)
  | inr (u, loaded) ↦ elim (Bool-cases (is_not_found u)) [
    | inl again ↦ poll-WasRead load (attempt + 1) left last t (omega arith) (ground arith)
    | inr stop ↦ (attempt, omega arith, ground arith)
  ]
]

result_of-verified :
    (r : Checked VerifiedPayment) (p : VerifiedPayment) → result_of r ≡ verified p → r ≡ ok p
result_of-verified (ok q) p h = cc
result_of-verified (err (k, r)) p h = cc

-- What a verified payment rests on, and what it says.
pub record IsSettled (config : VerifierConfig) (chain : Chain) (tx_hash : Text)
    (requirement : PaymentRequirement) (payment : VerifiedPayment) : Type 0 where
  pub hash_is_hex : is_hex64 (to_lower tx_hash) ≡ true
  pub same_network : chain.load_network_passphrase ≡ some config.network_passphrase
  pub transaction : LoadedTransaction
  pub was_read :
      WasRead (chain.load_transaction (to_lower tx_hash)) config.poll_attempts transaction
  pub ledger : ℕ
  pub fresh : IsFresh config transaction ledger
  pub payload : Payload
  pub mandate : LoadedMandate
  pub covered : IsCovered chain requirement transaction.events payload mandate
  pub evidence_of : payment ≡ evidence (to_lower tx_hash) ledger requirement mandate payload

-- A payment is verified only where the RPC answers for the configured network, some read of the
-- transaction shows it successful and fresh, exactly one of its events pays the price to this
-- merchant, and exactly one transfers that amount; the evidence repeats what was read.
pub verify-IsSettled :
    (config : VerifierConfig) (chain : Chain) (tx_hash : Text) (requirement : PaymentRequirement)
    (payment : VerifiedPayment)
    → verify config chain tx_hash requirement ≡ verified payment
    → IsSettled config chain tx_hash requirement payment
unfolding verify verify_steps
verify-IsSettled config chain tx_hash requirement payment h =
    let steps = result_of-verified (verify_steps config chain tx_hash requirement) payment h in
    let (_, hex, h1) =
      >>=-eq-ok {A = Unit {0}} (guard (is_hex64 (to_lower tx_hash)) (invalid, hash_not_hex)) _
        steps in
    let (passphrase, answered, h2) = >>=-eq-ok _ _ h1 in
    let (_, network, h3) = >>=-eq-ok _ _ h2 in
    let (t, loaded, h4) =
      >>=-eq-ok
        (read (poll (chain.load_transaction (to_lower tx_hash)) 0 config.poll_attempts)
          transaction_read_failed)
        _ h3 in
    let (ledger, fresh, h5) = >>=-eq-ok (fresh_ledger config t) _ h4 in
    let (found, covered, same) = >>=-eq-ok (check_events chain requirement t.events) _ h5 in
    let passphrase_eq = text_eq→eq passphrase config.network_passphrase (
      guard-ok (text_eq passphrase config.network_passphrase) (unavailable, wrong_passphrase)
        network) in
    record {
      hash_is_hex = guard-ok _ _ hex;
      same_network = rw (← passphrase_eq) (read-ok _ _ answered);
      transaction = t;
      was_read =
          poll-WasRead (chain.load_transaction (to_lower tx_hash)) 0 config.poll_attempts
            config.poll_attempts t (omega arith) (read-ok _ _ loaded);
      ledger = ledger;
      fresh = fresh_ledger-IsFresh config t ledger fresh;
      payload = found.0;
      mandate = found.1;
      covered = check_events-IsCovered chain requirement t.events found.0 found.1 covered;
      evidence_of = cc;
    }
