-- ===== src/Agent/Reconcile.antt =====
-- How the SDK's agent resolves a payment: `reconcilePendingSettlement` and `acknowledgeDelivery` of
-- packages/sdk/src/index.ts.
use reapp_protocol.Common.{
  Bool, List, Option, Text, [], err, false, if◌then◌else◌, is_digits, is_hex64, leb, lit, ltb,
  natural, none, not, ok, some, text_eq, true, ℕ, ◌&&◌, ◌||◌,
}
use reapp_protocol.Json.{Platform}
use reapp_protocol.Amounts.{to_stroops}
use reapp_protocol.Agent.{
  SettlementReceipt, PendingSettlement, Agent, State, proof_mandate_id, is_window,
  release_payment_operation, claim_unless_held, is_recovery_evidence, hydrate_pending_receipt,
}

-- The status of a transaction, with the close times that bound the RPC's history.
pub data Status : Type 0 where
  not_found : ℕ → ℕ → Status
  failed succeeded unknown_status : Status

pub data Reconciliation : Type 0 where
  nothing : Reconciliation
  pending failed expired : PendingSettlement → Reconciliation
  succeeded : PendingSettlement → Bool → Reconciliation

-- `Boolean(receiptId)`
abbrev pub has_receipt : Option Text → Bool
has_receipt none = false
has_receipt (some id) = not (text_eq id [])

abbrev is_receipt_id : Option Text → Bool
is_receipt_id none = true
is_receipt_id (some id) = is_hex64 id

abbrev is_positive_amount : Text → ℕ → Bool
is_positive_amount amount decimals = elim (to_stroops amount decimals) [
  | err _ ↦ false
  | ok n ↦ ltb 0 n
]

abbrev is_locked_on_other : Option PendingSettlement → Text → Bool
is_locked_on_other none tx_hash = false
is_locked_on_other (some p) tx_hash = not (text_eq p.tx_hash tx_hash)

-- No result can come any more: the envelope has expired, and the history covers its lifetime. The
-- times are safe integers here.
abbrev pub is_expired : PendingSettlement → ℕ → ℕ → Bool
is_expired p latest_close oldest_close =
    ltb 0 (natural p.submitted_at)
    && ltb 0 (natural p.valid_until)
    && ltb (natural p.valid_until) latest_close
    && leb oldest_close (natural p.submitted_at)

module _ (platform : Platform) (agent : Agent) where
  unfoldable pub is_restorable : PendingSettlement → Bool
  is_restorable p =
      text_eq p.mandate_id agent.mandate_id
      && is_hex64 p.tx_hash
      && (text_eq p.expected_seq (lit "unknown") || is_digits p.expected_seq)
      && is_window p.submitted_at p.valid_until
      && is_receipt_id p.receipt_id

  -- The journal record, put in place of the agent's own.
  unfoldable pub restore : Option PendingSettlement → State → Option State
  unfolding is_restorable
  restore none s = some s
  restore (some p) s =
      if is_restorable p
        && is_positive_amount p.amount agent.decimals
        && not (is_locked_on_other s.pending p.tx_hash)
      then some (record s { pending = some p })
      else none

  -- The end of a settlement whose outcome is final. `cleared`: `clearPending` does not throw.
  unfoldable pub conclude :
      PendingSettlement → Reconciliation → Bool → State → Option Reconciliation × State
  conclude p kind cleared s =
      if has_receipt p.receipt_id && agent.has_receipt_store && not cleared
      then (none, record s { pending = none })
      else (some kind, release_payment_operation agent (record s { pending = none }))

  -- From the status of the transaction on; `none` where the RPC throws.
  unfoldable pub after_status :
      PendingSettlement → Option Status → Bool → State → Option Reconciliation × State
  unfolding conclude
  after_status p none cleared s = (none, s)
  after_status p (some (not_found latest_close oldest_close)) cleared s =
      if is_expired p latest_close oldest_close
      then conclude p (expired p) cleared s
      else (some (pending p), s)
  after_status p (some Status.failed) cleared s = conclude p (Reconciliation.failed p) cleared s
  after_status p (some Status.succeeded) cleared s =
      if has_receipt p.receipt_id then (some (Reconciliation.succeeded p true), s) else (
        some (Reconciliation.succeeded p false),
        release_payment_operation agent (record s { pending = none }),
      )
  after_status p (some unknown_status) cleared s = (some (pending p), s)

  abbrev release_if_idle : State → State
  release_if_idle s = elim s.pending [ none ↦ release_payment_operation agent s | some _ ↦ s ]

  abbrev after_hydration : Option Status → Bool → State → Option Reconciliation × State
  after_hydration status cleared s = elim s.pending [
    | none ↦ (some nothing, release_payment_operation agent s)
    | some p ↦ after_status p status cleared s
  ]

  -- From the claim on.
  unfoldable pub reconcile_claimed :
      Option (List SettlementReceipt) → Option Status → Bool → State → Option Reconciliation × State
  unfolding after_status
  reconcile_claimed listed status cleared s =
      elim (hydrate_pending_receipt platform agent listed s) [
        | none ↦ (none, release_if_idle s)
        | some (_, s') ↦ after_hydration status cleared s'
      ]

  unfoldable pub reconcile_pending_settlement :
      Option PendingSettlement
      → Option (List SettlementReceipt)
      → Option Status
      → Bool
      → State
      → Option Reconciliation × State
  unfolding restore reconcile_claimed
  reconcile_pending_settlement restored listed status cleared s = elim (restore restored s) [
    | none ↦ (none, s)
    | some s' ↦ elim (claim_unless_held agent s') [
      | none ↦ (none, s')
      | some s'' ↦ reconcile_claimed listed status cleared s''
    ]
  ]

  unfoldable pub is_acknowledgeable : SettlementReceipt → Bool
  is_acknowledgeable r =
      text_eq r.mandate_id agent.mandate_id
      && text_eq (proof_mandate_id r.proof) agent.mandate_id
      && is_recovery_evidence platform agent r

  abbrev forget : Text → State → State
  forget tx_hash s = elim s.pending [
    | none ↦ s
    | some p ↦ if text_eq p.tx_hash tx_hash then record s { pending = none } else s
  ]

  -- Whether it returns, and the state.
  unfoldable pub acknowledge_delivery : SettlementReceipt → Bool → State → Bool × State
  unfolding is_acknowledgeable
  acknowledge_delivery r cleared s =
      if agent.has_receipt_store && is_acknowledgeable r && cleared
      then (true, release_payment_operation agent (forget r.tx_hash s))
      else (false, s)
