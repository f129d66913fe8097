-- ===== src/Agent/Resolution.antt =====
-- When the agent gives a pending payment up (packages/sdk/src/index.ts,
-- `reconcilePendingSettlement`).
use reapp_protocol.Common.{
  and4_elim, ltb→lt, leb→le, ◌∷◌, [], natural, ◌<◌, ◌≤◌, Bool, Bool-cases, List, Option,
  Option-cases, false, inl, inr, none, refl, some, true, ℕ, ◌∙◌, ◌≡◌, ◌⊎◌,
}
use reapp_protocol.Json.{Platform}
use reapp_protocol.Agent.{SettlementReceipt, PendingSettlement, Agent, State, claim_unless_held}
use reapp_protocol.Agent.Reconcile.{
  Status, not_found, unknown_status, has_receipt, is_expired, after_status, reconcile_claimed,
  reconcile_pending_settlement, restore,
}
use reapp_protocol.Agent.Stages.{hydrate-pending, claim_payment_operation-some, state_of}

-- A payment of which the chain has no record can come to nothing any more: its envelope expired
-- before the latest ledger closed, and the history goes back to when it was submitted.
pub record IsOver (p : PendingSettlement) (latest_close oldest_close : ℕ) : Type 0 where
  pub submitted : 0 < natural p.submitted_at
  pub bounded : 0 < natural p.valid_until
  pub passed : natural p.valid_until < latest_close
  pub covered : oldest_close ≤ natural p.submitted_at

-- The chain's word on a payment is final: it cannot be included any more, it has failed, or it has
-- succeeded and no delivery waits for it.
pub data IsFinal (p : PendingSettlement) (status : Option Status) : Type 0 where
  expired :
      (latest_close oldest_close : ℕ)
      → status ≡ some (not_found latest_close oldest_close)
      → IsOver p latest_close oldest_close
      → IsFinal p status
  failed : status ≡ some Status.failed → IsFinal p status
  succeeded : status ≡ some Status.succeeded → has_receipt p.receipt_id ≡ false → IsFinal p status

is_expired-IsOver :
    (p : PendingSettlement) (latest_close oldest_close : ℕ)
    → is_expired p latest_close oldest_close ≡ true
    → IsOver p latest_close oldest_close
is_expired-IsOver p latest_close oldest_close h =
    let (submitted, bounded, passed, covered) = and4_elim _ _ _ _ h in
    record {
      submitted = ltb→lt _ _ submitted;
      bounded = ltb→lt _ _ bounded;
      passed = ltb→lt _ _ passed;
      covered = leb→le _ _ covered;
    }

-- What the outside gives a reconciliation: the receipts that are listed, the chain's word, and
-- whether the journal is cleared.
pub record Attempt : Type 0 where
  pub listed : Option (List SettlementReceipt)
  pub status : Option Status
  pub cleared : Bool

-- One of the reconciliations heard a final word.
pub data HeardFinal (p : PendingSettlement) : List Attempt → Type 0 where
  now : (a : Attempt) (as' : List Attempt) → IsFinal p a.status → HeardFinal p (a ∷ as')
  later : (a : Attempt) (as' : List Attempt) → HeardFinal p as' → HeardFinal p (a ∷ as')

module _ (platform : Platform) (agent : Agent) where
  after_status-pending :
      (p : PendingSettlement) (status : Option Status) (cleared : Bool) (s : State)
      → s.pending ≡ some p
      → ((after_status platform agent p status cleared s).1.pending ≡ some p) ⊎ IsFinal p status
  unfolding after_status
  after_status-pending p none cleared s h = inl h
  after_status-pending p (some (not_found l o)) cleared s h = elim (Bool-cases (is_expired p l o)) [
    | inl late ↦ inr (expired l o refl (is_expired-IsOver p l o late))
    | inr early ↦ rw early (inl h)
  ]
  after_status-pending p (some Status.failed) cleared s h = inr (failed refl)
  after_status-pending p (some Status.succeeded) cleared s h =
      elim (Bool-cases (has_receipt p.receipt_id)) [
        | inl waits ↦ rw waits (inl h)
        | inr free ↦ inr (succeeded refl free)
      ]
  after_status-pending p (some unknown_status) cleared s h = inl h

  reconcile_claimed-pending :
      (listed : Option (List SettlementReceipt)) (p : PendingSettlement) (status : Option Status)
      (cleared : Bool) (s : State)
      → s.pending ≡ some p
      → ((reconcile_claimed platform agent listed status cleared s).1.pending ≡ some p)
        ⊎ IsFinal p status
  unfolding reconcile_claimed
  reconcile_claimed-pending listed p status cleared s h =
      elim (after_status-pending p status cleared (record s { pending = some p }) refl) [
        | inl kept ↦
            inl (rw (hydrate-pending platform agent listed s p h, reconcile_claimed) (rw h kept))
        | inr final ↦ inr final
      ]

  claim_unless_held-pending :
      (s s' : State) → claim_unless_held agent s ≡ some s' → s'.pending ≡ s.pending
  claim_unless_held-pending s s' h = elim (Option-cases s.payment_claim_key) [
    | inl free ↦
        (claim_payment_operation-some platform agent s s' (rw (free, claim_unless_held) at h)).0
    | inr (key, held) ↦ rw (← state_of platform agent _ s' (rw (held, claim_unless_held) at h)) refl
  ]

  reconcile-pending :
      (listed : Option (List SettlementReceipt)) (p : PendingSettlement) (status : Option Status)
      (cleared : Bool) (s : State)
      → s.pending ≡ some p
      → ((reconcile_pending_settlement platform agent none listed status cleared s).1.pending
          ≡ some p)
        ⊎ IsFinal p status
  unfolding reconcile_pending_settlement restore
  reconcile-pending listed p status cleared s h = elim (Option-cases (claim_unless_held agent s)) [
    | inl busy ↦ inl (rw (busy, reconcile_pending_settlement) h)
    | inr (s', e) ↦
        elim (reconcile_claimed-pending listed p status cleared s'
          (claim_unless_held-pending s s' e ∙ h)) [
            | inl kept ↦ inl (rw (e, reconcile_pending_settlement) kept)
            | inr final ↦ inr final
          ]
  ]

  -- Reconciliations one after another, each given no journal record.
  unfoldable pub reconcile_all : List Attempt → State → State
  unfolding reconcile_pending_settlement
  reconcile_all [] s = s
  reconcile_all (a ∷ as') s =
      reconcile_all as'
        (reconcile_pending_settlement platform agent none a.listed a.status a.cleared s).1

  -- However many reconciliations there are, each given no journal record, the pending payment is kept
  -- until one of them hears from the chain that the payment has failed, that it has succeeded where
  -- no delivery waits for it, or that it is not found after its envelope expired, by a history that
  -- goes back to when it was submitted; whatever the receipt store and the RPC do.
  pub reconcile_all-pending :
      (attempts : List Attempt) (p : PendingSettlement) (s : State)
      → s.pending ≡ some p
      → ((reconcile_all attempts s).pending ≡ some p) ⊎ HeardFinal p attempts
  unfolding reconcile_all
  reconcile_all-pending [] p s h = inl h
  reconcile_all-pending (a ∷ as') p s h =
      elim (reconcile-pending a.listed p a.status a.cleared s h) [
        | inl kept ↦ elim (reconcile_all-pending as' p _ kept) [
          | inl still ↦ inl still
          | inr heard ↦ inr (later a as' heard)
        ]
        | inr final ↦ inr (now a as' final)
      ]
