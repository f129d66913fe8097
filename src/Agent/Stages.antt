-- ===== src/Agent/Stages.antt =====
-- What each stage of the agent's `pay` comes to (packages/sdk/src/index.ts).
use reapp_protocol.Common.{
  Bool, Bool-cases, List, Option, Option-cases, Result-cases, Text, false, has, inl, inr, none, not,
  refl, some, ℕ, ◌||◌, ◌∙◌, ◌≡◌, ◌⊎◌,
}
use reapp_protocol.Json.{Platform}
use reapp_protocol.Agent.{
  SettlementReceipt, PendingSettlement, Agent, State, claim_payment_operation, first_receipt,
  is_recovery_evidence, adopt_listed, is_some, hydrate_pending_receipt,
}
use reapp_protocol.PaymentSequence.{resolve_expected_payment_sequence}
use reapp_protocol.Amounts.{to_stroops}
use reapp_protocol.Agent.Pay.{
  Signed, SendResult, rejected, accepted, Call, PayResult, paid, payment_rejected, Paid,
  is_finalized, with_receipt, after_submitted, agrees, after_send, result_of_sent, submit, prepared,
  canonical_hash, sign_step, prepare, pay_claimed, pay,
}

module _ (platform : Platform) (agent : Agent) where
  -- A payment that is broadcast and not known to be final is kept as the agent's pending one, and
  -- its operation stays claimed.
  pub record Retained (s : State) : Type 0 where
    pub settlement : PendingSettlement
    pub kept : s.pending ≡ some settlement
    pub claimed : (key : Text) × (s.payment_claim_key ≡ some key)

  -- What a broadcast can come to: a final result, or a payment that is retained.
  pub data Broadcast (hold : Bool) (r : PayResult) (s : State) : Type 0 where
    settled : (tx_hash : Text) → r ≡ paid tx_hash → hold ≡ false → Broadcast hold r s
    refused_on_chain : r ≡ payment_rejected → Broadcast hold r s
    unresolved : Retained s → Broadcast hold r s

  after_send-Broadcast :
      (hold : Bool) (p : PendingSettlement) (sent : Option SendResult) (s : State) (key : Text)
      → s.pending ≡ some p
      → s.payment_claim_key ≡ some key
      → Broadcast hold
          (after_send platform agent hold p sent s).0.result
          (after_send platform agent hold p sent s).1
  unfolding after_send
  after_send-Broadcast hold p none s key h c =
      unresolved (record { settlement = p; kept = h; claimed = (key, c) })
  after_send-Broadcast hold p (some (rejected code)) s key h c =
      elim (Bool-cases (is_finalized code)) [
        | inl final ↦ rw final (refused_on_chain refl)
        | inr open_yet ↦
            rw open_yet (unresolved (record { settlement = p; kept = h; claimed = (key, c) }))
      ]
  after_send-Broadcast hold p (some (accepted hash)) s key h c =
      elim (Bool-cases (agrees platform agent p.tx_hash hash)) [
        | inr other ↦
            rw other (unresolved (record { settlement = p; kept = h; claimed = (key, c) }))
        | inl same ↦ elim (Bool-cases hold) [
          | inl held ↦
              rw same
                (rw held (unresolved (record { settlement = p; kept = h; claimed = (key, c) })))
          | inr free ↦ rw same (rw free (settled p.tx_hash refl refl))
        ]
      ]

  -- What every stage of `pay` comes to: nothing is broadcast, or it is as `Broadcast` says.
  abbrev pub Stage : Bool → Paid × State → Type 0
  Stage hold out = (out.0.broadcast ≡ false) ⊎ Broadcast hold out.0.result out.1

  submit-Stage :
      (call : Call) (p : PendingSettlement) (s : State) (key : Text)
      → s.payment_claim_key ≡ some key
      → Stage call.hold_until_delivery (submit platform agent call p s)
  unfolding submit
  submit-Stage call p s key c = elim (Option-cases call.on_prepared) [
    | inl threw ↦ rw (threw, submit) (inl refl)
    | inr (id, e) ↦
        let q = after_submitted p.tx_hash call.sent (with_receipt id p) in
        rw (e, submit)
          (inr (
            after_send-Broadcast call.hold_until_delivery q
              (result_of_sent platform agent p.tx_hash call.sent) (record s { pending = some q })
              key refl c))
  ]

  sign_step-Stage :
      (call : Call) (n : ℕ) (signed : Option Signed) (s : State) (key : Text)
      → s.payment_claim_key ≡ some key
      → Stage call.hold_until_delivery (sign_step platform agent call n signed s)
  sign_step-Stage call n none s key c = inl refl
  sign_step-Stage call n (some signed) s key c =
      elim (Option-cases (canonical_hash platform agent signed)) [
        | inl malformed ↦ rw (malformed, sign_step) (inl refl)
        | inr (hash, e) ↦
            rw (e, sign_step)
              (submit-Stage call (prepared platform agent call n hash signed.max_time) _ key c)
      ]

  prepare-Stage :
      (call : Call) (s : State) (key : Text)
      → s.payment_claim_key ≡ some key
      → Stage call.hold_until_delivery (prepare platform agent call s)
  unfolding prepare
  prepare-Stage call s key c = elim (Option-cases call.current_seq) [
    | inl threw ↦ rw (threw, prepare) (inl refl)
    | inr (current, e) ↦
        elim (Result-cases (resolve_expected_payment_sequence current call.requested)) [
          | inl (_, advanced) ↦ rw (e, prepare) (rw advanced (inl refl))
          | inr (n, bound_to) ↦ elim (Result-cases (to_stroops call.amount agent.decimals)) [
            | inl (_, malformed) ↦ rw (e, prepare) (rw bound_to (rw malformed (inl refl)))
            | inr (_, read) ↦
                rw (e, prepare) (rw bound_to (rw read (sign_step-Stage call n call.signed s key c)))
          ]
        ]
  ]

  pub state_of : (a b : State) → some a ≡ some b → a ≡ b
  state_of a b h = cc

  hydrated_state :
      (r r' : Option SettlementReceipt) (a b : State)
      → Path (Option (Option SettlementReceipt × State)) (some (r, a)) (some (r', b))
      → a ≡ b
  hydrated_state r r' a b h = cc

  listed-claimed :
      (listed : Option (List SettlementReceipt)) (s s' : State) (key : Text)
      (receipt : Option SettlementReceipt)
      → s.payment_claim_key ≡ some key
      → adopt_listed platform agent listed s ≡ some (receipt, s')
      → s'.payment_claim_key ≡ some key
  listed-claimed none s s' key receipt c h = absurd (cc)
  listed-claimed (some rs) s s' key receipt c h = elim (Option-cases (first_receipt agent rs)) [
    | inl e ↦ rw (← hydrated_state none receipt s s' (rw (e, adopt_listed) at h)) c
    | inr (r, e) ↦ elim (Bool-cases (is_recovery_evidence platform agent r)) [
      | inl sound ↦
          let k = rw c at (rw sound at (rw (e, adopt_listed) at h)) in
          rw (← hydrated_state (some r) receipt _ s' k) refl
      | inr unsound ↦
          let k : none ≡ some (receipt, s') = rw unsound at (rw (e, adopt_listed) at h) in
          absurd (cc)
    ]
  ]

  hydrated-claimed :
      (listed : Option (List SettlementReceipt)) (s s' : State) (key : Text)
      (receipt : Option SettlementReceipt)
      → s.payment_claim_key ≡ some key
      → hydrate_pending_receipt platform agent listed s ≡ some (receipt, s')
      → s'.payment_claim_key ≡ some key
  unfolding hydrate_pending_receipt
  hydrated-claimed listed s s' key receipt c h =
      elim (Bool-cases (is_some platform agent s.pending || not agent.has_receipt_store)) [
        | inl skipped ↦
            rw (← hydrated_state none receipt s s' (rw (skipped, hydrate_pending_receipt) at h)) c
        | inr read ↦
            listed-claimed listed s s' key receipt c (rw (read, hydrate_pending_receipt) at h)
      ]

  pub claim_payment_operation-some :
      (s s' : State)
      → claim_payment_operation agent s ≡ some s'
      → (s'.pending ≡ s.pending) × (s'.payment_claim_key ≡ some agent.claim_key)
  unfolding claim_payment_operation
  claim_payment_operation-some s s' h = elim (Option-cases s.payment_claim_key) [
    | inr (key, held) ↦
        let k : none ≡ some s' = rw (held, claim_payment_operation) at h in absurd (cc)
    | inl free ↦ elim (Bool-cases (has agent.claim_key s.claims)) [
      | inl taken ↦
          let k : none ≡ some s' = rw taken at (rw (free, claim_payment_operation) at h) in
          absurd (cc)
      | inr unclaimed ↦
          let e = state_of _ s' (rw unclaimed at (rw (free, claim_payment_operation) at h)) in
          rw (← e) (refl, refl)
    ]
  ]

  pub hydrate-pending :
      (listed : Option (List SettlementReceipt)) (s : State) (p : PendingSettlement)
      → s.pending ≡ some p
      → hydrate_pending_receipt platform agent listed s ≡ some (none, s)
  unfolding hydrate_pending_receipt
  hydrate-pending listed s p h = rw (h, hydrate_pending_receipt) refl

  -- While a payment is pending, `pay` broadcasts nothing and the payment stays pending.
  pub pay-pending :
      (call : Call) (s : State) (p : PendingSettlement)
      → s.pending ≡ some p
      → ((pay platform agent call s).0.broadcast ≡ false)
        × ((pay platform agent call s).1.pending ≡ some p)
  unfolding pay pay_claimed
  pay-pending call s p h = elim (Option-cases (claim_payment_operation agent s)) [
    | inl refused ↦ rw (refused, pay) (refl, h)
    | inr (s', e) ↦
        let (same, _) = claim_payment_operation-some s s' e in
        let kept = same ∙ h in
        rw (e, pay) (rw (hydrate-pending call.listed s' p kept, pay_claimed) (rw kept (refl, kept)))
  ]

  pay_claimed-Stage :
      (call : Call) (s : State) (key : Text)
      → s.payment_claim_key ≡ some key
      → Stage call.hold_until_delivery (pay_claimed platform agent call s)
  unfolding pay_claimed
  pay_claimed-Stage call s key c =
      elim (Option-cases (hydrate_pending_receipt platform agent call.listed s)) [
        | inl threw ↦ rw (threw, pay_claimed) (inl refl)
        | inr ((none, s'), e) ↦ elim (Option-cases s'.pending) [
          | inl idle ↦
              rw (e, pay_claimed)
                (rw idle
                  (prepare-Stage call s' key (hydrated-claimed call.listed s s' key none c e)))
          | inr (p, held) ↦ rw (e, pay_claimed) (rw held (inl refl))
        ]
        | inr ((some r, s'), e) ↦ rw (e, pay_claimed) (inl refl)
      ]

  -- Whatever `pay` is given, it broadcasts nothing, or comes to a final result, or keeps the payment
  -- that it broadcast as pending with its operation claimed.
  pub pay-Stage :
      (call : Call) (s : State) → Stage call.hold_until_delivery (pay platform agent call s)
  unfolding pay
  pay-Stage call s = elim (Option-cases (claim_payment_operation agent s)) [
    | inl refused ↦ rw (refused, pay) (inl refl)
    | inr (s', e) ↦
        rw (e, pay)
          (pay_claimed-Stage call s' agent.claim_key (claim_payment_operation-some s s' e).1)
  ]
