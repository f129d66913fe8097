-- ===== src/Agent/Pay.antt =====
-- How the SDK's agent pays: `pay` of packages/sdk/src/index.ts.
use reapp_protocol.Common.{
  Bool, List, Number, Option, Text, [], all, err, false, if◌then◌else◌, int, is_hex64,
  is_positive_safe, none, not, ok, pos, some, text_eq, to_lower, true, ℕ, ◌&&◌, ◌==◌, ◌||◌, ◌∷◌,
}
use reapp_protocol.Json.{Platform}
use reapp_protocol.Amounts.{to_stroops}
use reapp_protocol.PaymentSequence.{Requested, resolve_expected_payment_sequence}
use reapp_protocol.Amounts.{show}
use reapp_protocol.Agent.{
  SettlementReceipt, PendingSettlement, Agent, State, claim_payment_operation,
  release_payment_operation, hydrate_pending_receipt,
}

-- The signed envelope's hash in hex and the end of its time bounds, absent where there is no hash.
pub record Signed : Type 0 where
  pub hash : Option Text
  pub max_time : Number

pub data SendResult : Type 0 where
  -- `result.unwrap()` throws, with the code that its message names.
  rejected : Option ℕ → SendResult
  -- the hash of the RPC's response
  accepted : Option Text → SendResult

-- What `at.send` comes to. `reported` is the hash that `onSubmitted` was called with, if it was,
-- with the receipt id that the caller's `onSubmitted` gave.
pub record Sent : Type 0 where
  pub reported : Option (Text × Option Text)
  pub result : Option SendResult

-- One call of `pay` with what the outside gives it, in order; `none` where it throws.
pub record Call : Type 0 where
  pub amount : Text
  pub hold_until_delivery : Bool
  pub requested : Option Requested
  pub listed : Option (List SettlementReceipt)
  pub current_seq : Option Number
  pub signed : Option Signed
  pub now : ℕ
  pub on_prepared : Option (Option Text)
  pub sent : Sent

pub data PayResult : Type 0 where
  paid : Text → PayResult
  delivery_pending : SettlementReceipt → PayResult
  settlement_uncertain : PendingSettlement → PayResult
  payment_rejected failed : PayResult

-- The outcome of `pay`, and whether it came to `at.send`.
pub record Paid : Type 0 where
  pub result : PayResult
  pub broadcast : Bool

abbrev pub finalized_codes : List ℕ
finalized_codes =
    1 ∷ 2 ∷ 4 ∷ 5 ∷ 6 ∷ 7 ∷ 8 ∷ 9 ∷ 10 ∷ 11 ∷ 12 ∷ 13 ∷ 14 ∷ 15 ∷ 16 ∷ 17 ∷ 18 ∷ 19 ∷ 20 ∷ 21 ∷ 22
    ∷ 25 ∷ 26 ∷ 27 ∷ 28 ∷ 29 ∷ 30 ∷ 31 ∷ []

unfoldable pub is_finalized : Option ℕ → Bool
is_finalized none = false
is_finalized (some code) = not (all (λ c. not (c == code)) finalized_codes)

-- `if (receiptId) …`: the empty string is no receipt id.
abbrev pub with_receipt : Option Text → PendingSettlement → PendingSettlement
with_receipt none p = p
with_receipt (some id) p = if text_eq id [] then p else record p { receipt_id = some id }

-- The pending settlement after `onSubmitted`, which throws at another hash.
abbrev pub after_submitted : Text → Sent → PendingSettlement → PendingSettlement
after_submitted hash sent p = elim sent.reported [
  | none ↦ p
  | some (h, id) ↦ if text_eq (to_lower h) hash then with_receipt id p else p
]

abbrev pub submitted_agrees : Text → Sent → Bool
submitted_agrees hash sent = elim sent.reported [
  | none ↦ true
  | some (h, _) ↦ text_eq (to_lower h) hash
]

module _ (platform : Platform) (agent : Agent) where
  -- The `finally` block, where the claim is not retained.
  abbrev let_go : PayResult → Bool → State → Paid × State
  let_go result broadcast s =
      (record { result = result; broadcast = broadcast }, release_payment_operation agent s)

  abbrev retain : PayResult → Bool → State → Paid × State
  retain result broadcast s = (record { result = result; broadcast = broadcast }, s)

  abbrev pub agrees : Text → Option Text → Bool
  agrees hash none = true
  agrees hash (some h) = text_eq h [] || text_eq (to_lower h) hash

  -- From the end of `at.send` on, with the pending settlement as it then is.
  unfoldable pub after_send : Bool → PendingSettlement → Option SendResult → State → Paid × State
  unfolding is_finalized
  after_send hold p none s = retain (settlement_uncertain p) true s
  after_send hold p (some (rejected code)) s =
      if is_finalized code
      then let_go payment_rejected true (record s { pending = none })
      else retain (settlement_uncertain p) true s
  after_send hold p (some (accepted hash)) s =
      if agrees p.tx_hash hash
      then (if hold
          then retain (paid p.tx_hash) true s
          else let_go (paid p.tx_hash) true (record s { pending = none }))
      else retain (settlement_uncertain p) true s

  abbrev pub result_of_sent : Text → Sent → Option SendResult
  result_of_sent hash sent = if submitted_agrees hash sent then sent.result else none

  -- From the call of `onPrepared` on.
  unfoldable pub submit : Call → PendingSettlement → State → Paid × State
  unfolding after_send
  submit call p s = elim call.on_prepared [
    | none ↦ let_go failed false (record s { pending = none })
    | some id ↦
        let q = after_submitted p.tx_hash call.sent (with_receipt id p) in
        after_send call.hold_until_delivery q (result_of_sent p.tx_hash call.sent)
          (record s { pending = some q })
  ]

  abbrev pub prepared : Call → ℕ → Text → Number → PendingSettlement
  prepared call expected_seq tx_hash valid_until = record {
    tx_hash = tx_hash;
    mandate_id = agent.mandate_id;
    amount = call.amount;
    expected_seq = show expected_seq;
    submitted_at = int (pos call.now);
    valid_until = valid_until;
    receipt_id = none;
  }

  -- The hash in lower case, where the envelope is canonical.
  abbrev pub canonical_hash : Signed → Option Text
  canonical_hash signed = elim signed.hash [
    | none ↦ none
    | some h ↦
        if is_hex64 (to_lower h) && is_positive_safe signed.max_time
        then some (to_lower h)
        else none
  ]

  abbrev pub sign_step : Call → ℕ → Option Signed → State → Paid × State
  sign_step call expected_seq none s = let_go failed false s
  sign_step call expected_seq (some signed) s = elim (canonical_hash signed) [
    | none ↦ let_go failed false (record s { pending = none })
    | some hash ↦
        let p = prepared call expected_seq hash signed.max_time in
        submit call p (record s { pending = some p })
  ]

  -- The mandate's sequence, the amount and the signature.
  unfoldable pub prepare : Call → State → Paid × State
  unfolding submit
  prepare call s = elim call.current_seq [
    | none ↦ let_go failed false s
    | some current ↦ elim (resolve_expected_payment_sequence current call.requested) [
      | err _ ↦ let_go failed false s
      | ok expected_seq ↦ elim (to_stroops call.amount agent.decimals) [
        | err _ ↦ let_go failed false s
        | ok _ ↦ sign_step call expected_seq call.signed s
      ]
    ]
  ]

  -- From the hydration on.
  unfoldable pub pay_claimed : Call → State → Paid × State
  unfolding prepare
  pay_claimed call s = elim (hydrate_pending_receipt platform agent call.listed s) [
    | none ↦ let_go failed false s
    | some (receipt, s') ↦ elim receipt [
      | some r ↦ retain (delivery_pending r) false s'
      | none ↦ elim s'.pending [
        | some p ↦ retain (settlement_uncertain p) false s'
        | none ↦ prepare call s'
      ]
    ]
  ]

  unfoldable pub pay : Call → State → Paid × State
  unfolding pay_claimed
  pay call s = elim (claim_payment_operation agent s) [
    | none ↦ (record { result = failed; broadcast = false }, s)
    | some s' ↦ pay_claimed call s'
  ]
