-- ===== src/Agent.antt =====
-- The SDK's agent: packages/sdk/src/index.ts, the class Agent up to its paid fetch. An operation is
-- a function of the agent's state and of what the outside gave it: the receipt store, the contract
-- client, the RPC server and the clock. `none` is an exception thrown.
pub mod Pay
pub mod Reconcile
pub mod Fetch
pub mod Payable
pub mod Stages
pub mod Exclusive
pub mod Resolution
use reapp_protocol.Common.{
  ==_iff, >>=-eq-ok, All, Bool, Bool-cases, List, List-cases, Number, Option, Option-cases, Result,
  String, Text, [], all, and3_elim, and4_elim, and_elim, ap, arith, conjunction, conjunction→All,
  err, false, find, find-insert, find-insert_self, find-remove, find_of_not_has, guard, has,
  has-eq-find, has-insert, if◌then◌else◌, inl, inr, insert, int, is_digit, is_digits, is_exact,
  is_hex64, is_hex_digit, is_natural_safe, is_positive_safe, is_space, leb, leb→le, length,
  length-append, length-replicate, lit, lower_unit, ltb, ltb→lt, lt→ltb, map, max_safe_integer,
  natural, natural_pos, ne_of_text_eq, negsuc, non_integer, none, not, ok, or_elim_false, pos, refl,
  remove, replicate, some, suc, sym, take, text_eq, text_eq_iff, text_eq_refl, text_eq→eq, text_ne,
  to_lower, to_lower_idempotent, to_upper, trim, trim_start, true, upper_unit, zero, ℕ, ℤ, ◌%◌,
  ◌&&◌, ◌*◌, ◌++◌, ◌+◌, ◌-◌, ◌/◌, ◌<◌, ◌==◌, ◌>>=◌, ◌>>◌, ◌^◌, ◌||◌, ◌↔◌, ◌∙◌, ◌∷◌, ◌≡◌, ◌≢◌, ◌≤◌,
  ◌⊎◌,
}
use reapp_protocol.Json.{
  Json, null, bool, num, str, arr, obj, Items, nil, cons, Fields, end, field, Url, Platform, member,
  keys, text_le, insert_sorted, sort_texts, texts_equal, has_exact_keys, is_base64_digit, is_base64,
}
use reapp_protocol.X402.{LegacyProof, BoundProof, PaymentProof, legacy, bound}
use reapp_protocol.X402.Wire.{proof_json}
use reapp_protocol.Amounts.{to_stroops}
use reapp_protocol.PaymentSequence.{Requested, resolve_expected_payment_sequence}

pub record SettlementReceipt : Type 0 where
  pub receipt_id : Text
  pub proof_version : ℕ
  pub url : Text
  pub method : Text
  pub tx_hash : Text
  pub mandate_id : Text
  pub amount : Text
  pub submitted_at : Number
  pub valid_until : Number
  pub proof : PaymentProof

pub record PendingSettlement : Type 0 where
  pub tx_hash : Text
  pub mandate_id : Text
  pub amount : Text
  pub expected_seq : Text
  pub submitted_at : Number
  pub valid_until : Number
  pub receipt_id : Option Text

-- `claim_key` is the key of the process-wide claims for this agent's mandate, `owner` the agent's
-- own symbol; `before a b` is `a.localeCompare(b) < 0`.
pub record Agent : Type 0 where
  pub mandate_id : Text
  pub decimals : ℕ
  pub claim_key : Text
  pub owner : ℕ
  pub has_receipt_store : Bool
  pub before : Text → Text → Bool

-- The agent's fields, and `activeMandatePaymentClaims`.
pub record State : Type 0 where
  pub pending : Option PendingSettlement
  pub payment_claim_key : Option Text
  pub claims : List (Text × ℕ)

abbrev pub proof_tx_hash : PaymentProof → Text
proof_tx_hash (legacy p) = p.tx_hash
proof_tx_hash (bound p) = p.tx_hash

abbrev pub proof_mandate_id : PaymentProof → Text
proof_mandate_id (legacy p) = p.mandate_id
proof_mandate_id (bound p) = p.mandate_id

abbrev legacy_json : LegacyProof → Json
legacy_json p = obj (
    field (lit "scheme") (str p.scheme) (
      field (lit "network") (str p.network) (
        field (lit "txHash") (str p.tx_hash)
          (field (lit "mandateId") (str p.mandate_id) (field (lit "amount") (str p.amount) end)))))

abbrev json_of_proof : PaymentProof → Json
json_of_proof (legacy p) = legacy_json p
json_of_proof (bound p) = proof_json p

-- `!Number.isSafeInteger(…) || submittedAt <= 0 || validUntil <= submittedAt`, negated.
abbrev pub is_window : Number → Number → Bool
is_window submitted_at valid_until =
    is_positive_safe submitted_at
    && is_positive_safe valid_until
    && ltb (natural submitted_at) (natural valid_until)

unfoldable pub claim_payment_operation : Agent → State → Option State
claim_payment_operation agent s = elim s.payment_claim_key [
  | some _ ↦ none
  | none ↦
      if has agent.claim_key s.claims
      then none
      else some (record s {
        payment_claim_key = some agent.claim_key;
        claims = insert agent.claim_key agent.owner s.claims;
      })
]

abbrev owned_by : ℕ → Option ℕ → Bool
owned_by owner none = false
owned_by owner (some o) = o == owner

unfoldable pub release_payment_operation : Agent → State → State
release_payment_operation agent s = elim s.payment_claim_key [
  | none ↦ s
  | some key ↦ record s {
    payment_claim_key = none;
    claims = if owned_by agent.owner (find key s.claims) then remove key s.claims else s.claims;
  }
]

abbrev pub claim_unless_held : Agent → State → Option State
claim_unless_held agent s = elim s.payment_claim_key [
  | some _ ↦ some s
  | none ↦ claim_payment_operation agent s
]

-- The first of the receipts of a mandate, in the order of their ids.
unfoldable pub first_receipt : Agent → List SettlementReceipt → Option SettlementReceipt
first_receipt agent [] = none
first_receipt agent (r ∷ rs) =
    let others = first_receipt agent rs in
    if text_eq r.mandate_id agent.mandate_id
    then elim others [
      | none ↦ some r
      | some o ↦ if agent.before o.receipt_id r.receipt_id then some o else some r
    ]
    else others

abbrev pub pending_of : SettlementReceipt → PendingSettlement
pending_of r = record {
  tx_hash = r.tx_hash;
  mandate_id = r.mandate_id;
  amount = r.amount;
  expected_seq = lit "unknown";
  submitted_at = r.submitted_at;
  valid_until = r.valid_until;
  receipt_id = some r.receipt_id;
}

module _ (platform : Platform) (agent : Agent) where
  abbrev pub encode_payment_proof : PaymentProof → Text
  encode_payment_proof p =
      platform.to_base64 (platform.to_utf8 (platform.stringify (json_of_proof p)))

  unfoldable pub create_settlement_receipt_id : SettlementReceipt → Text
  create_settlement_receipt_id r =
      let parts : Items = cons (str (lit "reapp-settlement-receipt-v2")) (
        cons (num (int (pos r.proof_version))) (
          cons (str r.url) (
            cons (str r.method) (
              cons (str r.tx_hash) (
                cons (str r.mandate_id) (
                  cons (str r.amount) (
                    cons (num r.submitted_at) (
                      cons (num r.valid_until)
                        (cons (str (encode_payment_proof r.proof)) nil))))))))) in
      platform.to_hex (platform.sha256 (platform.to_utf8 (platform.stringify (arr parts))))

  abbrev pub is_recovery_evidence : SettlementReceipt → Bool
  is_recovery_evidence r =
      text_eq r.receipt_id (create_settlement_receipt_id r)
      && text_eq r.tx_hash (proof_tx_hash r.proof)
      && text_eq r.mandate_id (proof_mandate_id r.proof)
      && is_window r.submitted_at r.valid_until

  abbrev pub adopt : SettlementReceipt → Option State → Option (Option SettlementReceipt × State)
  adopt r none = none
  adopt r (some s) = some (some r, record s { pending = some (pending_of r) })

  abbrev pub adopt_first :
      Option SettlementReceipt → State → Option (Option SettlementReceipt × State)
  adopt_first none s = some (none, s)
  adopt_first (some r) s =
      if is_recovery_evidence r then adopt r (claim_unless_held agent s) else none

  abbrev pub adopt_listed :
      Option (List SettlementReceipt) → State → Option (Option SettlementReceipt × State)
  adopt_listed none s = none
  adopt_listed (some receipts) s = adopt_first (first_receipt agent receipts) s

  abbrev pub is_some : {A : Type 0} → Option A → Bool
  is_some none = false
  is_some (some _) = true

  -- `listed`: what `listPending` gives.
  unfoldable pub hydrate_pending_receipt :
      Option (List SettlementReceipt) → State → Option (Option SettlementReceipt × State)
  unfolding create_settlement_receipt_id first_receipt claim_payment_operation
  hydrate_pending_receipt listed s =
      if is_some s.pending || not agent.has_receipt_store
      then some (none, s)
      else adopt_listed listed s
