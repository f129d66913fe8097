-- ===== src/DeliveryStore.antt =====
-- The store that binds a settlement to one request and keeps its response:
-- packages/express-middleware/src/bound-store.ts. The interface is a record of operations on a
-- state; `InMemoryBoundRedemptionStore` is one of its implementations.
pub mod Claims
pub mod Replay
use reapp_protocol.Common.{
  ℕ, Text, text_eq, find, insert, ◌==◌, Bool, true, false, ◌&&◌, not, Option, none, some, List,
  if◌then◌else◌,
}
use reapp_protocol.Payment.{VerifiedPayment, Reply, answer}

pub record StoredResponse : Type 0 where
  pub status : ℕ
  pub content_type : Text
  pub body_base64 : Text
  pub body_sha256 : Text

pub record RedemptionRecord : Type 0 where
  pub key : Text
  pub proof_digest : Text
  pub payment : VerifiedPayment

pub data DeliveryState : Type 0 where
  executing : DeliveryState
  completed : StoredResponse → DeliveryState

pub record DeliveryRecord : Type 0 where
  pub key : Text
  pub proof_digest : Text
  pub payment : VerifiedPayment
  pub execution_id : Text
  pub started_at : ℕ
  pub state : DeliveryState

pub data Lookup : Type 0 where
  missing conflict : Lookup
  executing completed : DeliveryRecord → Lookup

pub data Claim : Type 0 where
  claimed executing completed : DeliveryRecord → Claim
  conflict : Claim

pub record Completion : Type 0 where
  pub key : Text
  pub proof_digest : Text
  pub execution_id : Text
  pub response : StoredResponse

pub data Complete : Type 0 where
  completed : DeliveryRecord → Complete
  conflict : Complete

-- What the middleware and the route take for their store. An operation may throw.
pub record BoundRedemptionStore : Type 1 where
  pub State : Type 0
  pub lookup : Text → Text → State → Reply Lookup × State
  pub claim : RedemptionRecord → Text → ℕ → State → Reply Claim × State
  pub complete : Completion → State → Reply Complete × State

abbrev pub Records : Type 0
Records = List (Text × DeliveryRecord)

-- `{ kind: record.state, record }`
unfoldable pub lookup_of_state : DeliveryState → DeliveryRecord → Lookup
lookup_of_state executing r = Lookup.executing r
lookup_of_state (completed _) r = Lookup.completed r

unfoldable pub claim_of_state : DeliveryState → DeliveryRecord → Claim
claim_of_state executing r = Claim.executing r
claim_of_state (completed _) r = Claim.completed r

unfoldable pub lookup : Text → Text → Records → Lookup
unfolding lookup_of_state
lookup key proof_digest records = elim (find key records) [
  | none ↦ missing
  | some r ↦ if text_eq r.proof_digest proof_digest then lookup_of_state r.state r else conflict
]

unfoldable pub freeze_executing : RedemptionRecord → Text → ℕ → DeliveryRecord
freeze_executing r execution_id started_at = record {
  key = r.key;
  proof_digest = r.proof_digest;
  payment = r.payment;
  execution_id = execution_id;
  started_at = started_at;
  state = executing;
}

unfoldable pub claim : RedemptionRecord → Text → ℕ → Records → Claim × Records
unfolding claim_of_state freeze_executing
claim r execution_id started_at records = elim (find r.key records) [
  | some existing ↦
      if text_eq existing.proof_digest r.proof_digest
      then (claim_of_state existing.state existing, records)
      else (conflict, records)
  | none ↦
      let fresh = freeze_executing r execution_id started_at in
      (claimed fresh, insert r.key fresh records)
]

unfoldable pub responses_equal : StoredResponse → StoredResponse → Bool
responses_equal a b =
    (a.status == b.status)
    && text_eq a.content_type b.content_type
    && text_eq a.body_base64 b.body_base64
    && text_eq a.body_sha256 b.body_sha256

-- The last part of `complete`, by the state of the record that is there.
unfoldable pub complete_record :
    Completion → DeliveryRecord → DeliveryState → Records → Complete × Records
unfolding responses_equal
complete_record c existing (completed response) records =
    if responses_equal response c.response
    then (completed existing, records)
    else (conflict, records)
complete_record c existing executing records =
    let done = record existing { state = completed c.response } in
    (completed done, insert c.key done records)

unfoldable pub complete : Completion → Records → Complete × Records
unfolding complete_record
complete c records = elim (find c.key records) [
  | none ↦ (conflict, records)
  | some existing ↦
      if text_eq existing.proof_digest c.proof_digest
        && text_eq existing.execution_id c.execution_id
      then complete_record c existing existing.state records
      else (conflict, records)
]

-- `get`
abbrev pub get : Text → Records → Option DeliveryRecord
get key records = find key records

abbrev pub in_memory : BoundRedemptionStore
in_memory = record {
  State = Records;
  lookup = λ k d s. (answer (lookup k d s), s);
  claim = λ r e t s. let (reply, s') = claim r e t s in (answer reply, s');
  complete = λ c s. let (reply, s') = complete c s in (answer reply, s');
}
