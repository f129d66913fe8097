-- ===== src/Events/Transfers.antt =====
-- `selectTransfer` against a description of the transfer that it wants
-- (packages/express-middleware/src/verification.ts).
use reapp_protocol.Events.{
  DecodedEvent, DecodedValue, decoded, TransferCheck, is_transfer, is_amount, transfer_topics,
  select_transfer, count_transfers, exact_value, emitted_by, text, bytes, vec, other, bigint,
}
use reapp_protocol.Events.Payments.{symbol, address, exact_value→eq}
use reapp_protocol.Common.{
  All, Bool-cases, List, Option, Text, [], ap, arith, if◌then◌else◌, inl, inr, lit, negsuc, none,
  pos, refl, some, text_eq_refl, text_eq→eq, true, ℕ, ◌++◌, ◌+◌, ◌==◌, ◌↔◌, ◌∷◌, ◌≡◌, and3_elim,
  and4_elim,
}

-- What a matching transfer looks like, written out; topics after the third are not read.
pub record IsTransfer (check : TransferCheck) (e : DecodedEvent) : Type 0 where
  pub contract_event : e.type ≡ lit "contract"
  pub emitter : e.contract_id ≡ some check.asset
  pub more : List DecodedValue
  pub topics :
      e.topics ≡ symbol (lit "transfer") ∷ address check.user ∷ address check.merchant ∷ more
  pub body : e.body ≡ decoded (lit "scvI128") (bigint (pos check.amount))

transfer_topics→eq :
    (ts : List DecodedValue) (check : TransferCheck)
    → transfer_topics ts check ≡ true
    → (more : List DecodedValue) × (ts
        ≡ symbol (lit "transfer") ∷ address check.user ∷ address check.merchant ∷ more)
unfolding transfer_topics
transfer_topics→eq [] check h = ([], cc)
transfer_topics→eq (t ∷ []) check h = ([], cc)
transfer_topics→eq (t ∷ u ∷ []) check h = ([], cc)
transfer_topics→eq (t ∷ u ∷ v ∷ more) check h =
    let (one, two, three) = and3_elim _ _ _ h in
    let first = exact_value→eq t _ _ one in
    let second = exact_value→eq u _ _ two in let third = exact_value→eq v _ _ three in (more, cc)

is_amount→eq :
    (v : DecodedValue) (n : ℕ) → is_amount v n ≡ true → v ≡ decoded (lit "scvI128") (bigint (pos n))
unfolding is_amount
is_amount→eq (decoded t (bigint (pos m))) n h = ground (arith, text_eq→eq t (lit "scvI128"))
is_amount→eq (decoded t (bigint (negsuc m))) n h = cc
is_amount→eq (decoded t (text w)) n h = cc
is_amount→eq (decoded t (bytes w)) n h = cc
is_amount→eq (decoded t (vec w)) n h = cc
is_amount→eq (decoded t other) n h = cc

emitted_by→eq : (c : Option Text) (id : Text) → emitted_by c id ≡ true → c ≡ some id
emitted_by→eq none id h = cc
emitted_by→eq (some c) id h = ap some (text_eq→eq c id h)

pub is_transfer→IsTransfer :
    (check : TransferCheck) (e : DecodedEvent) → is_transfer check e ≡ true → IsTransfer check e
unfolding is_transfer
is_transfer→IsTransfer check e h =
    let (one, two, three, four) = and4_elim _ _ _ _ h in
    let (more, topics) = transfer_topics→eq e.topics check three in
    record {
      contract_event = text_eq→eq _ _ one;
      emitter = emitted_by→eq e.contract_id check.asset two;
      more = more;
      topics = topics;
      body = is_amount→eq e.body check.amount four;
    }

pub IsTransfer→is_transfer :
    (check : TransferCheck) (e : DecodedEvent) → IsTransfer check e → is_transfer check e ≡ true
unfolding is_transfer transfer_topics is_amount exact_value
IsTransfer→is_transfer check e h =
    let same_amount : (check.amount == check.amount) ≡ true = ground arith in
    rw (h.contract_event, h.emitter, h.topics, h.body) (simp (text_eq_refl, same_amount))

-- The events that are matching transfers, counted.
abbrev pub transfers : TransferCheck → List DecodedEvent → ℕ
transfers check [] = 0
transfers check (e ∷ es) = (if is_transfer check e then 1 else 0) + transfers check es

count_transfers-eq :
    (check : TransferCheck) (es : List DecodedEvent) (n : ℕ)
    → count_transfers check es n ≡ n + transfers check es
unfolding count_transfers
count_transfers-eq check [] n = omega arith
count_transfers-eq check (e ∷ es) n =
    ground (arith, count_transfers-eq check es (n + 1), count_transfers-eq check es n)

-- Exactly one event is a matching transfer.
pub record OneTransfer (check : TransferCheck) (es : List DecodedEvent) : Type 0 where
  pub before : List DecodedEvent
  pub event : DecodedEvent
  pub after : List DecodedEvent
  pub listed : es ≡ before ++ event ∷ after
  pub matches : IsTransfer check event
  pub none_before : All (λ e. ¬ IsTransfer check e) before
  pub none_after : All (λ e. ¬ IsTransfer check e) after

module _ (check : TransferCheck) where
  transfers→none :
      (es : List DecodedEvent) → transfers check es ≡ 0 → All (λ e. ¬ IsTransfer check e) es
  transfers→none [] h = tt
  transfers→none (e ∷ es) h = elim (Bool-cases (is_transfer check e)) [
    | inl hit ↦ absurd (ground arith)
    | inr miss ↦ (λ t. cc (IsTransfer→is_transfer check e t), transfers→none es (ground arith))
  ]

  transfers→one : (es : List DecodedEvent) → transfers check es ≡ 1 → OneTransfer check es
  transfers→one [] h = absurd (omega arith)
  transfers→one (e ∷ es) h = elim (Bool-cases (is_transfer check e)) [
    | inl hit ↦ record {
      before = [];
      event = e;
      after = es;
      listed = refl;
      matches = is_transfer→IsTransfer check e hit;
      none_before = tt;
      none_after = transfers→none es (ground arith);
    }
    | inr miss ↦
        let rest = transfers→one es (ground arith) in
        record {
          before = e ∷ rest.before;
          event = rest.event;
          after = rest.after;
          listed = ap (λ (l : List DecodedEvent). e ∷ l) rest.listed;
          matches = rest.matches;
          none_before = (λ t. cc (IsTransfer→is_transfer check e t), rest.none_before);
          none_after = rest.none_after;
        }
  ]

  transfers_none :
      (es : List DecodedEvent) → All (λ e. ¬ IsTransfer check e) es → transfers check es ≡ 0
  transfers_none [] h = refl
  transfers_none (e ∷ es) (h, hs) = elim (Bool-cases (is_transfer check e)) [
    | inl hit ↦ absurd (h (is_transfer→IsTransfer check e hit))
    | inr miss ↦ ground (arith, transfers_none es hs)
  ]

  transfers-append :
      (bs es : List DecodedEvent)
      → transfers check (bs ++ es) ≡ transfers check bs + transfers check es
  transfers-append [] es = omega arith
  transfers-append (b ∷ bs) es = ground (arith, transfers-append bs es)

  transfers_one : (es : List DecodedEvent) → OneTransfer check es → transfers check es ≡ 1
  transfers_one es o = rw o.listed (
      ground (
        arith,
        transfers-append o.before (o.event ∷ o.after),
        transfers_none o.before o.none_before,
        transfers_none o.after o.none_after,
        IsTransfer→is_transfer check o.event o.matches,
      ))

-- `selectTransfer` accepts exactly where one and only one event is the wanted transfer.
pub select_transfer_iff :
    (check : TransferCheck) (es : List DecodedEvent)
    → (select_transfer es check ≡ none) ↔ OneTransfer check es
unfolding select_transfer
select_transfer_iff check es = (
  λ h. transfers→one check es (ground (arith, count_transfers-eq check es 0)),
  λ o. ground (arith, count_transfers-eq check es 0, transfers_one check es o),
)
