-- ===== src/RedemptionFile/Reread.antt =====
-- A record that was read from the file and is written again
-- (apps/fulfillment-agent/src/redemption-store.ts, deserialize and serialize).
use reapp_protocol.Common.{
  >>=-eq-ok, Bool, Bool-cases, Option, Text, [], all, and3_elim, and4_elim, ap, false, guard_then,
  has, inl, inr, is_digit, leb, lit, none, not, ok, refl, some, sym, text_eq, true, ℕ, ◌<◌, ◌∙◌,
  ◌∷◌, ◌≡◌,
}
use mathlib.Core.Path.{subst}
use reapp_protocol.Json.{Json, str, Fields, Platform, member}
use reapp_protocol.Amounts.{bigint_of, show}
use reapp_protocol.Amounts.Canonical.{bigint_of-positive, show-bigint_of}
use reapp_protocol.DeliveryStore.{StoredResponse, DeliveryState}
use reapp_protocol.RedemptionFile.Members.{set_member_same}
use reapp_protocol.RedemptionFile.Schema.{
  Filed, FileError, FileRecord, bad_record, bad_response, broken_response, text_of, fields_of,
  natural_of, response_with, is_response_shape, is_response_intact, check_response,
  validate_response, is_positive_digits, written_payment, serialize, is_record_shape,
  executing_unless, read_state, record_with, payment_amount, deserialize,
}
use reapp_protocol.RedemptionFile.RoundTrip.{
  IsResponse, IsState, IsFiled, as_written, deserialize-as_written,
}

text_of-ok :
    (e : FileError) (value : Option Json) (s : Text) → text_of e value ≡ ok s → value ≡ some (str s)
text_of-ok e (some (str t)) s h = let is : t ≡ s = cc in ap (λ (x : Text). some (str x)) is
text_of-ok e _ s h = absurd (cc)

text_injective : {a b : Text} → ◌≡◌ {A = Filed Text} (ok a) (ok b) → a ≡ b
text_injective h = cc

filed_injective : {a b : FileRecord} → ◌≡◌ {A = Filed FileRecord} (ok a) (ok b) → a ≡ b
filed_injective h = cc

state_injective : {a b : DeliveryState} → ◌≡◌ {A = Filed DeliveryState} (ok a) (ok b) → a ≡ b
state_injective h = cc

response_injective : {a b : StoredResponse} → ◌≡◌ {A = Filed StoredResponse} (ok a) (ok b) → a ≡ b
response_injective h = cc

not_elim : (b : Bool) → not b ≡ true → b ≡ false
not_elim true e = absurd (cc)
not_elim false e = refl

is_positive_digits-cons :
    (s : Text) → is_positive_digits s ≡ true → (0 < bigint_of s) × (show (bigint_of s) ≡ s)
unfolding is_positive_digits
is_positive_digits-cons [] h = absurd (cc)
is_positive_digits-cons (c ∷ s) h =
    let (low, high, rest) = and3_elim (leb 49 c) (leb c 57) (all is_digit s) h in
    (bigint_of-positive c s low high rest, show-bigint_of c s low high rest)

-- The members that are read off a payment.
record HasAmount (payment : Fields) (amount : Text) : Type 0 where
  has_amount : member (lit "amountStroops") payment ≡ some (str amount)
  tx_hash : Text
  has_tx_hash : member (lit "txHash") payment ≡ some (str tx_hash)
  mandate_id : Text
  has_mandate_id : member (lit "mandateId") payment ≡ some (str mandate_id)
  agent : Text
  has_agent : member (lit "agent") payment ≡ some (str agent)

payment_amount-HasAmount :
    (payment : Fields) (amount : Text)
    → payment_amount payment ≡ ok amount
    → HasAmount payment amount
unfolding payment_amount
payment_amount-HasAmount payment amount h =
    let (found, read, h1) =
      >>=-eq-ok (text_of bad_record (member (lit "amountStroops") payment)) _ h in
    let (tx_hash, tx_read, h2) =
      >>=-eq-ok (text_of bad_record (member (lit "txHash") payment)) _ h1 in
    let (mandate_id, mandate_read, h3) =
      >>=-eq-ok (text_of bad_record (member (lit "mandateId") payment)) _ h2 in
    let (agent, agent_read, same) =
      >>=-eq-ok (text_of bad_record (member (lit "agent") payment)) _ h3 in
    let is : found ≡ amount = text_injective same in
    record {
      has_amount = text_of-ok bad_record _ amount (read ∙ ap ok is);
      tx_hash = tx_hash;
      has_tx_hash = text_of-ok bad_record _ tx_hash tx_read;
      mandate_id = mandate_id;
      has_mandate_id = text_of-ok bad_record _ mandate_id mandate_read;
      agent = agent;
      has_agent = text_of-ok bad_record _ agent agent_read;
    }

module _ (platform : Platform) where
  check_response-IsResponse :
      (r x : StoredResponse) → check_response platform r ≡ ok x → IsResponse platform x
  unfolding check_response
  check_response-IsResponse r x h =
      let (shape, h1) = guard_then (is_response_shape r) bad_response _ h in
      let (intact, same) = guard_then (is_response_intact platform r) broken_response _ h1 in
      subst (IsResponse platform) (response_injective same)
        (record { shape = shape; intact = intact })

  validate_response-IsResponse :
      (value : Option Json) (x : StoredResponse)
      → validate_response platform value ≡ ok x
      → IsResponse platform x
  unfolding validate_response
  validate_response-IsResponse value x h =
      let (fields, _, h1) = >>=-eq-ok (fields_of bad_response value) _ h in
      let (status, _, h2) =
        >>=-eq-ok (natural_of bad_response (member (lit "status") fields)) _ h1 in
      let (content_type, _, h3) =
        >>=-eq-ok (text_of bad_response (member (lit "contentType") fields)) _ h2 in
      let (body_base64, _, h4) =
        >>=-eq-ok (text_of bad_response (member (lit "bodyBase64") fields)) _ h3 in
      let (body_sha256, _, h5) =
        >>=-eq-ok (text_of bad_response (member (lit "bodySha256") fields)) _ h4 in
      check_response-IsResponse (response_with status content_type body_base64 body_sha256) x h5

  executing_unless-IsState :
      (response : Option Json) (x : DeliveryState)
      → executing_unless response ≡ ok x
      → IsState platform x
  executing_unless-IsState none x h = subst (IsState platform) (state_injective h) tt
  executing_unless-IsState (some _) x h = absurd (cc)

  read_state-IsState :
      (state : Text) (response : Option Json) (x : DeliveryState)
      → read_state platform state response ≡ ok x
      → IsState platform x
  unfolding read_state
  read_state-IsState state response x h = elim (Bool-cases (text_eq state (lit "executing"))) [
    | inl pending ↦ executing_unless-IsState response x (rw (pending, read_state) at h)
    | inr other ↦ elim (Bool-cases (text_eq state (lit "completed"))) [
      | inl done ↦
          let (r, valid, same) =
            >>=-eq-ok (validate_response platform response) _
              (rw done at (rw (other, read_state) at h)) in
          subst (IsState platform) (state_injective same)
            (validate_response-IsResponse response r valid)
      | inr neither ↦ absurd (let e = rw neither at (rw (other, read_state) at h) in cc)
    ]
  ]

  IsRead : FileRecord → Type 0
  IsRead r = IsFiled platform r × (as_written r ≡ r)

  record_with-IsRead :
      (key proof_digest : Text) (payment : Fields) (amount execution_id : Text) (started_at : ℕ)
      (state : DeliveryState)
      → HasAmount payment amount
      → is_record_shape proof_digest execution_id started_at amount ≡ true
      → IsState platform state
      → IsRead (record_with key proof_digest payment amount execution_id started_at state)
  unfolding IsRead is_record_shape written_payment
  record_with-IsRead key proof_digest payment amount execution_id started_at state has shape valid =
      let (digest, id, time, digits) = and4_elim _ _ _ _ shape in
      let (positive, canonical) = is_positive_digits-cons amount digits in
      let kept : written_payment payment (bigint_of amount) ≡ payment =
        set_member_same (lit "amountStroops") (str (show (bigint_of amount))) payment
          (has.has_amount ∙ ap (λ (s : Text). some (str s)) (sym canonical)) in
      (
        record {
          proof_digest = digest;
          execution_id = not_elim _ id;
          started_at = time;
          payment = record {
            positive = positive;
            tx_hash = has.tx_hash;
            has_tx_hash = has.has_tx_hash;
            mandate_id = has.mandate_id;
            has_mandate_id = has.has_mandate_id;
            agent = has.agent;
            has_agent = has.has_agent;
          };
          state = valid;
        },
        ap (λ (p : Fields). record_with key proof_digest p amount execution_id started_at state)
            kept,
      )

  -- What is read passes the tests of the file, and its payment's amount is the decimal of its number.
  deserialize-IsRead :
      (value : Json) (r : FileRecord) → deserialize platform value ≡ ok r → IsRead r
  unfolding deserialize IsRead
  deserialize-IsRead value r h =
      let (fields, _, h1) = >>=-eq-ok (fields_of bad_record (some value)) _ h in
      let (key, _, h2) = >>=-eq-ok (text_of bad_record (member (lit "key") fields)) _ h1 in
      let (proof_digest, _, h3) =
        >>=-eq-ok (text_of bad_record (member (lit "proofDigest") fields)) _ h2 in
      let (execution_id, _, h4) =
        >>=-eq-ok (text_of bad_record (member (lit "executionId") fields)) _ h3 in
      let (started_at, _, h5) =
        >>=-eq-ok (natural_of bad_record (member (lit "startedAt") fields)) _ h4 in
      let (state, _, h6) = >>=-eq-ok (text_of bad_record (member (lit "state") fields)) _ h5 in
      let (payment, _, h7) =
        >>=-eq-ok (fields_of bad_record (member (lit "payment") fields)) _ h6 in
      let (amount, amount_read, h8) = >>=-eq-ok (payment_amount payment) _ h7 in
      let (shape, h9) =
        guard_then (is_record_shape proof_digest execution_id started_at amount) bad_record _ h8 in
      let (read, state_read, same) =
        >>=-eq-ok (read_state platform state (member (lit "response") fields)) _ h9 in
      subst IsRead (filed_injective same) (
        record_with-IsRead key proof_digest payment amount execution_id started_at read
          (payment_amount-HasAmount payment amount amount_read) shape
          (read_state-IsState state (member (lit "response") fields) read state_read))

  -- Whatever JSON is read as a record, the record is the same after it has been written and read
  -- again: its amount, which is a number in between, comes back as it was.
  pub deserialize-serialize-deserialize :
      (value : Json) (r : FileRecord)
      → deserialize platform value ≡ ok r
      → deserialize platform (serialize r) ≡ ok r
  unfolding IsRead
  deserialize-serialize-deserialize value r h =
      let (filed, same) = deserialize-IsRead value r h in
      deserialize-as_written platform r filed ∙ ap ok same
