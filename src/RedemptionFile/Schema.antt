-- ===== src/RedemptionFile/Schema.antt =====
-- The records of the redemption file: `validateResponse`, `serialize` and `deserialize` of
-- apps/fulfillment-agent/src/redemption-store.ts.
use reapp_protocol.Common.{
  Bool, Option, Result, Text, [], all, err, false, guard, if◌then◌else◌, int, is_digit, is_hex64,
  is_positive_safe, leb, lit, none, not, ok, pos, some, text_eq, ℕ, ◌&&◌, ◌>>=◌, ◌>>◌, ◌∷◌,
}
use reapp_protocol.Json.{Json, num, str, obj, Fields, field, end, Platform, member, is_base64}
use reapp_protocol.Amounts.{show, bigint_of}
use reapp_protocol.Payment.{VerifiedPayment}
use reapp_protocol.DeliveryStore.{StoredResponse, DeliveryState, executing, completed}

pub data FileError : Type 0 where
  unreadable bad_schema bad_response broken_response bad_record key_differs : FileError
  write_failed : FileError

abbrev pub Filed : Type 0 → Type 0
Filed A = Result FileError A

-- A record as it is read. Of the payment only some members are tested: its members are kept, and
-- its `amountStroops`, a BigInt in memory, stands beside them as the number.
pub record FileRecord : Type 0 where
  pub key : Text
  pub proof_digest : Text
  pub payment : Fields
  pub amount_stroops : ℕ
  pub execution_id : Text
  pub started_at : ℕ
  pub state : DeliveryState

abbrev pub text_of : FileError → Option Json → Filed Text
text_of e (some (str s)) = ok s
text_of e _ = err e

abbrev pub fields_of : FileError → Option Json → Filed Fields
fields_of e (some (obj fields)) = ok fields
fields_of e _ = err e

abbrev pub natural_of : FileError → Option Json → Filed ℕ
natural_of e (some (num (int (pos n)))) = ok n
natural_of e _ = err e

abbrev pub json_content_type : Text
json_content_type = lit "application/json; charset=utf-8"

-- The tests of the schema, and those of the bytes.
unfoldable pub is_response_shape : StoredResponse → Bool
is_response_shape r =
    leb 200 r.status
    && leb r.status 299
    && text_eq r.content_type json_content_type
    && is_base64 r.body_base64
    && is_hex64 r.body_sha256

unfoldable pub is_response_intact : Platform → StoredResponse → Bool
is_response_intact platform r =
    let body = platform.of_base64 r.body_base64 in
    text_eq (platform.to_base64 body) r.body_base64
    && text_eq (platform.to_hex (platform.sha256 body)) r.body_sha256

abbrev pub response_with : ℕ → Text → Text → Text → StoredResponse
response_with status content_type body_base64 body_sha256 = record {
  status = status;
  content_type = content_type;
  body_base64 = body_base64;
  body_sha256 = body_sha256;
}

unfoldable pub check_response : Platform → StoredResponse → Filed StoredResponse
unfolding is_response_shape is_response_intact
check_response platform r = do
  guard (is_response_shape r) bad_response
  guard (is_response_intact platform r) broken_response
  ok r

-- `validateResponse`, without the members that a response does not have.
unfoldable pub validate_response : Platform → Option Json → Filed StoredResponse
unfolding check_response member
validate_response platform value = do
  fields ← fields_of bad_response value
  status ← natural_of bad_response (member (lit "status") fields)
  content_type ← text_of bad_response (member (lit "contentType") fields)
  body_base64 ← text_of bad_response (member (lit "bodyBase64") fields)
  body_sha256 ← text_of bad_response (member (lit "bodySha256") fields)
  check_response platform (response_with status content_type body_base64 body_sha256)

-- `/^[1-9]\d*$/`
unfoldable pub is_positive_digits : Text → Bool
is_positive_digits [] = false
is_positive_digits (c ∷ s) = leb 49 c && leb c 57 && all is_digit s

unfoldable pub response_json : StoredResponse → Json
response_json r = obj (
    field (lit "status") (num (int (pos r.status))) (
      field (lit "contentType") (str r.content_type) (
        field (lit "bodyBase64") (str r.body_base64)
          (field (lit "bodySha256") (str r.body_sha256) end))))

unfoldable pub state_members : DeliveryState → Fields
unfolding response_json
state_members executing = field (lit "state") (str (lit "executing")) end
state_members (completed r) =
    field (lit "state") (str (lit "completed")) (field (lit "response") (response_json r) end)

-- `object[key] = value`, and a member that is written after a spread: the member keeps its place.
unfoldable pub set_member : Text → Json → Fields → Fields
set_member k v end = field k v end
set_member k v (field j w fs) =
    let rest = set_member k v fs in if text_eq j k then field j v fs else field j w rest

-- `{ ...record.payment, amountStroops: record.payment.amountStroops.toString() }`
unfoldable pub written_payment : Fields → ℕ → Fields
unfolding set_member show
written_payment payment amount_stroops =
    set_member (lit "amountStroops") (str (show amount_stroops)) payment

unfoldable pub serialize : FileRecord → Json
unfolding state_members written_payment
serialize r = obj (
    field (lit "key") (str r.key) (
      field (lit "proofDigest") (str r.proof_digest) (
        field (lit "payment") (obj (written_payment r.payment r.amount_stroops)) (
          field (lit "executionId") (str r.execution_id)
            (field (lit "startedAt") (num (int (pos r.started_at))) (state_members r.state))))))

-- The tests of the values of a record.
unfoldable pub is_record_shape : Text → Text → ℕ → Text → Bool
is_record_shape proof_digest execution_id started_at amount =
    is_hex64 proof_digest
    && not (text_eq execution_id [])
    && is_positive_safe (int (pos started_at))
    && is_positive_digits amount

abbrev pub executing_unless : Option Json → Filed DeliveryState
executing_unless none = ok executing
executing_unless (some _) = err bad_record

-- `state` with the response that goes with it.
unfoldable pub read_state : Platform → Text → Option Json → Filed DeliveryState
unfolding validate_response
read_state platform state response =
    let done = validate_response platform response >>= (λ r. ok (completed r)) in
    if text_eq state (lit "executing")
    then executing_unless response
    else if text_eq state (lit "completed")
    then done
    else err bad_record

abbrev pub record_with : Text → Text → Fields → Text → Text → ℕ → DeliveryState → FileRecord
record_with key proof_digest payment amount execution_id started_at state = record {
  key = key;
  proof_digest = proof_digest;
  payment = payment;
  amount_stroops = bigint_of amount;
  execution_id = execution_id;
  started_at = started_at;
  state = state;
}

-- The amount of a payment whose tested members are texts.
unfoldable pub payment_amount : Fields → Filed Text
unfolding member
payment_amount payment = do
  amount ← text_of bad_record (member (lit "amountStroops") payment)
  _ ← text_of bad_record (member (lit "txHash") payment)
  _ ← text_of bad_record (member (lit "mandateId") payment)
  _ ← text_of bad_record (member (lit "agent") payment)
  ok amount

unfoldable pub deserialize : Platform → Json → Filed FileRecord
unfolding is_record_shape read_state payment_amount member
deserialize platform value = do
  fields ← fields_of bad_record (some value)
  key ← text_of bad_record (member (lit "key") fields)
  proof_digest ← text_of bad_record (member (lit "proofDigest") fields)
  execution_id ← text_of bad_record (member (lit "executionId") fields)
  started_at ← natural_of bad_record (member (lit "startedAt") fields)
  state ← text_of bad_record (member (lit "state") fields)
  payment ← fields_of bad_record (member (lit "payment") fields)
  amount ← payment_amount payment
  guard (is_record_shape proof_digest execution_id started_at amount) bad_record
  read ← read_state platform state (member (lit "response") fields)
  ok (record_with key proof_digest payment amount execution_id started_at read)

-- `{ ...payment, amountStroops: payment.amountStroops.toString() }`
unfoldable pub payment_fields : VerifiedPayment → Fields
unfolding show
payment_fields p = field (lit "txHash") (str p.tx_hash) (
    field (lit "ledger") (num (int (pos p.ledger))) (
      field (lit "mandateId") (str p.mandate_id) (
        field (lit "user") (str p.user) (
          field (lit "agent") (str p.agent) (
            field (lit "amount") (str p.amount) (
              field (lit "amountStroops") (str (show p.amount_stroops)) (
                field (lit "merchant") (str p.merchant) (
                  field (lit "asset") (str p.asset) (
                    field (lit "registryId") (str p.registry_id) (
                      field (lit "scheme") (str p.scheme)
                        (field (lit "network") (str p.network) end)))))))))))
