-- ===== src/Tests/Files.antt =====
-- Runs of the file store, on the platform of the mandates with a base64 that leaves bytes as they are.
use reapp_protocol.Common.{
  List, [], arith, is_hex64, is_positive_safe, lit, ok, refl, replicate, text_eq, true, ◌∷◌, ◌≡◌,
  ◌≤◌, err, false, int, pos,
}
use reapp_protocol.Json.{Fields, Json, num, str, obj, field, end, Platform, is_base64}
use reapp_protocol.Tests.Mandates.{platform}
use reapp_protocol.Payment.{VerifiedPayment}
use reapp_protocol.DeliveryStore.{
  executing, StoredResponse, RedemptionRecord, Completion, freeze_executing,
}
use reapp_protocol.DeliveryStore.Claims.{Call, lookup_call, claim_call, complete_call}
use reapp_protocol.RedemptionFile.{
  is_inherited, lookup, load, find_record, absent, written, fails_after, Io,
}
use reapp_protocol.RedemptionFile.Schema.{
  payment_fields, FileRecord, is_positive_digits, bad_record, is_response_shape, is_response_intact,
  serialize, deserialize, json_content_type, is_response_shape, is_response_intact,
}
use reapp_protocol.RedemptionFile.RoundTrip.{
  IsPriced, IsFiled, IsResponse, payment_fields-IsPayment, deserialize-serialize,
}
use reapp_protocol.RedemptionFile.Reread.{deserialize-serialize-deserialize}
use reapp_protocol.Amounts.{value_from}
use reapp_protocol.RedemptionFile.Once.{file_claims, file_claims-le-one}
use reapp_protocol.RedemptionFile.Represents.{Represents, file_fields, file_of, file_fields}
use reapp_protocol.RedemptionFile.Refinement.{
  file_answers, memory_answers, file_answers-memory_answers,
}

abbrev file_platform : Platform
file_platform = record platform { to_base64 = λ b. b; of_base64 = λ s. s }

abbrev payment : VerifiedPayment
payment = record {
  tx_hash = lit "t";
  ledger = 7;
  mandate_id = lit "m";
  user = lit "GUSER";
  agent = lit "GAGENT";
  amount = lit "1.5";
  amount_stroops = 15000000;
  merchant = lit "GSHOP";
  asset = lit "CUSDC";
  registry_id = lit "CREG";
  scheme = lit "s";
  network = lit "n";
}

abbrev bought : RedemptionRecord
bought = record { key = lit "k"; proof_digest = replicate 64 b'7'; payment = payment }

abbrev answered : StoredResponse
answered = record {
  status = 200;
  content_type = json_content_type;
  body_base64 = lit "AAAA";
  body_sha256 = replicate 64 b'7';
}

answered-IsResponse : IsResponse file_platform answered
unfolding is_response_shape is_response_intact text_eq is_base64 is_hex64
answered-IsResponse = record { shape = refl; intact = refl }

bought-IsFiled : IsFiled file_platform (file_of (freeze_executing bought (lit "e") 9))
unfolding freeze_executing text_eq is_hex64 is_positive_safe
bought-IsFiled = record {
  proof_digest = refl;
  execution_id = refl;
  started_at = refl;
  payment = payment_fields-IsPayment payment (omega arith);
  state = tt;
}

deserialize-serialize_example :
    (after : Fields) × (deserialize file_platform
        (serialize (file_of (freeze_executing bought (lit "e") 9)))
      ≡ ok (record (file_of (freeze_executing bought (lit "e") 9)) { payment = after }))
    × IsPriced (payment_fields payment) after 15000000
unfolding freeze_executing
deserialize-serialize_example =
    deserialize-serialize file_platform (file_of (freeze_executing bought (lit "e") 9))
      bought-IsFiled

-- A record that stands in a file, whose payment has few members.
abbrev stored_json : Json
stored_json = obj (
    field (lit "key") (str (lit "k")) (
      field (lit "proofDigest") (str (replicate 64 b'7')) (
        field (lit "payment")
          (obj (
            field (lit "amountStroops") (str (lit "15000000")) (
              field (lit "txHash") (str (lit "t")) (
                field (lit "mandateId") (str (lit "m"))
                  (field (lit "agent") (str (lit "GAGENT")) end)))))
          (field (lit "executionId") (str (lit "e")) (
            field (lit "startedAt") (num (int (pos 9)))
              (field (lit "state") (str (lit "executing")) end))))))

abbrev stored : FileRecord
stored = record {
  key = lit "k";
  proof_digest = replicate 64 b'7';
  payment = field (lit "amountStroops") (str (lit "15000000")) (
      field (lit "txHash") (str (lit "t"))
        (field (lit "mandateId") (str (lit "m")) (field (lit "agent") (str (lit "GAGENT")) end)));
  amount_stroops = 15000000;
  execution_id = lit "e";
  started_at = 9;
  state = executing;
}

reads_stored : deserialize file_platform stored_json ≡ ok stored
unfolding deserialize text_eq is_hex64 is_positive_safe is_positive_digits value_from
reads_stored = refl

deserialize-serialize-deserialize_example : deserialize file_platform (serialize stored) ≡ ok stored
deserialize-serialize-deserialize_example =
    deserialize-serialize-deserialize file_platform stored_json stored reads_stored

abbrev whole : Io
whole = record { reads = true; writing = written }

abbrev own_completion : Completion
own_completion = record {
  key = lit "k";
  proof_digest = replicate 64 b'7';
  execution_id = lit "e";
  response = answered;
}

abbrev calls : List Call
calls =
    claim_call bought (lit "e") 9
    ∷ complete_call own_completion
    ∷ lookup_call (lit "k") (replicate 64 b'7')
    ∷ claim_call bought (lit "e") 9
    ∷ []

own_key : is_inherited (lit "k") ≡ false
unfolding is_inherited text_eq
own_key = refl

-- A key that every object inherits makes the file store throw.
inherited_run : (lookup file_platform (lit "constructor") (lit "d") whole absent).0 ≡ err bad_record
unfolding lookup load find_record is_inherited text_eq
inherited_run = refl

absent-Represents : Represents file_platform absent []
unfolding file_fields
absent-Represents = record { reads = refl; filed = tt }

file_answers-memory_answers_example :
    file_answers file_platform calls absent ≡ memory_answers file_platform calls []
file_answers-memory_answers_example =
    file_answers-memory_answers file_platform calls absent []
      (
        (own_key, bought-IsFiled),
        ((own_key, answered-IsResponse), (own_key, ((own_key, bought-IsFiled), tt))),
      )
      absent-Represents

abbrev broken : Io
broken = record { reads = true; writing = fails_after }

abbrev attempts : List (Call × Io)
attempts =
    (claim_call bought (lit "e") 9, broken)
    ∷ (claim_call bought (lit "f") 9, whole)
    ∷ (claim_call bought (lit "g") 9, whole)
    ∷ []

file_claims-le-one_example : file_claims file_platform (lit "k") attempts absent ≤ 1
file_claims-le-one_example = file_claims-le-one file_platform (lit "k") attempts absent
