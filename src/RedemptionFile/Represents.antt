-- ===== src/RedemptionFile/Represents.antt =====
-- The records of the in-memory store as the JSON of the file
-- (apps/fulfillment-agent/src/redemption-store.ts).
use reapp_protocol.Common.{
  All, Bool-cases, Text, [], ap, find, inl, inr, insert, none, ok, refl, some, sym, text_eq,
  text_eq_refl, text_eq→eq, true, ◌∙◌, ◌∷◌, ◌≡◌,
}
use mathlib.Core.Path.{subst}
use reapp_protocol.Json.{Fields, field, end, Platform, member}
use reapp_protocol.DeliveryStore.{DeliveryRecord, Records}
use reapp_protocol.RedemptionFile.{Disk, holds, file_json, check_records, load_json, read}
use reapp_protocol.RedemptionFile.Schema.{
  written_payment, deserialize, set_member, FileRecord, serialize, payment_fields,
}
use reapp_protocol.RedemptionFile.RoundTrip.{as_written, IsFiled, deserialize-as_written}

-- A record of the in-memory store as the file store reads it.
abbrev pub file_of : DeliveryRecord → FileRecord
file_of d = record {
  key = d.key;
  proof_digest = d.proof_digest;
  payment = payment_fields d.payment;
  amount_stroops = d.payment.amount_stroops;
  execution_id = d.execution_id;
  started_at = d.started_at;
  state = d.state;
}

unfoldable pub file_fields : Records → Fields
unfolding serialize
file_fields [] = end
file_fields ((k, d) ∷ m) = field k (serialize (file_of d)) (file_fields m)

pub as_written-file_of : (d : DeliveryRecord) → as_written (file_of d) ≡ file_of d
unfolding written_payment set_member payment_fields text_eq
as_written-file_of d = refl

-- What is written for a record of the in-memory store is read as that record.
pub deserialize-file_of :
    (platform : Platform) (d : DeliveryRecord)
    → IsFiled platform (file_of d)
    → deserialize platform (serialize (file_of d)) ≡ ok (file_of d)
deserialize-file_of platform d f =
    deserialize-as_written platform (file_of d) f ∙ ap ok (as_written-file_of d)

-- Every record stands under its key and passes the tests of the file.
abbrev pub AllFiled : Platform → Records → Type 0
AllFiled platform m = All (λ e. (e.1.key ≡ e.0) × IsFiled platform (file_of e.1)) m

pub set_member-file_fields :
    (k : Text) (d : DeliveryRecord) (m : Records)
    → set_member k (serialize (file_of d)) (file_fields m) ≡ file_fields (insert k d m)
unfolding set_member file_fields insert
set_member-file_fields k d [] = refl
set_member-file_fields k d ((j, e) ∷ m) = elim (Bool-cases (text_eq j k)) [
  | inl hit ↦ rw hit refl
  | inr miss ↦ rw miss (ap (field j (serialize (file_of e))) (set_member-file_fields k d m))
]

pub member-file_fields-none :
    (k : Text) (m : Records) → find k m ≡ none → member k (file_fields m) ≡ none
unfolding member file_fields find
member-file_fields-none k [] h = refl
member-file_fields-none k ((j, e) ∷ m) h = elim (Bool-cases (text_eq j k)) [
  | inl hit ↦ absurd (let x = rw (hit, find) at h in cc)
  | inr miss ↦ rw miss (member-file_fields-none k m (rw (miss, find) at h))
]

pub member-file_fields-some :
    (k : Text) (m : Records) (d : DeliveryRecord)
    → find k m ≡ some d
    → member k (file_fields m) ≡ some (serialize (file_of d))
unfolding member file_fields find
member-file_fields-some k [] d h = absurd (cc)
member-file_fields-some k ((j, e) ∷ m) d h = elim (Bool-cases (text_eq j k)) [
  | inl hit ↦
      let x = rw (hit, find) at h in
      let same : e ≡ d = cc in rw hit (ap (λ y. some (serialize (file_of y))) same)
  | inr miss ↦ rw miss (member-file_fields-some k m d (rw (miss, find) at h))
]

module _ (platform : Platform) where
  pub find-IsFiled :
      (k : Text) (m : Records) (d : DeliveryRecord)
      → AllFiled platform m
      → find k m ≡ some d
      → (d.key ≡ k) × IsFiled platform (file_of d)
  unfolding find
  find-IsFiled k [] d filed h = absurd (cc)
  find-IsFiled k ((j, e) ∷ m) d (first, rest) h = elim (Bool-cases (text_eq j k)) [
    | inl hit ↦
        let x = rw (hit, find) at h in
        let same : e ≡ d = cc in
        let key = text_eq→eq j k hit in
        subst (λ y. (y.key ≡ k) × IsFiled platform (file_of y)) same (first.0 ∙ key, first.1)
    | inr miss ↦ find-IsFiled k m d rest (rw (miss, find) at h)
  ]

  pub insert-AllFiled :
      (k : Text) (d : DeliveryRecord) (m : Records)
      → d.key ≡ k
      → IsFiled platform (file_of d)
      → AllFiled platform m
      → AllFiled platform (insert k d m)
  unfolding insert
  insert-AllFiled k d [] key f filed = ((key, f), tt)
  insert-AllFiled k d ((j, e) ∷ m) key f (first, rest) = elim (Bool-cases (text_eq j k)) [
    | inl hit ↦ rw hit ((key ∙ sym (text_eq→eq j k hit), f), rest)
    | inr miss ↦ rw miss (first, insert-AllFiled k d m key f rest)
  ]

  check_records-ok :
      (m : Records) → AllFiled platform m → check_records platform (file_fields m) ≡ ok tt
  unfolding check_records file_fields
  check_records-ok [] filed = refl
  check_records-ok ((k, d) ∷ m) ((key, f), rest) =
      let same : text_eq d.key k ≡ true = ap (λ x. text_eq x k) key ∙ text_eq_refl k in
      rw (deserialize-file_of platform d f) (rw same (check_records-ok m rest))

  -- The file holds the records of the in-memory store.
  pub record Represents (disk : Disk) (m : Records) : Type 0 where
    pub reads : read platform disk ≡ ok (file_fields m)
    pub filed : AllFiled platform m

  pub holds-Represents :
      (m : Records) → AllFiled platform m → Represents (holds (file_json (file_fields m))) m
  unfolding load_json text_eq
  holds-Represents m filed = record { reads = rw (check_records-ok m filed) refl; filed = filed }
