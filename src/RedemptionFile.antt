-- ===== src/RedemptionFile.antt =====
-- The file store of the fulfillment agent: `FileBoundRedemptionStore` of
-- apps/fulfillment-agent/src/redemption-store.ts. The file's text stands for the JSON value that it
-- is parsed to. Its records are members of an ordinary object, which inherits others.
pub mod Schema
pub mod Members
pub mod Written
pub mod Once
pub mod RoundTrip
pub mod Reread
pub mod Represents
pub mod Refinement
use reapp_protocol.Common.{
  ==_iff, >>=-eq-ok, All, Bool, Bool-cases, List, List-cases, Number, Option, Option-cases, Result,
  Result-cases, String, Text, [], all, and3_elim, and4_elim, and_elim, ap, arith, conjunction,
  conjunction→All, drop, err, false, find, find-insert, find-insert_self, find-remove,
  find_of_not_has, guard, guard-ok, guard_then, has, has-eq-find, has-insert, if◌then◌else◌, inl,
  inr, insert, int, is_digit, is_digits, is_exact, is_hex64, is_hex_digit, is_natural_safe,
  is_positive_safe, is_space, leb, leb→le, length, length-append, length-replicate, le→leb, lit,
  lower_unit, ltb, ltb→lt, lt→ltb, map, max_safe_integer, natural, natural_pos, ne_of_text_eq,
  negsuc, non_integer, none, not, ok, or_elim_false, pos, refl, remove, replicate, some, suc, sym,
  take, text_eq, text_eq_iff, text_eq_refl, text_eq→eq, text_ne, to_lower, to_lower_idempotent,
  to_upper, trim, trim_start, true, upper_unit, zero, ℕ, ℤ, ◌%◌, ◌&&◌, ◌*◌, ◌++◌, ◌+◌, ◌-◌, ◌/◌,
  ◌<◌, ◌==◌, ◌>>=?◌, ◌>>=◌, ◌>>◌, ◌^◌, ◌||◌, ◌↔◌, ◌∙◌, ◌∷◌, ◌≡◌, ◌≢◌, ◌≤◌, ◌⊎◌,
}
use reapp_protocol.Json.{
  Json, num, str, obj, Items, nil, cons, Fields, field, end, Platform, member,
}
use reapp_protocol.Amounts.{show}
use reapp_protocol.DeliveryStore.{
  StoredResponse, DeliveryState, RedemptionRecord, Completion, responses_equal,
}
use reapp_protocol.RedemptionFile.Schema.{
  FileError, set_member, bad_record, unreadable, bad_schema, key_differs, write_failed, Filed,
  FileRecord, check_response, serialize, deserialize, payment_fields,
}

pub data Disk : Type 0 where
  absent : Disk
  unparsable : Disk
  holds : Json → Disk

-- How the outside goes during an operation: whether the file can be read, and how far a write comes.
-- A write may throw before the new file is renamed into place, and after.
pub data Writing : Type 0 where
  written fails_before fails_after : Writing

pub record Io : Type 0 where
  pub reads : Bool
  pub writing : Writing

pub data Found : Type 0 where
  missing conflict : Found
  executing completed : FileRecord → Found

pub data Claimed : Type 0 where
  claimed executing completed : FileRecord → Claimed
  conflict : Claimed

pub data Done : Type 0 where
  completed : FileRecord → Done
  conflict : Done

-- The members that every object inherits from Object.prototype.
abbrev inherited_names : List Text
inherited_names =
    lit "constructor"
    ∷ lit "__proto__"
    ∷ lit "toString"
    ∷ lit "toLocaleString"
    ∷ lit "valueOf"
    ∷ lit "hasOwnProperty"
    ∷ lit "isPrototypeOf"
    ∷ lit "propertyIsEnumerable"
    ∷ lit "__defineGetter__"
    ∷ lit "__defineSetter__"
    ∷ lit "__lookupGetter__"
    ∷ lit "__lookupSetter__"
    ∷ []

abbrev is_one_of : Text → List Text → Bool
is_one_of key [] = false
is_one_of key (name ∷ names) = text_eq name key || is_one_of key names

unfoldable pub is_inherited : Text → Bool
is_inherited key = is_one_of key inherited_names

abbrev pub file_json : Fields → Json
file_json records =
    obj (field (lit "version") (num (int (pos 2))) (field (lit "records") (obj records) end))

-- An array is an object whose keys are its indices.
abbrev pub indexed : ℕ → Items → Fields
unfolding show
indexed i nil = end
indexed i (cons v vs) = field (show i) v (indexed (suc i) vs)

unfoldable pub records_of : Option Json → Filed Fields
records_of (some (obj records)) = ok records
records_of (some (Json.arr items)) = ok (indexed 0 items)
records_of _ = err bad_schema

unfoldable pub is_version_two : Option Json → Bool
is_version_two (some (num (int (pos n)))) = n == 2
is_version_two _ = false

-- `{ kind: record.state, record }`
unfoldable pub found_of_state : DeliveryState → FileRecord → Found
found_of_state DeliveryState.executing r = Found.executing r
found_of_state (DeliveryState.completed _) r = Found.completed r

unfoldable pub claimed_of_state : DeliveryState → FileRecord → Claimed
claimed_of_state DeliveryState.executing r = Claimed.executing r
claimed_of_state (DeliveryState.completed _) r = Claimed.completed r

-- The record that a claim checks and stores, as JSON.
unfoldable pub fresh_json : RedemptionRecord → Text → ℕ → Json
unfolding payment_fields
fresh_json r execution_id started_at = obj (
    field (lit "key") (str r.key) (
      field (lit "proofDigest") (str r.proof_digest) (
        field (lit "payment") (obj (payment_fields r.payment)) (
          field (lit "executionId") (str execution_id) (
            field (lit "startedAt") (num (int (pos started_at)))
              (field (lit "state") (str (lit "executing")) end))))))

unfoldable pub is_executing : FileRecord → Bool
is_executing r = elim r.state [ DeliveryState.executing ↦ true | DeliveryState.completed _ ↦ false ]

module _ (platform : Platform) where
  unfoldable pub check_records : Fields → Filed (Unit {0})
  unfolding deserialize
  check_records end = ok tt
  check_records (field k v fs) = do
    r ← deserialize platform v
    guard (text_eq r.key k) key_differs
    check_records fs

  unfoldable pub load_json : Json → Filed Fields
  unfolding is_version_two records_of check_records member
  load_json (obj fields) = do
    guard (is_version_two (member (lit "version") fields)) bad_schema
    records ← records_of (member (lit "records") fields)
    check_records records
    ok records
  load_json _ = err bad_schema

  abbrev pub read : Disk → Filed Fields
  read absent = ok end
  read unparsable = err bad_schema
  read (holds j) = load_json j

  unfoldable pub load : Io → Disk → Filed Fields
  unfolding load_json
  load io disk = if io.reads then read disk else err unreadable

  -- `write`, with the reply where it does not throw.
  unfoldable pub write : {A : Type 0} → Writing → Fields → A → Disk → Filed A × Disk
  write written records reply disk = (ok reply, holds (file_json records))
  write fails_before records reply disk = (err write_failed, disk)
  write fails_after records reply disk = (err write_failed, holds (file_json records))

  -- `deserialize(file.records[key])` where there is such a member. What is inherited is a function
  -- or an object without a key, which `deserialize` refuses.
  unfoldable pub find_record : Text → Fields → Filed (Option FileRecord)
  unfolding member deserialize is_inherited
  find_record key records = elim (member key records) [
    | none ↦ if is_inherited key then err bad_record else ok none
    | some v ↦ deserialize platform v >>= (λ r. ok (some r))
  ]

  abbrev pub found : Text → Option FileRecord → Found
  found proof_digest none = missing
  found proof_digest (some r) =
      if text_eq r.proof_digest proof_digest then found_of_state r.state r else conflict

  unfoldable pub lookup : Text → Text → Io → Disk → Filed Found × Disk
  unfolding load find_record found_of_state
  lookup key proof_digest io disk = (
    (do records ← load io disk; stored ← find_record key records; ok (found proof_digest stored)),
    disk,
  )

  -- The two ways to throw leave the file as it is.
  abbrev pub unless_thrown : {A B : Type 0} → Filed A → (A → Filed B × Disk) → Disk → Filed B × Disk
  unless_thrown (err e) rest disk = (err e, disk)
  unless_thrown (ok a) rest disk = rest a

  abbrev pub claim_found :
      RedemptionRecord → Text → ℕ → Io → Disk → Fields → Option FileRecord → Filed Claimed × Disk
  claim_found r execution_id started_at io disk records (some stored) =
      let same = text_eq stored.proof_digest r.proof_digest in
      (ok (if same then claimed_of_state stored.state stored else Claimed.conflict), disk)
  claim_found r execution_id started_at io disk records none =
      unless_thrown (deserialize platform (fresh_json r execution_id started_at))
        (λ checked.
          write io.writing (set_member r.key (serialize checked) records) (claimed checked) disk)
        disk

  unfoldable pub claim : RedemptionRecord → Text → ℕ → Io → Disk → Filed Claimed × Disk
  unfolding load find_record
  claim r execution_id started_at io disk =
      unless_thrown (load io disk)
        (λ records.
          unless_thrown (find_record r.key records)
            (λ stored. claim_found r execution_id started_at io disk records stored) disk)
        disk

  abbrev pub complete_state :
      Completion
      → Io
      → Disk
      → Fields
      → FileRecord
      → DeliveryState
      → StoredResponse
      → Filed Done × Disk
  complete_state c io disk records existing (DeliveryState.completed response) checked =
      (ok (if responses_equal response checked then completed existing else Done.conflict), disk)
  complete_state c io disk records existing DeliveryState.executing checked =
      let done = record existing { state = DeliveryState.completed checked } in
      write io.writing (set_member c.key (serialize done) records) (completed done) disk

  abbrev pub complete_found :
      Completion → Io → Disk → Fields → Option FileRecord → Filed Done × Disk
  complete_found c io disk records none = (ok Done.conflict, disk)
  complete_found c io disk records (some existing) =
      if text_eq existing.proof_digest c.proof_digest
        && text_eq existing.execution_id c.execution_id
      then (unless_thrown (check_response platform c.response)
          (λ checked. complete_state c io disk records existing existing.state checked) disk)
      else (ok Done.conflict, disk)

  unfoldable pub complete : Completion → Io → Disk → Filed Done × Disk
  unfolding load find_record
  complete c io disk =
      unless_thrown (load io disk)
        (λ records.
          unless_thrown (find_record c.key records)
            (λ stored. complete_found c io disk records stored) disk)
        disk

  -- The entries of the file whose delivery is pending.
  unfoldable pub executing_records : Fields → Filed (List FileRecord)
  unfolding deserialize is_executing
  executing_records end = ok []
  executing_records (field k v fs) = do
    r ← deserialize platform v
    rest ← executing_records fs
    ok (if is_executing r then r ∷ rest else rest)

  unfoldable pub list_executing : Io → Disk → Filed (List FileRecord)
  unfolding load executing_records
  list_executing io disk = load io disk >>= executing_records
