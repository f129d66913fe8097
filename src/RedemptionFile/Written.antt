-- ===== src/RedemptionFile/Written.antt =====
-- What a call may make of the file, and that a key that is bound stays bound
-- (apps/fulfillment-agent/src/redemption-store.ts).
use reapp_protocol.Common.{
  >>=-eq-ok, Bool-cases, Option, Text, ap, err, inl, inr, none, ok, refl, some, text_eq, true, ℕ,
  ◌&&◌, ◌∙◌, ◌≡◌,
}
use reapp_protocol.Json.{Json, Fields, Platform, member}
use reapp_protocol.DeliveryStore.{StoredResponse, DeliveryState, RedemptionRecord, Completion}
use reapp_protocol.DeliveryStore.Claims.{Call, lookup_call, claim_call, complete_call}
use reapp_protocol.RedemptionFile.{
  Disk, holds, Writing, written, fails_before, fails_after, Io, claimed, file_json, check_records,
  load_json, read, load, write, find_record, fresh_json, unless_thrown, claim_found, claim,
  complete_state, complete_found, complete,
}
use reapp_protocol.RedemptionFile.Members.{member-set_member}
use reapp_protocol.RedemptionFile.Schema.{
  set_member, Filed, FileRecord, serialize, deserialize, check_response,
}

-- What a call may make of the file: one member of what it holds is set.
data Written (platform : Platform) (disk : Disk) : Disk → Type 0 where
  unchanged : Written platform disk disk
  rewritten :
      (k : Text) (v : Json) (records : Fields)
      → read platform disk ≡ ok records
      → Written platform disk (holds (file_json (set_member k v records)))

module _ (platform : Platform) where
  unfoldable pub file_after : Call → Io → Disk → Disk
  unfolding claim complete
  file_after (lookup_call k d) io disk = disk
  file_after (claim_call r e t) io disk = (claim platform r e t io disk).1
  file_after (complete_call c) io disk = (complete platform c io disk).1

  -- Wherever the file can be read, it has a record under the key.
  unfoldable pub IsKnown : Text → Disk → Type 0
  IsKnown key disk =
      (records : Fields)
      → read platform disk ≡ ok records
      → (v : Json) × (member key records ≡ some v)

  read-file_json :
      (records found : Fields)
      → read platform (holds (file_json records)) ≡ ok found
      → found ≡ records
  unfolding load_json text_eq
  read-file_json records found h =
      let (_, _, same) = >>=-eq-ok (check_records platform records) _ h in cc

  pub load-read :
      (io : Io) (disk : Disk) (records : Fields)
      → load platform io disk ≡ ok records
      → read platform disk ≡ ok records
  unfolding load
  load-read io disk records h = elim (Bool-cases io.reads) [
    | inl reads ↦ rw (reads, load) at h
    | inr fails ↦ absurd (let e = rw (fails, load) at h in cc)
  ]

  write-Written :
      {A : Type 0} (w : Writing) (k : Text) (v : Json) (records : Fields) (reply : A) (disk : Disk)
      → read platform disk ≡ ok records
      → Written platform disk (write platform w (set_member k v records) reply disk).1
  unfolding write
  write-Written written k v records reply disk h = rewritten k v records h
  write-Written fails_before k v records reply disk h = unchanged
  write-Written fails_after k v records reply disk h = rewritten k v records h

  Written-IsKnown :
      (key : Text) (disk disk' : Disk)
      → Written platform disk disk'
      → IsKnown key disk
      → IsKnown key disk'
  unfolding IsKnown
  Written-IsKnown key disk _ unchanged known = known
  Written-IsKnown key disk _ (rewritten k v records loads) known = λ found reads.
      let same = read-file_json (set_member k v records) found reads in
      let (w, before) = known records loads in
      elim (Bool-cases (text_eq k key)) [
        | inl hit ↦ (v, ap (member key) same ∙ member-set_member key k v records ∙ (rw hit refl))
        | inr miss ↦
            (w, ap (member key) same ∙ member-set_member key k v records ∙ (rw miss before))
      ]

  pub set_member-IsKnown :
      (key k : Text) (v : Json) (records : Fields)
      → text_eq k key ≡ true
      → IsKnown key (holds (file_json (set_member k v records)))
  unfolding IsKnown
  set_member-IsKnown key k v records hit = λ found reads.
      let same = read-file_json (set_member k v records) found reads in
      (v, ap (member key) same ∙ member-set_member key k v records ∙ (rw hit refl))

  unless_thrown-Written :
      {A B : Type 0} (r : Filed A) (rest : A → Filed B × Disk) (disk : Disk)
      → ((a : A) → r ≡ ok a → Written platform disk (rest a).1)
      → Written platform disk (unless_thrown platform r rest disk).1
  unless_thrown-Written (err e) rest disk h = unchanged
  unless_thrown-Written (ok a) rest disk h = h a refl

  claim_found-Written :
      (r : RedemptionRecord) (e : Text) (t : ℕ) (io : Io) (disk : Disk) (records : Fields)
      (stored : Option FileRecord)
      → read platform disk ≡ ok records
      → Written platform disk (claim_found platform r e t io disk records stored).1
  claim_found-Written r e t io disk records (some s) h = unchanged
  claim_found-Written r e t io disk records none h =
      unless_thrown-Written (deserialize platform (fresh_json r e t)) _ disk (λ checked _.
        write-Written io.writing r.key (serialize checked) records (claimed checked) disk h)

  claim-Written :
      (r : RedemptionRecord) (e : Text) (t : ℕ) (io : Io) (disk : Disk)
      → Written platform disk (claim platform r e t io disk).1
  unfolding claim
  claim-Written r e t io disk =
      unless_thrown-Written (load platform io disk) _ disk (λ records loads.
        unless_thrown-Written (find_record platform r.key records) _ disk (λ stored _.
          claim_found-Written r e t io disk records stored (load-read io disk records loads)))

  complete_state-Written :
      (c : Completion) (io : Io) (disk : Disk) (records : Fields) (x : FileRecord)
      (state : DeliveryState) (checked : StoredResponse)
      → read platform disk ≡ ok records
      → Written platform disk (complete_state platform c io disk records x state checked).1
  complete_state-Written c io disk records x (DeliveryState.completed r) checked h = unchanged
  complete_state-Written c io disk records x DeliveryState.executing checked h =
      write-Written io.writing c.key _ records _ disk h

  complete_found-Written :
      (c : Completion) (io : Io) (disk : Disk) (records : Fields) (stored : Option FileRecord)
      → read platform disk ≡ ok records
      → Written platform disk (complete_found platform c io disk records stored).1
  complete_found-Written c io disk records none h = unchanged
  complete_found-Written c io disk records (some x) h =
      elim (Bool-cases
        (text_eq x.proof_digest c.proof_digest && text_eq x.execution_id c.execution_id)) [
          | inl own ↦ rw own (
              unless_thrown-Written (check_response platform c.response) _ disk
                (λ checked _. complete_state-Written c io disk records x x.state checked h))
          | inr other ↦ rw other unchanged
        ]

  complete-Written :
      (c : Completion) (io : Io) (disk : Disk)
      → Written platform disk (complete platform c io disk).1
  unfolding complete
  complete-Written c io disk =
      unless_thrown-Written (load platform io disk) _ disk (λ records loads.
        unless_thrown-Written (find_record platform c.key records) _ disk (λ stored _.
          complete_found-Written c io disk records stored (load-read io disk records loads)))

  pub file_after-IsKnown :
      (key : Text) (call : Call) (io : Io) (disk : Disk)
      → IsKnown key disk
      → IsKnown key (file_after call io disk)
  unfolding file_after
  file_after-IsKnown key (lookup_call k d) io disk known = known
  file_after-IsKnown key (claim_call r e t) io disk known =
      Written-IsKnown key disk _ (claim-Written r e t io disk) known
  file_after-IsKnown key (complete_call c) io disk known =
      Written-IsKnown key disk _ (complete-Written c io disk) known
