-- ===== src/RedemptionFile/Refinement.antt =====
-- The file store against the in-memory store of packages/express-middleware/src/bound-store.ts,
-- where reads and writes succeed (apps/fulfillment-agent/src/redemption-store.ts).
use reapp_protocol.Common.{
  All, Bool, Bool-cases, List, Option-cases, Text, [], ap, false, find, if◌then◌else◌, inl, inr,
  insert, none, ok, refl, some, text_eq, true, ℕ, ◌&&◌, ◌∷◌, ◌≡◌,
}
use reapp_protocol.Json.{Platform}
use reapp_protocol.DeliveryStore.{
  DeliveryState, DeliveryRecord, RedemptionRecord, Completion, Records, Lookup, Claim, Complete,
  freeze_executing, lookup_of_state, responses_equal, complete_record,
}
use reapp_protocol.DeliveryStore.{
  lookup as memory_lookup, claim as memory_claim, complete as memory_complete, claim_of_state,
}
use reapp_protocol.DeliveryStore.Claims.{Call, lookup_call, claim_call, complete_call}
use reapp_protocol.RedemptionFile.{
  Disk, written, Io, Found, missing, Claimed, Done, load, write, find_record, is_inherited,
  found_of_state, claimed_of_state, fresh_json, lookup, claim, complete, complete_state,
}
use reapp_protocol.RedemptionFile.Schema.{Filed, serialize, deserialize}
use reapp_protocol.RedemptionFile.RoundTrip.{IsFiled, IsResponse, check_response-ok}
use reapp_protocol.RedemptionFile.Represents.{
  deserialize-file_of, file_of, file_fields, AllFiled, set_member-file_fields,
  member-file_fields-none, member-file_fields-some, find-IsFiled, insert-AllFiled, Represents,
  holds-Represents,
}

pub data Answer : Type 0 where
  lookup_answer : Filed Found → Answer
  claim_answer : Filed Claimed → Answer
  complete_answer : Filed Done → Answer

module _ (platform : Platform) where
  abbrev smooth : Io
  smooth = record { reads = true; writing = written }

  abbrev filed_lookup : Lookup → Found
  filed_lookup Lookup.missing = missing
  filed_lookup Lookup.conflict = Found.conflict
  filed_lookup (Lookup.executing d) = Found.executing (file_of d)
  filed_lookup (Lookup.completed d) = Found.completed (file_of d)

  abbrev filed_claim : Claim → Claimed
  filed_claim (Claim.claimed d) = Claimed.claimed (file_of d)
  filed_claim (Claim.executing d) = Claimed.executing (file_of d)
  filed_claim (Claim.completed d) = Claimed.completed (file_of d)
  filed_claim Claim.conflict = Claimed.conflict

  abbrev filed_complete : Complete → Done
  filed_complete (Complete.completed d) = Done.completed (file_of d)
  filed_complete Complete.conflict = Done.conflict

  load-smooth :
      (disk : Disk) (m : Records)
      → Represents platform disk m
      → load platform smooth disk ≡ ok (file_fields m)
  unfolding load
  load-smooth disk m is = is.reads

  find_record-none :
      (k : Text) (m : Records)
      → is_inherited k ≡ false
      → find k m ≡ none
      → find_record platform k (file_fields m) ≡ ok none
  unfolding find_record
  find_record-none k m own h = rw (member-file_fields-none k m h, find_record) (rw own refl)

  find_record-filed :
      (k : Text) (m : Records) (d : DeliveryRecord)
      → AllFiled platform m
      → find k m ≡ some d
      → find_record platform k (file_fields m) ≡ ok (some (file_of d))
  unfolding find_record
  find_record-filed k m d filed h =
      rw (member-file_fields-some k m d h, find_record)
        (rw (deserialize-file_of platform d (find-IsFiled platform k m d filed h).1) refl)

  found-lookup :
      (same : Bool) (s : DeliveryState) (d : DeliveryRecord)
      → (if same then found_of_state s (file_of d) else Found.conflict)
        ≡ filed_lookup (if same then lookup_of_state s d else Lookup.conflict)
  unfolding found_of_state lookup_of_state
  found-lookup true DeliveryState.executing d = refl
  found-lookup true (DeliveryState.completed r) d = refl
  found-lookup false s d = refl

  lookup-memory :
      (k digest : Text) (disk : Disk) (m : Records)
      → is_inherited k ≡ false
      → Represents platform disk m
      → (lookup platform k digest smooth disk).0 ≡ ok (filed_lookup (memory_lookup k digest m))
  unfolding lookup memory_lookup
  lookup-memory k digest disk m own is = elim (Option-cases (find k m)) [
    | inl fresh ↦
        rw (load-smooth disk m is, find_record-none k m own fresh, fresh, memory_lookup) refl
    | inr (d, stored) ↦
        rw (load-smooth disk m is, find_record-filed k m d is.filed stored, stored, memory_lookup)
          (ap ok (found-lookup (text_eq d.proof_digest digest) d.state d))
  ]

  claimed-claim :
      (same : Bool) (s : DeliveryState) (d : DeliveryRecord)
      → (if same then claimed_of_state s (file_of d) else Claimed.conflict)
        ≡ filed_claim (if same then claim_of_state s d else Claim.conflict)
  unfolding claimed_of_state claim_of_state
  claimed-claim true DeliveryState.executing d = refl
  claimed-claim true (DeliveryState.completed r) d = refl
  claimed-claim false s d = refl

  -- A step of the file store and one of the in-memory store answer alike, and still agree.
  record Simulates {R : Type 0} (outcome : Filed R × Disk) (reply : R) (m : Records) : Type 0 where
    answers : outcome.0 ≡ ok reply
    represents : Represents platform outcome.1 m

  claim-memory :
      (r : RedemptionRecord) (e : Text) (t : ℕ) (disk : Disk) (m : Records)
      → is_inherited r.key ≡ false
      → Represents platform disk m
      → IsFiled platform (file_of (freeze_executing r e t))
      → Simulates
          (claim platform r e t smooth disk)
          (filed_claim (memory_claim r e t m).0)
          (memory_claim r e t m).1
  unfolding claim freeze_executing fresh_json serialize memory_claim text_eq write
  claim-memory r e t disk m own is valid = elim (Option-cases (find r.key m)) [
    | inl fresh ↦
        let d = freeze_executing r e t in
        let stored = insert-AllFiled platform r.key d m refl valid is.filed in
        let parsed : deserialize platform (fresh_json r e t) ≡ ok (file_of d) =
          deserialize-file_of platform d valid in
        rw (load-smooth disk m is, find_record-none r.key m own fresh, fresh, memory_claim)
          (rw (parsed, set_member-file_fields r.key d m)
            (record {
              answers = refl;
              represents = holds-Represents platform (insert r.key d m) stored;
            }))
    | inr (d, stored) ↦
        rw
          (load-smooth disk m is, find_record-filed r.key m d is.filed stored, stored, memory_claim)
          (elim (Bool-cases (text_eq d.proof_digest r.proof_digest)) [
            | inl hit ↦
                rw hit (record { answers = ap ok (claimed-claim true d.state d); represents = is })
            | inr miss ↦ rw miss (record { answers = refl; represents = is })
          ])
  ]

  complete_state-memory :
      (c : Completion) (disk : Disk) (m : Records) (d : DeliveryRecord) (s : DeliveryState)
      → Represents platform disk m
      → IsResponse platform c.response
      → find c.key m ≡ some d
      → Simulates
          (complete_state platform c smooth disk (file_fields m) (file_of d) s c.response)
          (filed_complete (complete_record c d s m).0)
          (complete_record c d s m).1
  unfolding complete_record write
  complete_state-memory c disk m d (DeliveryState.completed r) is valid stored =
      elim (Bool-cases (responses_equal r c.response)) [
        | inl same ↦ rw (same, complete_record) (record { answers = refl; represents = is })
        | inr other ↦ rw (other, complete_record) (record { answers = refl; represents = is })
      ]
  complete_state-memory c disk m d DeliveryState.executing is valid stored =
      let done = record d { state = DeliveryState.completed c.response } in
      let (key, filed) = find-IsFiled platform c.key m d is.filed stored in
      let finished : IsFiled platform (file_of done) = record {
        proof_digest = filed.proof_digest;
        execution_id = filed.execution_id;
        started_at = filed.started_at;
        payment = filed.payment;
        state = valid;
      } in
      let kept = insert-AllFiled platform c.key done m key finished is.filed in
      rw (set_member-file_fields c.key done m) (record {
        answers = refl;
        represents = holds-Represents platform (insert c.key done m) kept;
      })

  complete-memory :
      (c : Completion) (disk : Disk) (m : Records)
      → is_inherited c.key ≡ false
      → Represents platform disk m
      → IsResponse platform c.response
      → Simulates
          (complete platform c smooth disk)
          (filed_complete (memory_complete c m).0)
          (memory_complete c m).1
  unfolding complete memory_complete
  complete-memory c disk m own is valid = elim (Option-cases (find c.key m)) [
    | inl absent ↦
        rw (load-smooth disk m is, find_record-none c.key m own absent, absent, memory_complete)
          (record { answers = refl; represents = is })
    | inr (d, stored) ↦
        rw
          (
            load-smooth disk m is,
            find_record-filed c.key m d is.filed stored,
            stored,
            memory_complete,
          )
          (elim (Bool-cases
            (text_eq d.proof_digest c.proof_digest && text_eq d.execution_id c.execution_id)) [
              | inl own ↦ rw own (
                  rw (check_response-ok platform c.response valid)
                    (complete_state-memory c disk m d d.state is valid stored))
              | inr other ↦ rw other (record { answers = refl; represents = is })
            ])
  ]

  -- A call's key is no member that every object inherits, and what a claim or a completion hands to
  -- the store passes the tests of the file.
  abbrev pub IsStorable : Call → Type 0
  IsStorable (lookup_call k d) = is_inherited k ≡ false
  IsStorable (claim_call r e t) =
      (is_inherited r.key ≡ false) × IsFiled platform (file_of (freeze_executing r e t))
  IsStorable (complete_call c) = (is_inherited c.key ≡ false) × IsResponse platform c.response

  unfoldable pub file_step : Call → Disk → Answer × Disk
  unfolding lookup claim complete
  file_step (lookup_call k d) disk =
      let (reply, disk') = lookup platform k d smooth disk in (lookup_answer reply, disk')
  file_step (claim_call r e t) disk =
      let (reply, disk') = claim platform r e t smooth disk in (claim_answer reply, disk')
  file_step (complete_call c) disk =
      let (reply, disk') = complete platform c smooth disk in (complete_answer reply, disk')

  unfoldable pub memory_step : Call → Records → Answer × Records
  memory_step (lookup_call k d) m = (lookup_answer (ok (filed_lookup (memory_lookup k d m))), m)
  memory_step (claim_call r e t) m =
      let (reply, m') = memory_claim r e t m in (claim_answer (ok (filed_claim reply)), m')
  memory_step (complete_call c) m =
      let (reply, m') = memory_complete c m in (complete_answer (ok (filed_complete reply)), m')

  unfoldable pub file_answers : List Call → Disk → List Answer
  unfolding file_step
  file_answers [] disk = []
  file_answers (call ∷ calls) disk =
      let (reply, disk') = file_step call disk in reply ∷ file_answers calls disk'

  unfoldable pub memory_answers : List Call → Records → List Answer
  unfolding memory_step
  memory_answers [] m = []
  memory_answers (call ∷ calls) m =
      let (reply, m') = memory_step call m in reply ∷ memory_answers calls m'

  step-memory :
      (call : Call) (disk : Disk) (m : Records)
      → IsStorable call
      → Represents platform disk m
      → ((file_step call disk).0 ≡ (memory_step call m).0)
        × Represents platform (file_step call disk).1 (memory_step call m).1
  unfolding file_step memory_step lookup
  step-memory (lookup_call k d) disk m own is =
      (ap lookup_answer (lookup-memory k d disk m own is), is)
  step-memory (claim_call r e t) disk m (own, valid) is =
      let s = claim-memory r e t disk m own is valid in (ap claim_answer s.answers, s.represents)
  step-memory (complete_call c) disk m (own, valid) is =
      let s = complete-memory c disk m own is valid in (ap complete_answer s.answers, s.represents)

  -- Where the file can be read and written, the file store answers every sequence of calls as the
  -- in-memory store does on the records that the file holds, if no key is a member that every object
  -- inherits, and the records that are claimed and the responses that are stored pass the tests of
  -- the file: their digests, ids, times, positive amounts and bytes.
  pub file_answers-memory_answers :
      (calls : List Call) (disk : Disk) (m : Records)
      → All IsStorable calls
      → Represents platform disk m
      → file_answers calls disk ≡ memory_answers calls m
  unfolding file_answers memory_answers
  file_answers-memory_answers [] disk m valid is = refl
  file_answers-memory_answers (call ∷ calls) disk m (first, rest) is =
      let (same, still) = step-memory call disk m first is in
      let later =
        file_answers-memory_answers calls (file_step call disk).1 (memory_step call m).1 rest
          still in
      cc
