-- ===== src/RedemptionFile/Once.antt =====
-- Sequences of calls on the file store, whatever its file holds and however its reads and writes
-- fail: how often a key is claimed (apps/fulfillment-agent/src/redemption-store.ts).
use reapp_protocol.Common.{
  Bool, Bool-cases, List, Option, Result-cases, Text, [], ap, arith, err, false, if◌then◌else◌, inl,
  inr, none, ok, refl, some, text_eq, text_eq→eq, true, ℕ, ◌+◌, ◌∙◌, ◌∷◌, ◌≡◌, ◌≤◌, ◌⊎◌,
}
use reapp_protocol.Json.{Json, Fields, Platform, member}
use reapp_protocol.DeliveryStore.{DeliveryState, RedemptionRecord}
use reapp_protocol.DeliveryStore.Claims.{Call, lookup_call, claim_call, complete_call}
use reapp_protocol.RedemptionFile.{
  Disk, Writing, written, fails_before, fails_after, Io, Claimed, claimed, load, write, find_record,
  claimed_of_state, fresh_json, unless_thrown, claim_found, claim,
}
use reapp_protocol.RedemptionFile.Schema.{
  set_member, Filed, FileError, FileRecord, serialize, deserialize,
}
use reapp_protocol.RedemptionFile.Written.{
  file_after, IsKnown, load-read, set_member-IsKnown, file_after-IsKnown,
}

-- One for a claim of the key that is granted.
abbrev granted : Text → Text → Filed Claimed → ℕ
granted key k (ok (claimed r)) = if text_eq k key then 1 else 0
granted key k _ = 0

module _ (platform : Platform) where
  abbrev granted_now : Text → Call → Io → Disk → ℕ
  granted_now key (claim_call r e t) io disk = granted key r.key (claim platform r e t io disk).0
  granted_now key _ io disk = 0

  unfoldable pub file_claims : Text → List (Call × Io) → Disk → ℕ
  unfolding file_after claim
  file_claims key [] disk = 0
  file_claims key ((call, io) ∷ calls) disk =
      granted_now key call io disk + file_claims key calls (file_after platform call io disk)

  -- A claim of the key is not granted, or the key is known from then on.
  GrantsOnce : Text → Text → Filed Claimed × Disk → Type 0
  GrantsOnce key k outcome = (granted key k outcome.0 ≡ 0) ⊎ IsKnown platform key outcome.1

  granted_le : (key k : Text) (reply : Filed Claimed) → granted key k reply ≤ 1
  granted_le key k (ok (claimed r)) = ground arith
  granted_le key k (ok (Claimed.executing r)) = omega arith
  granted_le key k (ok (Claimed.completed r)) = omega arith
  granted_le key k (ok Claimed.conflict) = omega arith
  granted_le key k (err e) = omega arith

  granted-claimed_of_state :
      (key k : Text) (s : DeliveryState) (r : FileRecord)
      → granted key k (ok (claimed_of_state s r)) ≡ 0
  unfolding claimed_of_state
  granted-claimed_of_state key k DeliveryState.executing r = refl
  granted-claimed_of_state key k (DeliveryState.completed response) r = refl

  granted-stored :
      (key k : Text) (same : Bool) (s : DeliveryState) (r : FileRecord)
      → granted key k (ok (if same then claimed_of_state s r else Claimed.conflict)) ≡ 0
  granted-stored key k true s r = granted-claimed_of_state key k s r
  granted-stored key k false s r = refl

  unless_thrown-GrantsOnce :
      {A : Type 0} (key k : Text) (r : Filed A) (rest : A → Filed Claimed × Disk) (disk : Disk)
      → ((a : A) → r ≡ ok a → GrantsOnce key k (rest a))
      → GrantsOnce key k (unless_thrown platform r rest disk)
  unfolding GrantsOnce
  unless_thrown-GrantsOnce key k (err e) rest disk h = inl refl
  unless_thrown-GrantsOnce key k (ok a) rest disk h = h a refl

  write-GrantsOnce :
      (key k : Text) (w : Writing) (v : Json) (records : Fields) (r : FileRecord) (disk : Disk)
      → GrantsOnce key k (write platform w (set_member k v records) (claimed r) disk)
  unfolding write GrantsOnce
  write-GrantsOnce key k written v records r disk = elim (Bool-cases (text_eq k key)) [
    | inl hit ↦ inr (set_member-IsKnown platform key k v records hit)
    | inr miss ↦ inl (rw miss refl)
  ]
  write-GrantsOnce key k fails_before v records r disk = inl refl
  write-GrantsOnce key k fails_after v records r disk = inl refl

  claim_found-GrantsOnce :
      (key : Text) (r : RedemptionRecord) (e : Text) (t : ℕ) (io : Io) (disk : Disk)
      (records : Fields) (stored : Option FileRecord)
      → GrantsOnce key r.key (claim_found platform r e t io disk records stored)
  unfolding GrantsOnce
  claim_found-GrantsOnce key r e t io disk records (some s) =
      inl (granted-stored key r.key (text_eq s.proof_digest r.proof_digest) s.state s)
  claim_found-GrantsOnce key r e t io disk records none =
      unless_thrown-GrantsOnce key r.key (deserialize platform (fresh_json r e t)) _ disk
        (λ checked _.
          write-GrantsOnce key r.key io.writing (serialize checked) records checked disk)

  claim-GrantsOnce :
      (key : Text) (r : RedemptionRecord) (e : Text) (t : ℕ) (io : Io) (disk : Disk)
      → GrantsOnce key r.key (claim platform r e t io disk)
  unfolding claim
  claim-GrantsOnce key r e t io disk =
      unless_thrown-GrantsOnce key r.key (load platform io disk) _ disk (λ records _.
        unless_thrown-GrantsOnce key r.key (find_record platform r.key records) _ disk
          (λ stored _. claim_found-GrantsOnce key r e t io disk records stored))

  granted_other :
      (key k : Text) (reply : Filed Claimed) → text_eq k key ≡ false → granted key k reply ≡ 0
  granted_other key k (ok (claimed r)) miss = rw miss refl
  granted_other key k (ok (Claimed.executing r)) miss = refl
  granted_other key k (ok (Claimed.completed r)) miss = refl
  granted_other key k (ok Claimed.conflict) miss = refl
  granted_other key k (err e) miss = refl

  find_record-some :
      (k : Text) (records : Fields) (v : Json)
      → member k records ≡ some v
      → ((e : FileError) × (find_record platform k records ≡ err e))
        ⊎ ((s : FileRecord) × (find_record platform k records ≡ ok (some s)))
  unfolding find_record
  find_record-some k records v bound = elim (Result-cases (deserialize platform v)) [
    | inl (e, failed) ↦ inl (e, rw (bound, find_record) (rw failed refl))
    | inr (s, parsed) ↦ inr (s, rw (bound, find_record) (rw parsed refl))
  ]

  granted_known :
      (key : Text) (r : RedemptionRecord) (e : Text) (t : ℕ) (io : Io) (disk : Disk)
      → IsKnown platform key disk
      → granted key r.key (claim platform r e t io disk).0 ≡ 0
  unfolding claim IsKnown
  granted_known key r e t io disk known = elim (Bool-cases (text_eq r.key key)) [
    | inr miss ↦ granted_other key r.key (claim platform r e t io disk).0 miss
    | inl hit ↦ elim (Result-cases (load platform io disk)) [
      | inl (code, failed) ↦ rw failed refl
      | inr (records, loads) ↦
          let (v, bound) = known records (load-read platform io disk records loads) in
          let found = ap (λ k. member k records) (text_eq→eq r.key key hit) ∙ bound in
          elim (find_record-some r.key records v found) [
            | inl (code, failed) ↦ rw (loads, failed) refl
            | inr (s, stored) ↦
                rw (loads, stored)
                  (granted-stored key r.key (text_eq s.proof_digest r.proof_digest) s.state s)
          ]
    ]
  ]

  granted_now_known :
      (key : Text) (call : Call) (io : Io) (disk : Disk)
      → IsKnown platform key disk
      → granted_now key call io disk ≡ 0
  granted_now_known key (lookup_call k d) io disk known = refl
  granted_now_known key (claim_call r e t) io disk known = granted_known key r e t io disk known
  granted_now_known key (complete_call c) io disk known = refl

  file_claims_known :
      (key : Text) (calls : List (Call × Io)) (disk : Disk)
      → IsKnown platform key disk
      → file_claims key calls disk ≡ 0
  unfolding file_claims
  file_claims_known key [] disk known = refl
  file_claims_known key ((call, io) ∷ calls) disk known =
      let rest =
        file_claims_known key calls (file_after platform call io disk)
          (file_after-IsKnown platform key call io disk known) in
      omega (arith, granted_now_known key call io disk known, rest)

  granted_now-le :
      (key : Text) (call : Call) (io : Io) (disk : Disk) → granted_now key call io disk ≤ 1
  granted_now-le key (lookup_call k d) io disk = omega arith
  granted_now-le key (claim_call r e t) io disk =
      granted_le key r.key (claim platform r e t io disk).0
  granted_now-le key (complete_call c) io disk = omega arith

  granted_now-cases :
      (key : Text) (call : Call) (io : Io) (disk : Disk)
      → (granted_now key call io disk ≡ 0) ⊎ IsKnown platform key (file_after platform call io disk)
  unfolding file_after GrantsOnce
  granted_now-cases key (lookup_call k d) io disk = inl refl
  granted_now-cases key (claim_call r e t) io disk = claim-GrantsOnce key r e t io disk
  granted_now-cases key (complete_call c) io disk = inl refl

  -- Of any sequence of calls, whatever the file holds at first and wherever a read fails or a write
  -- throws before or after the new file is in place, at most one is granted a claim of a key.
  pub file_claims-le-one :
      (key : Text) (calls : List (Call × Io)) (disk : Disk) → file_claims key calls disk ≤ 1
  unfolding file_claims
  file_claims-le-one key [] disk = omega arith
  file_claims-le-one key ((call, io) ∷ calls) disk = elim (granted_now-cases key call io disk) [
    | inl none_granted ↦
        omega (arith, none_granted, file_claims-le-one key calls (file_after platform call io disk))
    | inr known ↦ omega (
      arith,
      granted_now-le key call io disk,
      file_claims_known key calls (file_after platform call io disk) known,
    )
  ]
