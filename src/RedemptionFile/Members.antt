-- ===== src/RedemptionFile/Members.antt =====
-- A member that is set on an object (apps/fulfillment-agent/src/redemption-store.ts).
use reapp_protocol.Common.{
  Bool-cases, Text, ap, arith, if◌then◌else◌, inl, inr, refl, some, sym, text_eq, text_eq_iff, ◌≡◌,
}
use reapp_protocol.Json.{Json, Fields, field, end, member}
use reapp_protocol.RedemptionFile.Schema.{set_member}

pub member-set_member :
    (j k : Text) (v : Json) (fs : Fields)
    → member j (set_member k v fs) ≡ (if text_eq k j then some v else member j fs)
unfolding member set_member
member-set_member j k v end = refl
member-set_member j k v (field i w fs) =
    ground (arith, text_eq_iff k j, text_eq_iff i k, text_eq_iff i j, member-set_member j k v fs)

-- Setting a member to the value that it has changes nothing.
pub set_member_same :
    (k : Text) (v : Json) (fs : Fields) → member k fs ≡ some v → set_member k v fs ≡ fs
unfolding member set_member
set_member_same k v end h = absurd (cc)
set_member_same k v (field j w fs) h = elim (Bool-cases (text_eq j k)) [
  | inl hit ↦
      let e = rw (hit, member) at h in
      let same : w ≡ v = cc in rw hit (ap (λ x. field j x fs) (sym same))
  | inr miss ↦ rw miss (ap (field j w) (set_member_same k v fs (rw (miss, member) at h)))
]
