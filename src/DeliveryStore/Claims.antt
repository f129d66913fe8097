-- ===== src/DeliveryStore/Claims.antt =====
-- Sequences of calls on the in-memory store, in whatever order requests reach it: how a record
-- may change, and how often a key is claimed (packages/express-middleware/src/bound-store.ts).
use reapp_protocol.Common.{
  ℕ, Text, text_eq, text_eq→eq, find, find-insert, ◌≡◌, refl, ◌⊎◌, inl, inr, ◌+◌, ◌≤◌, Bool-cases,
  Option-cases, none, some, List, [], ◌∷◌, if◌then◌else◌, arith, text_eq_iff, ◌∙◌, ◌&&◌,
}
use reapp_protocol.DeliveryStore.{
  RedemptionRecord, DeliveryRecord, DeliveryState, executing, completed, StoredResponse, Completion,
  Records, Claim, claim, complete, complete_record, claimed, freeze_executing, claim_of_state,
}

pub data Call : Type 0 where
  lookup_call : Text → Text → Call
  claim_call : RedemptionRecord → Text → ℕ → Call
  complete_call : Completion → Call

unfoldable pub after : Call → Records → Records
after (lookup_call k d) m = m
after (claim_call r e t) m = (claim r e t m).1
after (complete_call c) m = (complete c m).1

unfoldable pub after_all : List Call → Records → Records
after_all [] m = m
after_all (c ∷ cs) m = after_all cs (after c m)

-- One for a `claimed` reply about `key`.
abbrev pub claimed_reply : Text → Claim → ℕ
claimed_reply key (claimed r) = if text_eq r.key key then 1 else 0
claimed_reply key _ = 0

unfoldable pub claims_now : Text → Call → Records → ℕ
claims_now key (claim_call r e t) m = claimed_reply key (claim r e t m).0
claims_now key _ m = 0

unfoldable pub claims : Text → List Call → Records → ℕ
claims key [] m = 0
claims key (c ∷ cs) m = claims_now key c m + claims key cs (after c m)

-- What may become of the state of a record: it stays, or execution is completed once.
pub data StateStep : DeliveryState → DeliveryState → Type 0 where
  same : (s : DeliveryState) → StateStep s s
  finish : (response : StoredResponse) → StateStep executing (completed response)

-- The later record is the earlier one but for a completed execution.
pub record IsLater (r r' : DeliveryRecord) : Type 0 where
  pub key : r'.key ≡ r.key
  pub proof_digest : r'.proof_digest ≡ r.proof_digest
  pub payment : r'.payment ≡ r.payment
  pub execution_id : r'.execution_id ≡ r.execution_id
  pub started_at : r'.started_at ≡ r.started_at
  pub state : StateStep r.state r'.state

pub IsLater-refl : (r : DeliveryRecord) → IsLater r r
IsLater-refl r = record {
  key = refl;
  proof_digest = refl;
  payment = refl;
  execution_id = refl;
  started_at = refl;
  state = same r.state;
}

StateStep-trans : {s t u : DeliveryState} → StateStep s t → StateStep t u → StateStep s u
StateStep-trans (same s) q = q
StateStep-trans (finish response) (same _) = finish response

pub IsLater-trans : {r s t : DeliveryRecord} → IsLater r s → IsLater s t → IsLater r t
IsLater-trans p q = record {
  key = q.key ∙ p.key;
  proof_digest = q.proof_digest ∙ p.proof_digest;
  payment = q.payment ∙ p.payment;
  execution_id = q.execution_id ∙ p.execution_id;
  started_at = q.started_at ∙ p.started_at;
  state = StateStep-trans p.state q.state;
}

IsLater-finish :
    (r : DeliveryRecord) (response : StoredResponse)
    → r.state ≡ executing
    → IsLater r (record r { state = completed response })
IsLater-finish r response e = record {
  key = refl;
  proof_digest = refl;
  payment = refl;
  execution_id = refl;
  started_at = refl;
  state = rw e (finish response);
}

-- The record under a key that is bound stays bound, to a later record.
abbrev pub Keeps : Text → DeliveryRecord → Records → Type 0
Keeps k r m = (r' : DeliveryRecord) × (find k m ≡ some r') × IsLater r r'

claim-Keeps :
    (q : RedemptionRecord) (e : Text) (t : ℕ) (m : Records) (k : Text) (r : DeliveryRecord)
    → find k m ≡ some r
    → find k (claim q e t m).1 ≡ some r
unfolding claim
claim-Keeps q e t m k r h =
    ground (arith, find-insert q.key k (freeze_executing q e t) m, text_eq_iff q.key k)

complete_record-Keeps :
    (c : Completion) (x : DeliveryRecord) (s : DeliveryState) (m : Records) (k : Text)
    (r : DeliveryRecord)
    → x.state ≡ s
    → find c.key m ≡ some x
    → find k m ≡ some r
    → Keeps k r (complete_record c x s m).1
unfolding complete_record
complete_record-Keeps c x (completed response) m k r e f h = (r, ground arith, IsLater-refl r)
complete_record-Keeps c x executing m k r e f h =
    let done : DeliveryRecord = record x { state = completed c.response } in
    elim (Bool-cases (text_eq c.key k)) [
      | inl hit ↦
          let same_key = text_eq→eq c.key k hit in
          let same_record : x ≡ r = cc in
          (
            done,
            find-insert c.key k done m ∙ (rw hit),
            rw (← same_record) (IsLater-finish x c.response e),
          )
      | inr miss ↦ (r, find-insert c.key k done m ∙ (rw miss h), IsLater-refl r)
    ]

complete-Keeps :
    (c : Completion) (m : Records) (k : Text) (r : DeliveryRecord)
    → find k m ≡ some r
    → Keeps k r (complete c m).1
unfolding complete
complete-Keeps c m k r h = elim (Option-cases (find c.key m)) [
  | inl absent ↦ rw (absent, complete) (r, h, IsLater-refl r)
  | inr (x, present) ↦
      elim (Bool-cases
        (text_eq x.proof_digest c.proof_digest && text_eq x.execution_id c.execution_id)) [
          | inl own ↦
              rw (present, complete)
                (rw own (complete_record-Keeps c x x.state m k r refl present h))
          | inr other ↦ rw (present, complete) (rw other (r, h, IsLater-refl r))
        ]
]

pub after-Keeps :
    (c : Call) (m : Records) (k : Text) (r : DeliveryRecord)
    → find k m ≡ some r
    → Keeps k r (after c m)
unfolding after
after-Keeps (lookup_call _ _) m k r h = (r, h, IsLater-refl r)
after-Keeps (claim_call q e t) m k r h = (r, claim-Keeps q e t m k r h, IsLater-refl r)
after-Keeps (complete_call c) m k r h = complete-Keeps c m k r h

-- Once a key is bound, no sequence of calls unbinds it: its digest, payment, execution id and
-- start time stay as they are, and its state stays or goes from executing to completed.
pub after_all-Keeps :
    (cs : List Call) (m : Records) (k : Text) (r : DeliveryRecord)
    → find k m ≡ some r
    → Keeps k r (after_all cs m)
unfolding after_all
after_all-Keeps [] m k r h = (r, h, IsLater-refl r)
after_all-Keeps (c ∷ cs) m k r h =
    let (r', h', p) = after-Keeps c m k r h in
    let (r'', h'', q) = after_all-Keeps cs (after c m) k r' h' in (r'', h'', IsLater-trans p q)

-- A claim answers `claimed` only where the key was free, and then binds it.
pub claims_now-binds :
    (k : Text) (c : Call) (m : Records)
    → (claims_now k c m ≡ 0)
      ⊎ ((claims_now k c m ≡ 1)
          × (find k m ≡ none)
          × ((r : DeliveryRecord) × (find k (after c m) ≡ some r)))
unfolding claims_now after claim claim_of_state
claims_now-binds k (lookup_call _ _) m = inl refl
claims_now-binds k (complete_call _) m = inl refl
claims_now-binds k (claim_call q e t) m = elim (Option-cases (find q.key m)) [
  | inl absent ↦ elim (Bool-cases (text_eq q.key k)) [
    | inl hit ↦ inr (
      ground arith,
      ground (arith, text_eq→eq q.key k),
      (freeze_executing q e t, ground (arith, find-insert q.key k (freeze_executing q e t) m)),
    )
    | inr miss ↦ inl (ground arith)
  ]
  | inr (x, present) ↦ inl (ground arith)
]

claims_of_bound :
    (k : Text) (cs : List Call) (m : Records) (r : DeliveryRecord)
    → find k m ≡ some r
    → claims k cs m ≡ 0
unfolding claims
claims_of_bound k [] m r h = refl
claims_of_bound k (c ∷ cs) m r h =
    let (r', h', _) = after-Keeps c m k r h in
    elim (claims_now-binds k c m) [
      | inl zero_now ↦ omega (arith, claims_of_bound k cs (after c m) r' h')
      | inr (_, free, _) ↦ absurd (cc)
    ]

-- At most one of the claims for a key is answered `claimed`, whatever the order of the calls.
pub claims-le-one : (k : Text) (cs : List Call) (m : Records) → claims k cs m ≤ 1
unfolding claims
claims-le-one k [] m = omega arith
claims-le-one k (c ∷ cs) m = elim (claims_now-binds k c m) [
  | inl zero_now ↦ omega (arith, claims-le-one k cs (after c m))
  | inr (one, _, (r, bound)) ↦ omega (arith, claims_of_bound k cs (after c m) r bound)
]
