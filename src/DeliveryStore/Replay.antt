-- ===== src/DeliveryStore/Replay.antt =====
-- Completed records and later lookups (packages/express-middleware/src/bound-store.ts).
use reapp_protocol.Common.{Text, text_eq_refl, find, find-insert_self, ◌≡◌, refl, some, List}
use reapp_protocol.DeliveryStore.{
  DeliveryRecord, DeliveryState, executing, completed, StoredResponse, Completion, Records, Lookup,
  complete, lookup, complete_record, lookup_of_state,
}
use reapp_protocol.DeliveryStore.Claims.{Call, after_all, after_all-Keeps, StateStep, same, finish}

-- The completion by which the owner of a claim hands its response in.
abbrev pub completion_of : DeliveryRecord → StoredResponse → Completion
completion_of r response = record {
  key = r.key;
  proof_digest = r.proof_digest;
  execution_id = r.execution_id;
  response = response;
}

abbrev pub done : DeliveryRecord → StoredResponse → DeliveryRecord
done r response = record r { state = completed response }

-- Completing a claim that is executing stores the response.
pub complete_own :
    (m : Records) (r : DeliveryRecord) (response : StoredResponse)
    → find r.key m ≡ some r
    → r.state ≡ executing
    → ((complete (completion_of r response) m).0 ≡ completed (done r response))
      × (find r.key (complete (completion_of r response) m).1 ≡ some (done r response))
unfolding complete
complete_own m r response h e =
    let own = text_eq_refl r.proof_digest in
    let own_id = text_eq_refl r.execution_id in
    (
      rw (h, complete) (rw (own, own_id) (rw (e, complete_record) refl)),
      rw (h, complete) (rw (own, own_id) (rw (e, complete_record) (find-insert_self _ _ m))),
    )

lookup_of_completed :
    (m : Records) (k : Text) (r : DeliveryRecord) (response : StoredResponse)
    → find k m ≡ some r
    → r.state ≡ completed response
    → lookup k r.proof_digest m ≡ Lookup.completed r
unfolding lookup
lookup_of_completed m k r response h e =
    rw (h, lookup) (rw (text_eq_refl r.proof_digest) (rw (e, lookup_of_state) refl))

completed_stays :
    {s t : DeliveryState} {response : StoredResponse}
    → StateStep s t
    → s ≡ completed response
    → t ≡ completed response
completed_stays (same s) e = e
completed_stays (finish _) e = absurd (cc)

-- A response that has been stored is found by every later lookup with the same digest, with the
-- same bytes, whatever calls come in between.
pub replay_lem :
    (cs : List Call) (m : Records) (k : Text) (r : DeliveryRecord) (response : StoredResponse)
    → find k m ≡ some r
    → r.state ≡ completed response
    → (r' : DeliveryRecord) × (lookup k r.proof_digest (after_all cs m) ≡ Lookup.completed r')
      × (r'.state ≡ completed response)
      × (r'.payment ≡ r.payment)
replay_lem cs m k r response h e =
    let (r', h', later) = after_all-Keeps cs m k r h in
    let e' = completed_stays later.state e in
    (
      r',
      rw (← later.proof_digest) (lookup_of_completed (after_all cs m) k r' response h' e'),
      e',
      later.payment,
    )
