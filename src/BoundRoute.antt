-- ===== src/BoundRoute.antt =====
-- The paid JSON route: packages/express-middleware/src/bound-route.ts. It puts fulfillment behind
-- the bound middleware. `maxResponseBytes` is taken as already checked by the set-up, save where
-- `resolve_interrupted` checks it. The callback's result is a status and a body, `none` for a body
-- that JSON.stringify does not serialize; a callback that throws gives `none`.
pub mod Recovery
use reapp_protocol.Common.{
  ==_iff, >>=-eq-ok, All, Bool, Bool-cases, List, List-cases, Number, Option, Option-cases, Result,
  String, Text, [], all, conjunction, conjunction→All, and3_elim, and4_elim, and_elim, ap, arith,
  err, false, find, find-insert, find-insert_self, find-remove, find_of_not_has, guard, has,
  has-eq-find, has-insert, if◌then◌else◌, inl, inr, insert, int, is_digit, is_digits, is_exact,
  is_hex64, is_hex_digit, is_natural_safe, is_positive_safe, is_space, leb, leb→le, length,
  length-append, length-replicate, lit, lower_unit, ltb, ltb→lt, lt→ltb, map, max_safe_integer,
  natural, natural_pos, ne_of_text_eq, negsuc, non_integer, none, not, ok, or_elim_false, pos, refl,
  remove, replicate, some, suc, sym, take, text_eq, text_eq_refl, text_eq_iff, text_eq→eq, text_ne,
  to_lower, to_lower_idempotent, to_upper, trim, trim_start, true, upper_unit, zero, ℕ, ℤ, ◌%◌,
  ◌&&◌, ◌*◌, ◌++◌, ◌+◌, ◌-◌, ◌/◌, ◌<◌, ◌==◌, ◌>>=◌, ◌>>◌, ◌^◌, ◌||◌, ◌↔◌, ◌∙◌, ◌∷◌, ◌≡◌, ◌≢◌, ◌≤◌,
  ◌⊎◌,
}
use reapp_protocol.Json.{
  Json, null, bool, num, str, arr, obj, Items, nil, cons, Fields, end, field, Url, Platform, member,
  keys, text_le, insert_sorted, sort_texts, texts_equal, has_exact_keys, is_base64_digit, is_base64,
}
use reapp_protocol.Payment.{VerifiedPayment, Reply, answer, unsupported, threw}
use reapp_protocol.Request.{Request}
use reapp_protocol.DeliveryStore.{
  StoredResponse, DeliveryState, executing, DeliveryRecord, Completion, Complete,
  BoundRedemptionStore,
}
use reapp_protocol.BoundRequest.{
  Config, Moment, Response, DeliveryKind, claimed, completed, Delivery, Outcome, respond, next,
  Verify,
}
use reapp_protocol.DeliveryStore.Replay.{completion_of}
use reapp_protocol.Bound as Bound

pub record JsonResult : Type 0 where
  pub status : Option Number
  pub body : Option Json

pub data Message : Type 0 where
  result_store_unavailable not_committed : Message

-- `sent`: the status and the bytes of `sendStored`; `unavailable`: status 503, to be retried;
-- `failed`: the error goes to `next`.
pub data Answer : Type 0 where
  sent : ℕ → List ℕ → Answer
  unavailable : Message → Answer
  failed : Answer

pub data RouteOutcome : Type 0 where
  stopped : Response → RouteOutcome
  served : Answer → RouteOutcome

abbrev pub content_type : Text
content_type = lit "application/json; charset=utf-8"

abbrev pub is_success : ℕ → Bool
is_success n = leb 200 n && leb n 299

unfoldable pub success_status : Number → Option ℕ
success_status (int (pos n)) = if is_success n then some n else none
success_status _ = none

abbrev pub status_or_200 : Option Number → Number
status_or_200 none = int (pos 200)
status_or_200 (some n) = n

abbrev pub terminal_body : Json
terminal_body = obj (
    field (lit "ok") (bool false) (
      field (lit "error") (str (lit "paid fulfillment failed after settlement"))
        (field (lit "deliveryState") (str (lit "terminal")) end)))

module _ (platform : Platform) (max_bytes : ℕ) where
  abbrev pub stored_bytes : ℕ → List ℕ → StoredResponse
  stored_bytes status bytes = record {
    status = status;
    content_type = content_type;
    body_base64 = platform.to_base64 bytes;
    body_sha256 = platform.to_hex (platform.sha256 bytes);
  }

  abbrev pub bytes_of : Json → List ℕ
  bytes_of body = platform.to_utf8 (platform.stringify body)

  unfoldable pub stored_response : Number → Option Json → Option StoredResponse
  unfolding success_status
  stored_response status none = none
  stored_response status (some body) = elim (success_status status) [
    | none ↦ none
    | some n ↦
        if leb (length (bytes_of body)) max_bytes
        then some (stored_bytes n (bytes_of body))
        else none
  ]

  unfoldable pub terminal_failure : Option StoredResponse
  unfolding stored_response
  terminal_failure = stored_response (int (pos 200)) (some terminal_body)

  abbrev pub is_well_formed : StoredResponse → Bool
  is_well_formed stored =
      is_success stored.status
      && text_eq stored.content_type content_type
      && is_hex64 stored.body_sha256
      && is_base64 stored.body_base64

  abbrev pub is_intact : StoredResponse → List ℕ → Bool
  is_intact stored bytes =
      leb (length bytes) max_bytes
      && text_eq (platform.to_base64 bytes) stored.body_base64
      && text_eq (platform.to_hex (platform.sha256 bytes)) stored.body_sha256

  unfoldable pub decode_stored_response : StoredResponse → Option (List ℕ)
  decode_stored_response stored =
      if is_well_formed stored
      then (let bytes = platform.of_base64 stored.body_base64 in
          if is_intact stored bytes then some bytes else none)
      else none

  unfoldable pub send_stored : StoredResponse → Answer
  unfolding decode_stored_response
  send_stored stored = elim (decode_stored_response stored) [
    | none ↦ failed
    | some bytes ↦ sent stored.status bytes
  ]

  -- `storedResponse(provided.status ?? 200, …)`, with the terminal failure for whatever throws.
  unfoldable pub fulfilled : Option JsonResult → Option StoredResponse
  unfolding stored_response terminal_failure
  fulfilled none = terminal_failure
  fulfilled (some p) = elim (stored_response (status_or_200 p.status) p.body) [
    | none ↦ terminal_failure
    | some response ↦ some response
  ]

  -- `completed.kind !== "completed" || completed.record.state !== "completed"`
  abbrev pub committed_state :
      DeliveryRecord → DeliveryState → Option (DeliveryRecord × StoredResponse)
  committed_state r executing = none
  committed_state r (DeliveryState.completed response) = some (r, response)

  abbrev pub committed : Complete → Option (DeliveryRecord × StoredResponse)
  committed Complete.conflict = none
  committed (Complete.completed r) = committed_state r r.state

  abbrev pub send_committed : Option (DeliveryRecord × StoredResponse) → Answer
  send_committed none = unavailable not_committed
  send_committed (some (r, response)) = send_stored response

  unfoldable pub after_complete : Reply Complete → Answer
  unfolding send_stored
  after_complete threw = unavailable result_store_unavailable
  after_complete unsupported = unavailable not_committed
  after_complete (answer c) = send_committed (committed c)

  -- The answer to a delivery whose record is completed.
  unfoldable pub replay : DeliveryState → Answer
  unfolding send_stored
  replay executing = failed
  replay (DeliveryState.completed response) = send_stored response

  module _ (store : BoundRedemptionStore) where
    abbrev commit : DeliveryRecord → Option StoredResponse → store.State → Answer × store.State
    commit r none s = (failed, s)
    commit r (some response) s =
        let (reply, s') = store.complete (completion_of r response) s in (after_complete reply, s')

    -- From the end of the callback on.
    unfoldable pub finish_delivery :
        DeliveryRecord → Option JsonResult → store.State → Answer × store.State
    unfolding fulfilled after_complete
    finish_delivery r provided s = commit r (fulfilled provided) s

    abbrev fulfil_state :
        (VerifiedPayment → Option JsonResult)
        → DeliveryRecord
        → DeliveryState
        → store.State
        → Answer × store.State
    fulfil_state fulfill r executing s = finish_delivery r (fulfill r.payment) s
    fulfil_state fulfill r (DeliveryState.completed _) s = (failed, s)

    unfoldable pub serve :
        (VerifiedPayment → Option JsonResult)
        → DeliveryKind
        → DeliveryRecord
        → store.State
        → Answer × store.State
    unfolding replay finish_delivery
    serve fulfill completed r s = (replay r.state, s)
    serve fulfill claimed r s = fulfil_state fulfill r r.state s

    abbrev serve_outcome :
        (VerifiedPayment → Option JsonResult) → Outcome → store.State → RouteOutcome × store.State
    serve_outcome fulfill (respond response) s = (stopped response, s)
    serve_outcome fulfill (next d) s =
        let (a, s') = serve fulfill d.kind d.delivered s in (served a, s')

    unfoldable pub paid_route :
        Config
        → Verify
        → (Request → VerifiedPayment → Option JsonResult)
        → Request
        → Moment
        → store.State
        → RouteOutcome × store.State
    unfolding Bound.handle serve
    paid_route config verify fulfill request moment s =
        let (outcome, s') = Bound.handle platform config store verify request moment s in
        serve_outcome (fulfill request) outcome s'

    abbrev resolved : Reply Complete → Option DeliveryRecord
    resolved (answer (Complete.completed r)) = elim r.state [
      | executing ↦ none
      | DeliveryState.completed _ ↦ some r
    ]
    resolved _ = none

    abbrev resolve_state :
        DeliveryRecord
        → DeliveryState
        → Option StoredResponse
        → store.State
        → Option DeliveryRecord × store.State
    resolve_state r (DeliveryState.completed _) response s = (none, s)
    resolve_state r executing none s = (none, s)
    resolve_state r executing (some response) s =
        let (reply, s') = store.complete (completion_of r response) s in (resolved reply, s')

    -- `none` is an error that is thrown.
    unfoldable pub resolve_interrupted :
        DeliveryRecord → store.State → Option DeliveryRecord × store.State
    unfolding terminal_failure
    resolve_interrupted r s =
        if leb 1 max_bytes && leb max_bytes 16777216
        then resolve_state r r.state terminal_failure s
        else (none, s)
