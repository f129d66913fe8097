-- ===== src/BoundRoute/Recovery.antt =====
-- What the paid route sends for a claimed delivery, and what a recovery sends after it
-- (packages/express-middleware/src/bound-route.ts over the in-memory store of bound-store.ts).
use reapp_protocol.Common.{
  AreBytes, Bool-cases, List, Number, Option, Option-cases, ap, false, find, inl, inr, int,
  is_hex64, leb, length, negsuc, non_integer, none, pos, refl, some, text_eq_refl, true, ℕ, ◌&&◌,
  ◌∙◌, ◌≡◌, Text, sym,
}
use mathlib.Core.Path.{subst}
use reapp_protocol.Json.{Json, Platform, is_base64}
use reapp_protocol.Payment.{VerifiedPayment, answer}
use reapp_protocol.DeliveryStore.{
  StoredResponse, DeliveryState, executing, DeliveryRecord, Records, Lookup, responses_equal,
  in_memory, lookup, complete, complete_record,
}
use reapp_protocol.DeliveryStore.Replay.{completion_of, complete_own, done, replay_lem}
use reapp_protocol.DeliveryStore.Claims.{Call, after_all}
use reapp_protocol.BoundRequest.{completed}
use reapp_protocol.BoundRoute.{
  JsonResult, Answer, sent, content_type, is_success, success_status, status_or_200, terminal_body,
  stored_bytes, bytes_of, stored_response, terminal_failure, is_well_formed, is_intact,
  decode_stored_response, send_stored, fulfilled, replay, finish_delivery, serve,
  resolve_interrupted, resolved,
}

-- What the route relies on of Buffer and node:crypto: text is encoded as bytes, and base64 and the
-- printed digest are those of bytes.
pub record IsCodec (platform : Platform) : Type 0 where
  pub utf8 : (t : Text) → AreBytes (platform.to_utf8 t)
  pub decodes : (b : List ℕ) → AreBytes b → platform.of_base64 (platform.to_base64 b) ≡ b
  pub encodes : (b : List ℕ) → AreBytes b → is_base64 (platform.to_base64 b) ≡ true
  pub digests : (b : List ℕ) → AreBytes b → is_hex64 (platform.to_hex (platform.sha256 b)) ≡ true

module _ (platform : Platform) (max_bytes : ℕ) where
  -- A response that the route made: a success status, and the bytes of a body within the limit.
  pub record IsMade (x : StoredResponse) (status : ℕ) (bytes : List ℕ) : Type 0 where
    pub made : x ≡ stored_bytes platform max_bytes status bytes
    pub success : is_success status ≡ true
    pub fits : leb (length bytes) max_bytes ≡ true
    pub body : Json
    pub encoded : bytes ≡ bytes_of platform max_bytes body

  success_status-some :
      (status : Number) (n : ℕ) → success_status status ≡ some n → is_success n ≡ true
  unfolding success_status
  success_status-some (int (pos m)) n h = elim (Bool-cases (is_success m)) [
    | inl good ↦ rw (← natural_eq good) good
    | inr bad ↦ absurd (nothing bad)
  ]
    where
      natural_eq : is_success m ≡ true → m ≡ n
      natural_eq good = let e : some m ≡ some n = rw good at h in cc

      nothing : is_success m ≡ false → ⊥
      nothing bad = let e : none ≡ some n = rw bad at h in cc
  success_status-some (int (negsuc m)) n h = absurd (cc)
  success_status-some non_integer n h = absurd (cc)

  pub stored_response-IsMade :
      (status : Number) (body : Option Json) (x : StoredResponse)
      → stored_response platform max_bytes status body ≡ some x
      → (n : ℕ) × (bytes : List ℕ) × IsMade x n bytes
  unfolding stored_response
  stored_response-IsMade status none x h = absurd (cc)
  stored_response-IsMade status (some body) x h = elim (Option-cases (success_status status)) [
    | inl e ↦ absurd (nothing e)
    | inr (n, e) ↦ elim (Bool-cases (leb (length (bytes_of platform max_bytes body)) max_bytes)) [
      | inl small ↦ (
        n,
        bytes_of platform max_bytes body,
        record {
          made = made n e small;
          success = success_status-some status n e;
          fits = small;
          body = body;
          encoded = refl;
        },
      )
      | inr big ↦ absurd (too_big n e big)
    ]
  ]
    where
      nothing : success_status status ≡ none → ⊥
      nothing e = let k : none ≡ some x = rw (e, stored_response) at h in cc

      made :
          (n : ℕ)
          → success_status status ≡ some n
          → leb (length (bytes_of platform max_bytes body)) max_bytes ≡ true
          → x ≡ stored_bytes platform max_bytes n (bytes_of platform max_bytes body)
      made n e small =
          let k : some (stored_bytes platform max_bytes n (bytes_of platform max_bytes body))
              ≡ some x =
            rw small at (rw (e, stored_response) at h) in
          cc

      too_big :
          (n : ℕ)
          → success_status status ≡ some n
          → leb (length (bytes_of platform max_bytes body)) max_bytes ≡ false
          → ⊥
      too_big n e big = let k : none ≡ some x = rw big at (rw (e, stored_response) at h) in cc

  send_stored-made :
      (codec : IsCodec platform) (n : ℕ) (bytes : List ℕ)
      → AreBytes bytes
      → is_success n ≡ true
      → leb (length bytes) max_bytes ≡ true
      → send_stored platform max_bytes (stored_bytes platform max_bytes n bytes) ≡ sent n bytes
  unfolding send_stored decode_stored_response
  send_stored-made codec n bytes are success fits =
      rw (well_formed, send_stored, decode_stored_response)
        (rw (codec.decodes bytes are) (rw intact refl))
    where
      well_formed :
          is_well_formed platform max_bytes (stored_bytes platform max_bytes n bytes) ≡ true
      well_formed = rw success (
          rw (text_eq_refl content_type)
            (rw (codec.digests bytes are) (rw (codec.encodes bytes are) refl)))

      intact : is_intact platform max_bytes (stored_bytes platform max_bytes n bytes) bytes ≡ true
      intact = rw fits (
          rw (text_eq_refl (platform.to_base64 bytes))
            (rw (text_eq_refl (platform.to_hex (platform.sha256 bytes))) refl))

  IsMade-AreBytes :
      (codec : IsCodec platform) (x : StoredResponse) (n : ℕ) (bytes : List ℕ)
      → IsMade x n bytes
      → AreBytes bytes
  IsMade-AreBytes codec x n bytes m =
      subst AreBytes (sym m.encoded) (codec.utf8 (platform.stringify m.body))

  pub send_stored-IsMade :
      (codec : IsCodec platform) (x : StoredResponse) (n : ℕ) (bytes : List ℕ)
      → IsMade x n bytes
      → send_stored platform max_bytes x ≡ sent n bytes
  send_stored-IsMade codec x n bytes m =
      rw m.made
        (send_stored-made codec n bytes (IsMade-AreBytes codec x n bytes m) m.success m.fits)

  module _
      (terminal_fits : leb (length (bytes_of platform max_bytes terminal_body)) max_bytes
        ≡ true) where
    terminal_failure-some :
        terminal_failure platform max_bytes
        ≡ some (stored_bytes platform max_bytes 200 (bytes_of platform max_bytes terminal_body))
    unfolding terminal_failure stored_response success_status
    terminal_failure-some = rw terminal_fits refl

    pub terminal_failure-IsMade :
        (x : StoredResponse) × (n : ℕ) × (bytes : List ℕ) × (terminal_failure platform max_bytes
          ≡ some x)
        × IsMade x n bytes
    unfolding terminal_failure
    terminal_failure-IsMade =
        let (n, bytes, m) =
          stored_response-IsMade (int (pos 200)) (some terminal_body) _ terminal_failure-some in
        (_, n, bytes, terminal_failure-some, m)

    -- The callback always comes to a response to be stored.
    pub fulfilled-IsMade :
        (provided : Option JsonResult)
        → (x : StoredResponse) × (n : ℕ) × (bytes : List ℕ) × (fulfilled platform max_bytes provided
            ≡ some x)
          × IsMade x n bytes
    unfolding fulfilled
    fulfilled-IsMade none = terminal_failure-IsMade
    fulfilled-IsMade (some p) =
        elim (Option-cases (stored_response platform max_bytes (status_or_200 p.status) p.body)) [
          | inl e ↦ rw (e, fulfilled) terminal_failure-IsMade
          | inr (x, e) ↦
              let (n, bytes, m) = stored_response-IsMade (status_or_200 p.status) p.body x e in
              (x, n, bytes, rw (e, fulfilled) refl, m)
        ]

    -- Where the platform encodes text as bytes, decodes its base64 of bytes and prints digests in
    -- hexadecimal, and the terminal response fits the limit: whatever the callback gives or throws,
    -- the owner of a claim that the in-memory store holds as executing is answered with a success
    -- status and the bytes that it stored; and every recovery after it, whatever store calls and
    -- whatever callback there are, finds the record completed and is sent the same status and bytes.
    pub finish_delivery-replay :
        (codec : IsCodec platform) (m : Records) (r : DeliveryRecord) (provided : Option JsonResult)
        → find r.key m ≡ some r
        → r.state ≡ executing
        → (cs : List Call) (fulfill : VerifiedPayment → Option JsonResult)
        → (n : ℕ) × (bytes : List ℕ) × (r' : DeliveryRecord) × (is_success n ≡ true)
          × (fulfilled platform max_bytes provided ≡ some (stored_bytes platform max_bytes n bytes))
          × ((finish_delivery platform max_bytes in_memory r provided m).0 ≡ sent n bytes)
          × (let later =
                after_all cs (finish_delivery platform max_bytes in_memory r provided m).1 in
              (lookup r.key r.proof_digest later ≡ Lookup.completed r')
              × (serve platform max_bytes in_memory fulfill completed r' later
                  ≡ (sent n bytes, later)))
    unfolding finish_delivery serve replay
    finish_delivery-replay codec m r provided h e cs fulfill =
        let (x, n, bytes, made, is_made) = fulfilled-IsMade provided in
        let (reply, kept) = complete_own m r x h e in
        let (r', found, state, _) =
          replay_lem cs (complete (completion_of r x) m).1 r.key (done r x) x kept refl in
        let sends = send_stored-IsMade codec x n bytes is_made in
        (
          n,
          bytes,
          r',
          is_made.success,
          made ∙ ap (λ (y : StoredResponse). some y) is_made.made,
          rw (made, finish_delivery) (rw reply sends),
          (
            rw (made, finish_delivery) found,
            ap
                (λ (a : Answer).
                  (a, after_all cs (finish_delivery platform max_bytes in_memory r provided m).1))
                (replays r' x state ∙ sends),
          ),
        )
      where
        replays :
            (r' : DeliveryRecord) (x : StoredResponse)
            → r'.state ≡ DeliveryState.completed x
            → replay platform max_bytes r'.state ≡ send_stored platform max_bytes x
        replays r' x state = rw (state, replay) refl

    -- A completion for a completed record changes nothing.
    complete_completed :
        (m : Records) (r : DeliveryRecord) (x y : StoredResponse)
        → find r.key m ≡ some (done r x)
        → (complete (completion_of r y) m).1 ≡ m
    unfolding complete complete_record
    complete_completed m r x y h =
        rw (h, complete)
          (rw (text_eq_refl r.proof_digest, text_eq_refl r.execution_id)
            (elim (Bool-cases (responses_equal x y)) [
              | inl equal ↦ rw (equal, complete_record) refl
              | inr other ↦ rw (other, complete_record) refl
            ]))

    finish_keeps :
        (x : StoredResponse) (m : Records) (r : DeliveryRecord) (provided : Option JsonResult)
        → find r.key m ≡ some (done r x)
        → (finish_delivery platform max_bytes in_memory r provided m).1 ≡ m
    unfolding finish_delivery
    finish_keeps x m r provided h =
        let (y, _, _, made, _) = fulfilled-IsMade provided in
        rw (made, finish_delivery) (complete_completed m r x y h)

    -- Where the limit is one that the code accepts and the terminal response fits it, a record that
    -- the in-memory store holds as executing is resolved as interrupted with the terminal response,
    -- and an owner that finishes after all leaves the store as it is, whatever its callback gives.
    pub resolve_interrupted-final :
        (m : Records) (r : DeliveryRecord)
        → (leb 1 max_bytes && leb max_bytes 16777216) ≡ true
        → find r.key m ≡ some r
        → r.state ≡ executing
        → (provided : Option JsonResult)
        → (x : StoredResponse) × (terminal_failure platform max_bytes ≡ some x)
          × ((resolve_interrupted platform max_bytes in_memory r m).0 ≡ some (done r x))
          × (let after = (resolve_interrupted platform max_bytes in_memory r m).1 in
              (find r.key after ≡ some (done r x))
              × ((finish_delivery platform max_bytes in_memory r provided after).1 ≡ after))
    unfolding resolve_interrupted
    resolve_interrupted-final m r bounds h e provided =
        let (x, n, bytes, made, is_made) = terminal_failure-IsMade in
        let (reply, kept) = complete_own m r x h e in
        let run = resolved_run x made in
        (
          x,
          made,
          ap (λ (p : Option DeliveryRecord × Records). p.0) run ∙ rw reply refl,
          rw run (kept, finish_keeps x _ r provided kept),
        )
      where
        resolved_run :
            (x : StoredResponse)
            → terminal_failure platform max_bytes ≡ some x
            → resolve_interrupted platform max_bytes in_memory r m ≡ (
              resolved platform max_bytes in_memory (answer (complete (completion_of r x) m).0),
              (complete (completion_of r x) m).1,
            )
        resolved_run x made = rw (bounds, resolve_interrupted) (rw e (rw made refl))
