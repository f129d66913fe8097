-- ===== src/Tests/Route.antt =====
-- Runs of the paid route, with base64 in its standard alphabet.
use reapp_protocol.Common.{
  AreBytes, Bool, List, Text, [], arith, false, find, if◌then◌else◌, insert, int, is_hex64, leb,
  lit, ltb, none, pos, refl, some, text_eq, true, ℕ, ◌%◌, ◌&&◌, ◌*◌, ◌+◌, ◌-◌, ◌/◌, ◌<◌, ◌==◌, ◌||◌,
  ◌∷◌, ◌≡◌,
}
use reapp_protocol.Json.{Platform, is_base64, null, is_base64_digit}
use reapp_protocol.DeliveryStore.{
  DeliveryRecord, executing, StoredResponse, Lookup, in_memory, lookup, claim, complete,
}
use reapp_protocol.DeliveryStore.Replay.{done}
use reapp_protocol.DeliveryStore.Claims.{Call, claim_call, after_all}
use reapp_protocol.BoundRequest.{completed}
use reapp_protocol.BoundRoute.{
  JsonResult, Answer, sent, is_success, stored_bytes, fulfilled, finish_delivery, serve,
  terminal_failure, resolve_interrupted, terminal_body, bytes_of,
}
use reapp_protocol.BoundRoute.Recovery.{IsCodec, finish_delivery-replay, resolve_interrupted-final}
use reapp_protocol.Tests.Scenario.{hash_text, bound_platform}

letter : ℕ → ℕ
letter i =
    if ltb i 26
    then b'A' + i
    else if ltb i 52
    then i + 71
    else if ltb i 62
    then i - 4
    else if i == 62
    then b'+'
    else b'/'

digit : ℕ → ℕ
digit c =
    if leb b'A' c && leb c b'Z'
    then c - b'A'
    else if leb b'a' c && leb c b'z'
    then c - 71
    else if leb b'0' c && leb c b'9'
    then c + 4
    else if c == b'+'
    then 62
    else 63

digit-letter : (i : ℕ) → i < 64 → digit (letter i) ≡ i
unfolding digit letter
digit-letter i h = ground arith

letter-not_pad : (i : ℕ) → i < 64 → (letter i == b'=') ≡ false
unfolding letter
letter-not_pad i h = ground arith

is_base64_digit-letter : (i : ℕ) → i < 64 → is_base64_digit (letter i) ≡ true
unfolding letter
is_base64_digit-letter i h = ground arith

encode : List ℕ → Text
unfolding letter
encode [] = []
encode (a ∷ []) = letter (a / 4) ∷ letter (a % 4 * 16) ∷ b'=' ∷ b'=' ∷ []
encode (a ∷ b ∷ []) =
    letter (a / 4) ∷ letter (a % 4 * 16 + b / 16) ∷ letter (b % 16 * 4) ∷ b'=' ∷ []
encode (a ∷ b ∷ c ∷ rest) =
    letter (a / 4)
    ∷ letter (a % 4 * 16 + b / 16)
    ∷ letter (b % 16 * 4 + c / 64)
    ∷ letter (c % 64)
    ∷ encode rest

decode : Text → List ℕ
unfolding digit
decode (p ∷ q ∷ r ∷ s ∷ t) =
    let rest = decode t in
    let first = digit p * 4 + digit q / 16 in
    let second = digit q % 16 * 16 + digit r / 4 in
    let third = digit r % 4 * 64 + digit s in
    if r == b'='
    then first ∷ []
    else if s == b'='
    then first ∷ second ∷ []
    else first ∷ second ∷ third ∷ rest
decode _ = []

cons_eq : {i j : ℕ} {s t : List ℕ} → i ≡ j → s ≡ t → i ∷ s ≡ j ∷ t
cons_eq e f = rw e (rw f refl)

decode-encode : (b : List ℕ) → AreBytes b → decode (encode b) ≡ b
unfolding decode encode
decode-encode [] h = refl
decode-encode (a ∷ []) (ha, _) =
    rw (digit-letter (a / 4) (omega arith), digit-letter (a % 4 * 16) (omega arith))
      (cons_eq (omega arith) refl)
decode-encode (a ∷ b ∷ []) (ha, (hb, _)) =
    rw
      (
        letter-not_pad (b % 16 * 4) (omega arith),
        digit-letter (a / 4) (omega arith),
        digit-letter (a % 4 * 16 + b / 16) (omega arith),
        digit-letter (b % 16 * 4) (omega arith),
      )
      (cons_eq (omega arith) (cons_eq (omega arith) refl))
decode-encode (a ∷ b ∷ c ∷ rest) (ha, (hb, (hc, later))) =
    rw
      (
        letter-not_pad (b % 16 * 4 + c / 64) (omega arith),
        letter-not_pad (c % 64) (omega arith),
        digit-letter (a / 4) (omega arith),
        digit-letter (a % 4 * 16 + b / 16) (omega arith),
        digit-letter (b % 16 * 4 + c / 64) (omega arith),
        digit-letter (c % 64) (omega arith),
        decode-encode rest later,
      )
      (cons_eq (omega arith) (cons_eq (omega arith) (cons_eq (omega arith) refl)))

with_last_three : (c : Bool) → (((c && true) || true) && true) ≡ true
with_last_three false = refl
with_last_three true = refl

is_base64-encode : (b : List ℕ) → AreBytes b → is_base64 (encode b) ≡ true
unfolding encode is_base64 text_eq
is_base64-encode [] h = refl
is_base64-encode (a ∷ []) (ha, _) =
    rw
      (
        is_base64_digit-letter (a / 4) (omega arith),
        is_base64_digit-letter (a % 4 * 16) (omega arith),
      )
      refl
is_base64-encode (a ∷ b ∷ []) (ha, (hb, _)) =
    rw
      (
        is_base64_digit-letter (a / 4) (omega arith),
        is_base64_digit-letter (a % 4 * 16 + b / 16) (omega arith),
        is_base64_digit-letter (b % 16 * 4) (omega arith),
      )
      (with_last_three (letter (b % 16 * 4) == b'='))
is_base64-encode (a ∷ b ∷ c ∷ rest) (ha, (hb, (hc, later))) =
    rw
      (
        is_base64_digit-letter (a / 4) (omega arith),
        is_base64_digit-letter (a % 4 * 16 + b / 16) (omega arith),
        is_base64_digit-letter (b % 16 * 4 + c / 64) (omega arith),
        is_base64_digit-letter (c % 64) (omega arith),
        is_base64-encode rest later,
      )
      refl

-- One byte for a code unit.
low_bytes : Text → List ℕ
low_bytes [] = []
low_bytes (c ∷ t) = c % 256 ∷ low_bytes t

low_bytes-AreBytes : (t : Text) → AreBytes (low_bytes t)
unfolding low_bytes
low_bytes-AreBytes [] = tt
low_bytes-AreBytes (c ∷ t) = (omega arith, low_bytes-AreBytes t)

abbrev platform : Platform
platform = record bound_platform {
  to_utf8 = low_bytes;
  to_base64 = encode;
  of_base64 = decode;
  to_hex = λ _. hash_text;
  stringify = λ _. 1 ∷ 2 ∷ [];
}

platform-IsCodec : IsCodec platform
unfolding is_hex64
platform-IsCodec = record {
  utf8 = low_bytes-AreBytes;
  decodes = decode-encode;
  encodes = is_base64-encode;
  digests = λ b h. refl;
}

paid_route : Unit {0}
unfolding finish_delivery serve fulfilled terminal_failure resolve_interrupted find insert text_eq
    claim complete lookup after_all is_hex64 reapp_protocol.BoundRoute.stored_response
    reapp_protocol.BoundRoute.success_status reapp_protocol.BoundRoute.send_stored
    reapp_protocol.BoundRoute.replay reapp_protocol.BoundRoute.after_complete
    reapp_protocol.BoundRoute.decode_stored_response encode decode letter digit low_bytes is_base64
paid_route = tt

abbrev held : DeliveryRecord
held = record {
  key = lit "k";
  proof_digest = lit "d";
  payment = record {
    tx_hash = lit "t";
    ledger = 9;
    mandate_id = lit "m";
    user = lit "u";
    agent = lit "g";
    amount = lit "5";
    amount_stroops = 50;
    merchant = lit "M";
    asset = lit "S";
    registry_id = lit "R";
    scheme = lit "s";
    network = lit "n";
  };
  execution_id = lit "id-1";
  started_at = 7;
  state = executing;
}

abbrev made : JsonResult
made = record { status = some (int (pos 201)); body = some null }

abbrev calls : List Call
calls =
    claim_call (record { key = lit "k"; proof_digest = lit "e"; payment = held.payment })
      (lit "id-2") 8
    ∷ []

finish_run :
    (finish_delivery platform 16 in_memory held (some made) ((lit "k", held) ∷ [])).0
    ≡ sent 201 (1 ∷ 2 ∷ [])
unfolding paid_route
finish_run = refl

finish_delivery-replay_example :
    (n : ℕ) × (bytes : List ℕ) × (r' : DeliveryRecord) × (is_success n ≡ true)
    × (fulfilled platform 16 (some made) ≡ some (stored_bytes platform 16 n bytes))
    × ((finish_delivery platform 16 in_memory held (some made) ((lit "k", held) ∷ [])).0
        ≡ sent n bytes)
    × (let later =
          after_all calls
            (finish_delivery platform 16 in_memory held (some made) ((lit "k", held) ∷ [])).1 in
        (lookup (lit "k") (lit "d") later ≡ Lookup.completed r')
        × (serve platform 16 in_memory (λ _. none) completed r' later ≡ (sent n bytes, later)))
unfolding paid_route
finish_delivery-replay_example =
    finish_delivery-replay platform 16 refl platform-IsCodec ((lit "k", held) ∷ []) held (some made)
      refl refl calls (λ _. none)

resolve_interrupted-final_example :
    (x : StoredResponse) × (terminal_failure platform 16 ≡ some x)
    × ((resolve_interrupted platform 16 in_memory held ((lit "k", held) ∷ [])).0
        ≡ some (done held x))
    × (let after = (resolve_interrupted platform 16 in_memory held ((lit "k", held) ∷ [])).1 in
        (find (lit "k") after ≡ some (done held x))
        × ((finish_delivery platform 16 in_memory held (some made) after).1 ≡ after))
unfolding paid_route
resolve_interrupted-final_example =
    resolve_interrupted-final platform 16 refl ((lit "k", held) ∷ []) held refl refl refl
      (some made)
