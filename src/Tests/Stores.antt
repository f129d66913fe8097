-- ===== src/Tests/Stores.antt =====
-- Runs of the delivery store.
use reapp_protocol.Common.{List, [], find, insert, lit, refl, text_eq, ◌∷◌, ◌≡◌, ◌≤◌}
use reapp_protocol.Payment.{VerifiedPayment}
use reapp_protocol.DeliveryStore.{
  StoredResponse, RedemptionRecord, executing, completed, DeliveryRecord, Lookup, claimed, Records,
  lookup, claim, complete,
}
use reapp_protocol.DeliveryStore.Claims.{
  Call, claim_call, complete_call, after_all, claims, Keeps, after_all-Keeps, claims-le-one,
}
use reapp_protocol.DeliveryStore.Replay.{completion_of, done, replay_lem}

delivery_store : Unit {0}
unfolding claim complete lookup find insert text_eq after_all
delivery_store = tt

abbrev paid : VerifiedPayment
paid = record {
  tx_hash = lit "t";
  ledger = 9;
  mandate_id = lit "m";
  user = lit "u";
  agent = lit "g";
  amount = lit "5";
  amount_stroops = 50;
  merchant = lit "M";
  asset = lit "S";
  registry_id = lit "R";
  scheme = lit "s";
  network = lit "n";
}

abbrev asked : RedemptionRecord
asked = record { key = lit "k"; proof_digest = lit "d"; payment = paid }

abbrev held : DeliveryRecord
held = record {
  key = lit "k";
  proof_digest = lit "d";
  payment = paid;
  execution_id = lit "id-1";
  started_at = 7;
  state = executing;
}

abbrev body : StoredResponse
body = record {
  status = 200;
  content_type = lit "application/json; charset=utf-8";
  body_base64 = lit "AAAA";
  body_sha256 = lit "h";
}

abbrev after_claiming : Records
after_claiming = (lit "k", held) ∷ []

abbrev calls : List Call
calls =
    claim_call asked (lit "id-2") 8
    ∷ complete_call (completion_of held body)
    ∷ claim_call (record asked { proof_digest = lit "e" }) (lit "id-3") 9
    ∷ []

claim_run : claim asked (lit "id-1") 7 [] ≡ (claimed held, after_claiming)
unfolding delivery_store
claim_run = refl

after_all-Keeps_example : Keeps (lit "k") held (after_all calls after_claiming)
unfolding delivery_store
after_all-Keeps_example = after_all-Keeps calls after_claiming (lit "k") held refl

abbrev after_completing : Records
after_completing = (lit "k", done held body) ∷ []

replay_lem_example :
    (r : DeliveryRecord) × (lookup (lit "k") (lit "d") (after_all calls after_completing)
      ≡ Lookup.completed r)
    × (r.state ≡ completed body)
    × (r.payment ≡ paid)
unfolding delivery_store
replay_lem_example = replay_lem calls after_completing (lit "k") (done held body) body refl refl

claims-le-one_example : claims (lit "k") calls [] ≤ 1
claims-le-one_example = claims-le-one (lit "k") calls []
