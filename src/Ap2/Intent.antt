-- ===== src/Ap2/Intent.antt =====
-- Normalizing and binding an intent: `normalizeExpiry`, `normalizeAp2Intent` and
-- `bindIntentMandate` of packages/ap2/src/index.ts.
use reapp_protocol.Common.{
  Bool, List, Option, Result, Text, [], all, err, false, guard, if◌then◌else◌, int, is_exact, leb,
  lit, ltb, none, not, ok, pos, some, text_eq, true, ℕ, ◌++◌, ◌+◌, ◌-◌, ◌>>=◌, ◌>>◌, ◌||◌, ◌∷◌, ◌/◌,
  ◌%◌,
}
use reapp_protocol.Json.{
  Json, null, bool, num, str, arr, nil, cons, obj, Fields, Platform, member, keys,
}
use reapp_protocol.Mandate.{IntentMandate, CreateInput, MandateError, create_intent_mandate}
use reapp_protocol.Ap2.Calendar.{
  CalendarError, Timestamp, is_real, date_parse, epoch, to_civil, print_civil, read_timestamp,
  not_four_digits, not_real,
}
use reapp_protocol.Ap2.Types.{
  NormalizedIntent, Stellar, Binding, StellarKeys, spec_version, intent_data_key,
  ap2_binding_version, intent_keys, stellar_keys, intent_json,
}
use reapp_protocol.Ap2.Canonical.{canonicalize}

pub data IntentError : Type 0 where
  not_plain unsupported_field not_exact not_an_address not_ed25519 not_contract : IntentError
  cart_confirmation one_merchant skus_unsupported refundability_unsupported : IntentError
  refundability_not_bool not_future no_crypto bad_intent_decimals : IntentError
  calendar : CalendarError → IntentError
  mandate_failed : MandateError → IntentError

abbrev pub Normalizing : Type 0 → Type 0
Normalizing A = Result IntentError A

unfoldable pub require_exact_text : Option Json → Normalizing Text
require_exact_text (some (str s)) = if is_exact s then ok s else err not_exact
require_exact_text _ = err not_exact

unfoldable pub require_plain_object : Option Json → Normalizing Fields
require_plain_object (some (obj fields)) = ok fields
require_plain_object _ = err not_plain

abbrev pub includes : List Text → Text → Bool
includes [] k = false
includes (t ∷ ts) k = text_eq t k || includes ts k

unfoldable pub reject_unknown_keys : Option Json → List Text → Normalizing Fields
unfolding require_plain_object keys
reject_unknown_keys value allowed = do
  fields ← require_plain_object value
  guard (all (includes allowed) (keys fields)) unsupported_field
  ok fields

abbrev pub of_calendar : {A : Type 0} → Result CalendarError A → Normalizing A
of_calendar (err e) = err (calendar e)
of_calendar (ok a) = ok a

abbrev pub in_four_digits : Option Timestamp → Normalizing Timestamp
in_four_digits none = err (calendar not_four_digits)
in_four_digits (some t) = ok t

-- The canonical text and the Unix seconds of the expiry; `now` is in Unix seconds. The instant that
-- `Date.parse` gives for a real timestamp is finite and whole.
unfoldable pub normalize_expiry : ℕ → Option Json → Normalizing (Text × ℕ)
unfolding require_exact_text read_timestamp is_real date_parse to_civil print_civil
normalize_expiry now value = do
  text ← require_exact_text value
  t ← of_calendar (read_timestamp text)
  guard (is_real t) (calendar not_real)
  iso ← in_four_digits (to_civil (date_parse t))
  guard (ltb (epoch + now) (date_parse t)) not_future
  ok (print_civil iso, date_parse t - epoch)

-- `byte.toString(16)` has one digit or two, and is padded to two.
abbrev pub hex_digit : ℕ → ℕ
hex_digit n = if ltb n 10 then b'0' + n else 87 + n

unfoldable pub hex_of_bytes : List ℕ → Text
hex_of_bytes [] = []
hex_of_bytes (b ∷ bytes) = hex_digit (b / 16) ∷ hex_digit (b % 16) ∷ hex_of_bytes bytes

unfoldable pub is_false : Option Json → Bool
is_false (some (bool b)) = not b
is_false _ = false

-- The one entry of `intent.merchants`.
unfoldable pub single_merchant : Option Json → Normalizing Json
single_merchant (some (arr (cons m nil))) = ok m
single_merchant _ = err one_merchant

unfoldable pub check_skus : Option Json → Normalizing (Unit {0})
check_skus none = ok tt
check_skus (some (arr nil)) = ok tt
check_skus (some _) = err skus_unsupported

unfoldable pub check_refundability : Option Json → Normalizing (Unit {0})
check_refundability none = ok tt
check_refundability (some (bool true)) = err refundability_unsupported
check_refundability (some (bool false)) = ok tt
check_refundability (some _) = err refundability_not_bool

unfoldable pub intent_decimals : Option Json → Normalizing ℕ
intent_decimals none = ok 7
intent_decimals (some null) = ok 7
intent_decimals (some (num (int (pos n)))) = if leb n 38 then ok n else err bad_intent_decimals
intent_decimals (some _) = err bad_intent_decimals

module _ (keys_of : StellarKeys) where
  unfoldable pub require_stellar_address : Option Json → Normalizing Text
  unfolding require_exact_text
  require_stellar_address value = do
    address ← require_exact_text value
    guard (keys_of.is_address address) not_an_address
    ok address

  unfoldable pub require_ed25519_address : Option Json → Normalizing Text
  unfolding require_exact_text
  require_ed25519_address value = do
    address ← require_exact_text value
    guard (keys_of.is_ed25519_public_key address) not_ed25519
    ok address

  unfoldable pub normalize_ap2_intent : ℕ → Option Json → Normalizing (NormalizedIntent × ℕ)
  unfolding reject_unknown_keys require_exact_text require_stellar_address single_merchant
      check_skus check_refundability normalize_expiry is_false member
  normalize_ap2_intent now intent = do
    fields ← reject_unknown_keys intent intent_keys
    guard (is_false (member (lit "user_cart_confirmation_required") fields)) cart_confirmation
    description ← require_exact_text (member (lit "natural_language_description") fields)
    entry ← single_merchant (member (lit "merchants") fields)
    merchant ← require_stellar_address (some entry)
    check_skus (member (lit "skus") fields)
    check_refundability (member (lit "requires_refundability") fields)
    (iso, unix) ← normalize_expiry now (member (lit "intent_expiry") fields)
    ok (record { description = description; merchant = merchant; intent_expiry = iso }, unix)

abbrev pub core_nonce : Text → Text → Text → Text
core_nonce version intent_hash nonce = version ++ b':' ∷ (intent_hash ++ b':' ∷ nonce)

module _ (platform : Platform) where
  unfoldable pub hash_of_intent : NormalizedIntent → Text
  unfolding canonicalize intent_json
  hash_of_intent intent =
      platform.to_hex
        (platform.sha256 (platform.to_utf8 (canonicalize platform (intent_json intent))))

  abbrev pub binding_of : NormalizedIntent → Text → IntentMandate → Binding
  binding_of intent nonce mandate = record {
    ap2_spec_version = spec_version;
    ap2_data_key = intent_data_key;
    binding_version = ap2_binding_version;
    normalized_intent = intent;
    canonical_intent = canonicalize platform (intent_json intent);
    intent_hash = hash_of_intent intent;
    binding_nonce = nonce;
    mandate = mandate;
  }

  abbrev pub mandate_input : Stellar → NormalizedIntent → ℕ → CreateInput
  mandate_input stellar intent unix = record {
    user = stellar.user;
    agent = stellar.agent;
    merchant = intent.merchant;
    asset = stellar.asset;
    max_amount = stellar.max_amount;
    expiry = int (pos unix);
    decimals = some (int (pos stellar.decimals));
    nonce = some (core_nonce ap2_binding_version (hash_of_intent intent) stellar.nonce);
  }

module _ (platform : Platform) (keys_of : StellarKeys) where
  -- 16 random bytes in hexadecimal, where Web Crypto is present.
  unfoldable pub secure_nonce : Option (List ℕ) → Normalizing Text
  unfolding hex_of_bytes
  secure_nonce none = err no_crypto
  secure_nonce (some bytes) = ok (hex_of_bytes bytes)

  unfoldable pub binding_nonce_of : Option (List ℕ) → Option Json → Normalizing Text
  unfolding secure_nonce require_exact_text
  binding_nonce_of entropy none = secure_nonce entropy
  binding_nonce_of entropy (some nonce) = require_exact_text (some nonce)

  unfoldable pub require_contract : Option Json → Normalizing Text
  unfolding require_exact_text
  require_contract value = do
    asset ← require_exact_text value
    guard (keys_of.is_contract asset) not_contract
    ok asset

  abbrev pub of_mandate : {A : Type 0} → Result MandateError A → Normalizing A
  of_mandate (err e) = err (mandate_failed e)
  of_mandate (ok a) = ok a

  -- The members of `stellar`, in the order in which they are checked.
  unfoldable pub read_stellar : Option (List ℕ) → Fields → Normalizing Stellar
  unfolding require_ed25519_address require_contract binding_nonce_of intent_decimals
      require_exact_text member
  read_stellar entropy stellar = do
    user ← require_ed25519_address keys_of (member (lit "user") stellar)
    agent ← require_ed25519_address keys_of (member (lit "agent") stellar)
    asset ← require_contract (member (lit "asset") stellar)
    nonce ← binding_nonce_of entropy (member (lit "nonce") stellar)
    decimals ← intent_decimals (member (lit "decimals") stellar)
    max_amount ← require_exact_text (member (lit "maxAmount") stellar)
    ok (record {
      user = user;
      agent = agent;
      asset = asset;
      max_amount = max_amount;
      decimals = decimals;
      nonce = nonce;
    })

  -- With the members of `stellar` that were read.
  unfoldable pub bind_with : ℕ → Option (List ℕ) → Json → Normalizing (Stellar × Binding)
  unfolding reject_unknown_keys normalize_ap2_intent hash_of_intent read_stellar member
      create_intent_mandate
  bind_with now entropy input = do
    fields ← reject_unknown_keys (some input) (lit "intent" ∷ lit "stellar" ∷ [])
    members ← reject_unknown_keys (member (lit "stellar") fields) stellar_keys
    (intent, unix) ← normalize_ap2_intent keys_of now (member (lit "intent") fields)
    stellar ← read_stellar entropy members
    mandate ←
        of_mandate (create_intent_mandate platform [] (mandate_input platform stellar intent unix))
    ok (stellar, binding_of platform intent stellar.nonce mandate)

  unfoldable pub bind_intent_mandate : ℕ → Option (List ℕ) → Json → Normalizing Binding
  unfolding bind_with
  bind_intent_mandate now entropy input = do
    (stellar, binding) ← bind_with now entropy input
    ok binding
