-- ===== src/Ap2/Normalized.antt =====
-- What the readers of `bindIntentMandate` let through (packages/ap2/src/index.ts).
use reapp_protocol.Common.{
  >>=-eq-ok, Bool, Bool-cases, List, Option, Text, ap, arith, guard, guard_then, inl, inr, int,
  is_exact, leb, leb→le, lit, ltb, ltb→lt, negsuc, non_integer, none, ok, pos, some, sym, true, ℕ,
  ◌+◌, ◌-◌, ◌<◌, ◌>>=◌, ◌>>◌, ◌∙◌, ◌≡◌, ◌≤◌,
}
use mathlib.Core.Path.{subst}
use reapp_protocol.Json.{Json, bool, num, str, arr, obj, Fields, Platform, member}
use reapp_protocol.Ap2.Calendar.{
  Timestamp, is_real, date_parse, epoch, to_civil, print_civil, read_timestamp,
}
use reapp_protocol.Ap2.Types.{NormalizedIntent, Stellar, StellarKeys, intent_keys}
use reapp_protocol.Ap2.Intent.{
  IntentError, not_an_address, not_ed25519, not_contract, not_future, Normalizing,
  require_exact_text, reject_unknown_keys, of_calendar, in_four_digits, in_four_digits,
  normalize_expiry, is_false, single_merchant, check_skus, check_refundability, intent_decimals,
  require_stellar_address, require_ed25519_address, normalize_ap2_intent, binding_nonce_of,
  require_contract, read_stellar,
}

-- An expiry as `normalizeExpiry` gives it: the text of an instant, and its Unix seconds.
pub record IsExpiry (now : ℕ) (iso : Text) (unix : ℕ) : Type 0 where
  pub instant : ℕ
  pub civil : Timestamp
  pub dated : to_civil instant ≡ some civil
  pub printed : iso ≡ print_civil civil
  pub unix_is : unix ≡ instant - epoch
  pub future : epoch + now < instant

pub require_exact_text-ok :
    (value : Option Json) (s : Text) → require_exact_text value ≡ ok s → is_exact s ≡ true
unfolding require_exact_text
require_exact_text-ok (some (str t)) s h = elim (Bool-cases (is_exact t)) [
  | inl exact ↦
      let e = rw (exact, require_exact_text) at h in
      let is : t ≡ s = cc in ap is_exact (sym is) ∙ exact
  | inr inexact ↦ absurd (let e = rw (inexact, require_exact_text) at h in cc)
]
require_exact_text-ok _ s h = absurd (cc)

in_four_digits-ok : (o : Option Timestamp) {t : Timestamp} → in_four_digits o ≡ ok t → o ≡ some t
in_four_digits-ok none h = absurd (cc)
in_four_digits-ok (some t) h = cc

normalize_expiry-IsExpiry :
    (now : ℕ) (value : Option Json) (iso : Text) (unix : ℕ)
    → normalize_expiry now value ≡ ok (iso, unix)
    → IsExpiry now iso unix
unfolding normalize_expiry
normalize_expiry-IsExpiry now value iso unix h =
    let (text, exact, h1) = >>=-eq-ok (require_exact_text value) _ h in
    let (t, reads, h2) = >>=-eq-ok (of_calendar (read_timestamp text)) _ h1 in
    let (real, h3) = guard_then (is_real t) _ _ h2 in
    let (c, dated, h4) = >>=-eq-ok (in_four_digits (to_civil (date_parse t))) _ h3 in
    let (late, same) = guard_then (ltb (epoch + now) (date_parse t)) not_future _ h4 in
    record {
      instant = date_parse t;
      civil = c;
      dated = in_four_digits-ok _ dated;
      printed = cc;
      unix_is = cc;
      future = ltb→lt (epoch + now) (date_parse t) late;
    }

-- The normalized intent of a binding.
pub record IsIntent (keys_of : StellarKeys) (now : ℕ) (intent : NormalizedIntent) (unix : ℕ)
    : Type 0 where
  pub description : is_exact intent.description ≡ true
  pub merchant : is_exact intent.merchant ≡ true
  pub address : keys_of.is_address intent.merchant ≡ true
  pub expiry : IsExpiry now intent.intent_expiry unix

pub record IsStellar (keys_of : StellarKeys) (stellar : Stellar) : Type 0 where
  pub user : is_exact stellar.user ≡ true
  pub user_key : keys_of.is_ed25519_public_key stellar.user ≡ true
  pub agent : is_exact stellar.agent ≡ true
  pub agent_key : keys_of.is_ed25519_public_key stellar.agent ≡ true
  pub asset : is_exact stellar.asset ≡ true
  pub contract : keys_of.is_contract stellar.asset ≡ true
  pub max_amount : is_exact stellar.max_amount ≡ true
  pub decimals : stellar.decimals ≤ 38

pub ok_injective : {A : Type 0} {a b : A} → ◌≡◌ {A = Normalizing A} (ok a) (ok b) → a ≡ b
ok_injective h = cc

-- `address ← require_exact_text value` with a test of the address.
required_text :
    (valid : Text → Bool) (value : Option Json) (e : IntentError) {s : Text}
    → (require_exact_text value >>= (λ a. guard (valid a) e >> ok a)) ≡ ok s
    → (is_exact s ≡ true) × (valid s ≡ true)
required_text valid value e {s} h =
    let (t, exact, rest) = >>=-eq-ok (require_exact_text value) _ h in
    let (is_valid, same) = guard_then (valid t) e (ok t) rest in
    let is = ok_injective same in rw (sym is) (require_exact_text-ok value t exact, is_valid)

intent_decimals-le : (value : Option Json) (n : ℕ) → intent_decimals value ≡ ok n → n ≤ 38
unfolding intent_decimals
intent_decimals-le none n h = let is : 7 ≡ n = ok_injective h in omega arith
intent_decimals-le (some Json.null) n h = let is : 7 ≡ n = ok_injective h in omega arith
intent_decimals-le (some (num (int (pos m)))) n h = elim (Bool-cases (leb m 38)) [
  | inl few ↦
      let e = rw few at h in
      let is : m ≡ n = ok_injective e in let le = leb→le m 38 few in omega arith
  | inr many ↦ absurd (let e = rw many at h in cc)
]
intent_decimals-le (some (num (int (negsuc m)))) n h = absurd (cc)
intent_decimals-le (some (num non_integer)) n h = absurd (cc)
intent_decimals-le (some (bool b)) n h = absurd (cc)
intent_decimals-le (some (str s)) n h = absurd (cc)
intent_decimals-le (some (arr s)) n h = absurd (cc)
intent_decimals-le (some (obj s)) n h = absurd (cc)

abbrev intent_with : Text → Text → Text → NormalizedIntent
intent_with description merchant iso = record {
  description = description;
  merchant = merchant;
  intent_expiry = iso;
}

abbrev stellar_with : Text → Text → Text → Text → ℕ → Text → Stellar
stellar_with user agent asset max_amount decimals nonce = record {
  user = user;
  agent = agent;
  asset = asset;
  max_amount = max_amount;
  decimals = decimals;
  nonce = nonce;
}

module _ (keys_of : StellarKeys) where
  pub normalize_ap2_intent-IsIntent :
      (now : ℕ) (value : Option Json) (intent : NormalizedIntent) (unix : ℕ)
      → normalize_ap2_intent keys_of now value ≡ ok (intent, unix)
      → IsIntent keys_of now intent unix
  unfolding normalize_ap2_intent require_stellar_address
  normalize_ap2_intent-IsIntent now value intent unix h =
      let (fields, _, h1) = >>=-eq-ok (reject_unknown_keys value intent_keys) _ h in
      let (_, h2) =
        guard_then (is_false (member (lit "user_cart_confirmation_required") fields)) _ _ h1 in
      let (description, described, h3) =
        >>=-eq-ok (require_exact_text (member (lit "natural_language_description") fields)) _ h2 in
      let (entry, _, h4) = >>=-eq-ok (single_merchant (member (lit "merchants") fields)) _ h3 in
      let (merchant, addressed, h5) =
        >>=-eq-ok (require_stellar_address keys_of (some entry)) _ h4 in
      let (_, _, h6) = >>=-eq-ok (check_skus (member (lit "skus") fields)) _ h5 in
      let (_, _, h7) =
        >>=-eq-ok (check_refundability (member (lit "requires_refundability") fields)) _ h6 in
      let (found, dated, same) =
        >>=-eq-ok (normalize_expiry now (member (lit "intent_expiry") fields)) _ h7 in
      let is : ◌≡◌ {A = NormalizedIntent × ℕ} (intent_with description merchant found.0, found.1)
          (intent, unix) =
        ok_injective same in
      let (exact, address) =
        required_text keys_of.is_address (some entry) not_an_address addressed in
      subst (λ p. IsIntent keys_of now p.0 p.1) is
        (record {
          description = require_exact_text-ok _ description described;
          merchant = exact;
          address = address;
          expiry = normalize_expiry-IsExpiry now _ found.0 found.1 dated;
        })

  module _ (platform : Platform) where
    pub read_stellar-IsStellar :
        (entropy : Option (List ℕ)) (members : Fields) (stellar : Stellar)
        → read_stellar platform keys_of entropy members ≡ ok stellar
        → IsStellar keys_of stellar
    unfolding read_stellar require_ed25519_address require_contract
    read_stellar-IsStellar entropy members stellar h =
        let (user, user_read, h1) =
          >>=-eq-ok (require_ed25519_address keys_of (member (lit "user") members)) _ h in
        let (agent, agent_read, h2) =
          >>=-eq-ok (require_ed25519_address keys_of (member (lit "agent") members)) _ h1 in
        let (asset, asset_read, h3) =
          >>=-eq-ok (require_contract platform keys_of (member (lit "asset") members)) _ h2 in
        let (nonce, nonce_read, h4) =
          >>=-eq-ok (binding_nonce_of platform keys_of entropy (member (lit "nonce") members)) _
            h3 in
        let (decimals, decimals_read, h5) =
          >>=-eq-ok (intent_decimals (member (lit "decimals") members)) _ h4 in
        let (max_amount, amount_read, same) =
          >>=-eq-ok (require_exact_text (member (lit "maxAmount") members)) _ h5 in
        let (user_exact, user_key) =
          required_text keys_of.is_ed25519_public_key _ not_ed25519 user_read in
        let (agent_exact, agent_key) =
          required_text keys_of.is_ed25519_public_key _ not_ed25519 agent_read in
        let (asset_exact, asset_key) =
          required_text keys_of.is_contract _ not_contract asset_read in
        let is : stellar_with user agent asset max_amount decimals nonce ≡ stellar =
          ok_injective same in
        subst (IsStellar keys_of) is (record {
          user = user_exact;
          user_key = user_key;
          agent = agent_exact;
          agent_key = agent_key;
          asset = asset_exact;
          contract = asset_key;
          max_amount = require_exact_text-ok _ max_amount amount_read;
          decimals = intent_decimals-le (member (lit "decimals") members) decimals decimals_read;
        })
