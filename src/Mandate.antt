-- ===== src/Mandate.antt =====
-- Building an intent mandate and its canonical id: `createIntentMandate` of
-- packages/sdk/src/index.ts.
pub mod Created
use reapp_protocol.Common.{
  ==_iff, >>=-eq-ok, All, Bool, Bool-cases, List, List-cases, Number, Option, Option-cases, Result,
  Result-cases, String, Text, [], all, and3_elim, and4_elim, and_elim, ap, arith, conjunction,
  conjunction→All, err, false, find, find-insert, find-insert_self, find-remove, find_of_not_has,
  guard, has, has-eq-find, has-insert, if◌then◌else◌, inl, inr, insert, int, is_digit, is_digits,
  is_exact, is_hex64, is_hex_digit, is_natural_safe, is_positive_safe, is_space, leb, leb→le,
  length, length-append, length-replicate, lit, lower_unit, ltb, ltb→lt, lt→ltb, map,
  max_safe_integer, natural, natural_pos, ne_of_text_eq, negsuc, non_integer, none, not, ok,
  or_elim_false, pos, refl, remove, replicate, some, suc, sym, take, text_eq, text_eq_iff,
  text_eq_refl, text_eq→eq, text_ne, to_lower, to_lower_idempotent, to_upper, trim, trim_start,
  true, upper_unit, zero, ℕ, ℤ, ◌%◌, ◌&&◌, ◌*◌, ◌++◌, ◌+◌, ◌-◌, ◌/◌, ◌<◌, ◌==◌, ◌>>=?◌, ◌>>=◌, ◌>>◌,
  ◌^◌, ◌||◌, ◌↔◌, ◌∙◌, ◌∷◌, ◌≡◌, ◌≢◌, ◌≤◌, ◌⊎◌,
}
use reapp_protocol.Json.{Json, str, num, obj, Fields, end, field, Platform}
use reapp_protocol.Amounts.{AmountError, default_decimals, to_stroops}

pub record CreateInput : Type 0 where
  pub user : Text
  pub agent : Text
  pub merchant : Text
  pub asset : Text
  pub max_amount : Text
  pub expiry : Number
  pub decimals : Option Number
  pub nonce : Option Text

pub record IntentMandate : Type 0 where
  pub id : Text
  pub id_buffer : List ℕ
  pub user : Text
  pub agent : Text
  pub merchant : Text
  pub asset : Text
  pub max_amount : ℕ
  pub expiry : ℕ
  pub decimals : ℕ

pub data MandateError : Type 0 where
  bad_expiry bad_decimals : MandateError
  bad_amount : AmountError → MandateError

-- Number.MAX_SAFE_INTEGER
abbrev pub max_expiry : ℕ
max_expiry = max_safe_integer

-- `Number.isInteger(expiry) && expiry > 0 && expiry <= MAX_EXPIRY`
unfoldable pub read_expiry : Number → Result MandateError ℕ
read_expiry (int (pos n)) = if ltb 0 n && leb n max_expiry then ok n else err bad_expiry
read_expiry (int (negsuc n)) = err bad_expiry
read_expiry non_integer = err bad_expiry

-- `decimals ?? DEFAULT_DECIMALS`; `toStroops` throws on a number that is not natural.
unfoldable pub read_decimals : Option Number → Result MandateError ℕ
read_decimals none = ok default_decimals
read_decimals (some (int (pos n))) = ok n
read_decimals (some (int (negsuc n))) = err bad_decimals
read_decimals (some non_integer) = err bad_decimals

unfoldable pub mandate_amount : Text → ℕ → Result MandateError ℕ
mandate_amount max_amount decimals = elim (to_stroops max_amount decimals) [
  | err e ↦ err (bad_amount e)
  | ok stroops ↦ ok stroops
]

abbrev pub nonce_or : Text → Option Text → Text
nonce_or fresh none = fresh
nonce_or fresh (some nonce) = nonce

-- The object whose text is hashed, in the order of its keys.
unfoldable pub mandate_fields : CreateInput → ℕ → Text → Fields
unfolding trim
mandate_fields input expiry nonce = field (lit "user") (str input.user) (
    field (lit "agent") (str input.agent) (
      field (lit "merchant") (str input.merchant) (
        field (lit "asset") (str input.asset) (
          field (lit "maxAmount") (str (trim input.max_amount)) (
            field (lit "expiry") (num (int (pos expiry))) (field (lit "nonce") (str nonce) end))))))

module _ (platform : Platform) where
  abbrev pub mandate_bytes : CreateInput → ℕ → Text → List ℕ
  mandate_bytes input expiry nonce =
      platform.sha256
        (platform.to_utf8 (platform.stringify (obj (mandate_fields input expiry nonce))))

  -- The first argument is the nonce that stands in for an absent one.
  unfoldable pub create_intent_mandate : Text → CreateInput → Result MandateError IntentMandate
  unfolding read_expiry read_decimals mandate_amount mandate_fields trim
  create_intent_mandate fresh input = do
    expiry ← read_expiry input.expiry
    decimals ← read_decimals input.decimals
    max_amount ← mandate_amount (trim input.max_amount) decimals
    ok (record {
      id = platform.to_hex (mandate_bytes input expiry (nonce_or fresh input.nonce));
      id_buffer = mandate_bytes input expiry (nonce_or fresh input.nonce);
      user = input.user;
      agent = input.agent;
      merchant = input.merchant;
      asset = input.asset;
      max_amount = max_amount;
      expiry = expiry;
      decimals = decimals;
    })
