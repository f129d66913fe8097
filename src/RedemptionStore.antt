-- ===== src/RedemptionStore.antt =====
-- Stores that accept a payment or a mandate once: `RedemptionStore` of
-- packages/express-middleware/src/types.ts with `InMemoryRedemptionStore` of proof-store.ts, and
-- `InMemoryAp2ReplayStore` of packages/ap2/src/replay-store.ts.
pub mod Once
use reapp_protocol.Common.{
  ==_iff, >>=-eq-ok, All, Bool, Bool-cases, List, List-cases, Number, Option, Option-cases, Result,
  String, Text, [], all, and3_elim, and4_elim, and_elim, ap, arith, err, false, find, find-insert,
  find-insert_self, find-remove, find_of_not_has, guard, has, has-eq-find, if◌then◌else◌, inl, inr,
  insert, int, is_digit, is_digits, is_exact, is_hex64, is_hex_digit, is_natural_safe,
  is_positive_safe, is_space, leb, leb→le, length, length-append, length-replicate, lit, lower_unit,
  ltb, ltb→lt, lt→ltb, map, max_safe_integer, natural, natural_pos, negsuc, non_integer, none, not,
  ok, or_elim_false, pos, refl, remove, replicate, some, suc, sym, take, text_eq, text_eq_refl,
  text_eq_iff, text_eq→eq, text_ne, to_lower, to_lower_idempotent, to_upper, trim, trim_start, true,
  upper_unit, zero, ℕ, ℤ, ◌%◌, ◌&&◌, ◌*◌, ◌++◌, ◌+◌, ◌-◌, ◌/◌, ◌<◌, ◌==◌, ◌>>=◌, ◌>>◌, ◌^◌, ◌||◌,
  ◌↔◌, ◌∙◌, ◌∷◌, ◌≡◌, ◌≢◌, ◌≤◌, ◌⊎◌,
}
use reapp_protocol.Payment.{
  PaymentRequirement, VerifiedPayment, FailureKind, invalid, unavailable, Reason, hash_not_hex,
  wrong_passphrase, identity_read_failed, transaction_read_failed, not_found, unsafe_ledgers,
  ledger_ahead, outside_freshness_window, transaction_is, no_events, several_payments, no_payment,
  paid_below, mandate_read_failed, merchant_differs, asset_differs, several_transfers, no_transfer,
  VerificationResult, verified, refused, Reply, answer, unsupported, threw, supported,
}

pub record RedemptionRecord : Type 0 where
  pub key : Text
  pub payment : VerifiedPayment
  pub accepted_through_ledger : ℕ

pub data Consumption : Type 0 where
  consumed duplicate : Consumption

-- What the middleware takes for its store.
pub record RedemptionStore : Type 1 where
  pub State : Type 0
  pub consume_once : RedemptionRecord → State → Reply Consumption × State

unfoldable pub consume_once :
    RedemptionRecord → List (Text × RedemptionRecord) → Consumption × List (Text × RedemptionRecord)
consume_once r records =
    if has r.key records then (duplicate, records) else (consumed, insert r.key r records)

abbrev pub in_memory : RedemptionStore
in_memory = record {
  State = List (Text × RedemptionRecord);
  consume_once = λ r s. let (reply, s') = consume_once r s in (answer reply, s');
}

pub record ReplayRecord : Type 0 where
  pub key : Text
  pub namespace : Text
  pub mandate_hash : Text
  pub user : Text
  pub accepted_at : ℕ

-- What the AP2 validator takes for its store.
pub record ReplayStore : Type 1 where
  pub State : Type 0
  pub consume_once : ReplayRecord → State → Reply Consumption × State

unfoldable pub set_has : Text → List Text → Bool
set_has k [] = false
set_has k (j ∷ s) = if text_eq j k then true else set_has k s

unfoldable pub consume_mandate : ReplayRecord → List Text → Consumption × List Text
unfolding set_has
consume_mandate r seen =
    if set_has r.key seen then (duplicate, seen) else (consumed, seen ++ r.key ∷ [])

abbrev pub in_memory_replay : ReplayStore
in_memory_replay = record {
  State = List Text;
  consume_once = λ r s. let (reply, s') = consume_mandate r s in (answer reply, s');
}
