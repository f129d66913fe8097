-- ===== src/Tests/Buying.antt =====
-- Runs of the agent.
use reapp_protocol.Common.{
  [], false, find, has, insert, int, is_digits, is_hex64, is_positive_safe, lit, none, ok, pos,
  refl, remove, replicate, some, text_eq, to_lower, trim, true, ◌∷◌, ◌≡◌, ◌≤◌, ◌⊎◌, List,
}
use reapp_protocol.Agent.{
  Agent, State, PendingSettlement, claim_payment_operation, release_payment_operation,
  hydrate_pending_receipt,
}
use reapp_protocol.Agent.Pay.{Call, accepted, pay, pay_claimed, prepare, submit, after_send}
use reapp_protocol.Agent.Exclusive.{unresolved_all, unresolved_all-le-one}
use reapp_protocol.Agent.Reconcile.{reconcile_pending_settlement, not_found}
use reapp_protocol.Agent.Resolution.{Attempt, HeardFinal, reconcile_all, reconcile_all-pending}
use reapp_protocol.PaymentSequence.{
  decimal, resolve_expected_payment_sequence, normalize_expected_payment_sequence, u32_max,
  resolve_expected_payment_sequence-ok, normalize_or,
}
use reapp_protocol.Tests.Scenario.{hash_text, bound_platform}

buying : Unit {0}
unfolding unresolved_all claim_payment_operation release_payment_operation hydrate_pending_receipt
    pay pay_claimed prepare submit after_send resolve_expected_payment_sequence
    normalize_expected_payment_sequence text_eq is_hex64 find has insert remove is_positive_safe
    reapp_protocol.X402.is_positive_decimal reapp_protocol.Amounts.to_stroops
    reapp_protocol.Amounts.value_from reapp_protocol.Amounts.split_dot
    reapp_protocol.Amounts.is_decimal_split reapp_protocol.Amounts.scale_amount is_digits trim
    to_lower reconcile_pending_settlement reapp_protocol.Agent.Reconcile.reconcile_claimed
    reapp_protocol.Agent.Reconcile.after_status reapp_protocol.Agent.Reconcile.restore
    reapp_protocol.Agent.Reconcile.conclude
buying = tt

abbrev buyer : Agent
buyer = record {
  mandate_id = replicate 64 b'0';
  decimals = 1;
  claim_key = lit "pass\nR\n0";
  owner = 1;
  has_receipt_store = true;
  before = λ a b. false;
}

abbrev fresh : State
fresh = record { pending = none; payment_claim_key = none; claims = [] }

abbrev call : Call
call = record {
  amount = lit "5";
  hold_until_delivery = true;
  requested = some (decimal (lit "3"));
  listed = some [];
  current_seq = some (int (pos 3));
  signed = some (record { hash = some hash_text; max_time = int (pos 160) });
  now = 100;
  on_prepared = some none;
  sent = record { reported = none; result = some (accepted (some hash_text)) };
}

held_run : unresolved_all bound_platform buyer (call ∷ call ∷ []) fresh ≡ 1
unfolding buying
held_run = refl

unresolved_all-le-one_example : unresolved_all bound_platform buyer (call ∷ call ∷ []) fresh ≤ 1
unresolved_all-le-one_example = unresolved_all-le-one bound_platform buyer (call ∷ call ∷ []) fresh

resolve_expected_payment_sequence-ok_example :
    (int (pos 3) ≡ int (pos 3)) × (3 ≤ u32_max) × (normalize_or 3 (some (decimal (lit "3"))) ≡ ok 3)
unfolding buying
resolve_expected_payment_sequence-ok_example =
    resolve_expected_payment_sequence-ok (int (pos 3)) (some (decimal (lit "3"))) 3 refl

abbrev waiting : PendingSettlement
waiting = record {
  tx_hash = hash_text;
  mandate_id = replicate 64 b'0';
  amount = lit "5";
  expected_seq = lit "3";
  submitted_at = int (pos 100);
  valid_until = int (pos 160);
  receipt_id = none;
}

abbrev locked : State
locked = record {
  pending = some waiting;
  payment_claim_key = some buyer.claim_key;
  claims = (buyer.claim_key, 1) ∷ [];
}

-- The envelope could still be included at 160.
reconcile_run :
    (reconcile_pending_settlement bound_platform buyer none
      (some [])
      (some (not_found 160 90))
      true
      locked).1
    ≡ locked
unfolding buying
reconcile_run = refl

-- First the envelope can still be included; then the history begins after it was submitted.
abbrev attempts : List Attempt
attempts =
    record { listed = some []; status = some (not_found 160 90); cleared = true }
    ∷ record { listed = none; status = some (not_found 200 101); cleared = true }
    ∷ []

reconcile_all_run : (reconcile_all bound_platform buyer attempts locked).pending ≡ some waiting
unfolding buying reconcile_all
reconcile_all_run = refl

reconcile_all-pending_example :
    ((reconcile_all bound_platform buyer attempts locked).pending ≡ some waiting)
    ⊎ HeardFinal waiting attempts
reconcile_all-pending_example =
    reconcile_all-pending bound_platform buyer attempts waiting locked refl
