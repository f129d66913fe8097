-- ===== src/Tests/Settled.antt =====
-- Runs of the verifier and of the amounts.
use reapp_protocol.Common.{
  arith, err, is_digits, is_hex64, lit, none, ok, refl, replicate, text_eq, to_lower, trim, ◌-◌,
  ◌^◌, ◌↔◌, ◌≡◌, ◌≤◌,
}
use reapp_protocol.Payment.{VerifiedPayment, verified}
use reapp_protocol.Events.{
  chosen, exact_value, payment_payload, registry_payment, select_payment, TransferCheck,
  is_transfer, select_transfer,
}
use reapp_protocol.Events.Selection.{OnePays, select_payment_iff}
use reapp_protocol.Events.Transfers.{OneTransfer, select_transfer_iff}
use reapp_protocol.Verifier.{to_hex, payment_check, verify}
use reapp_protocol.Verifier.Soundness.{IsSettled, verify-IsSettled}
use reapp_protocol.Amounts.{to_stroops, format_stroops, too_large}
use reapp_protocol.Amounts.RoundTrip.{to_stroops-format_stroops, to_stroops-le-i128_max}
use reapp_protocol.Tests.Scenario.{hash_text, mandate_bytes, events, chain, rules, requirement}

verifier : Unit {0}
unfolding verify select_payment select_transfer registry_payment payment_payload exact_value
    is_transfer text_eq is_hex64 to_lower to_hex format_stroops to_stroops trim is_digits
verifier = tt

abbrev evidence_found : VerifiedPayment
evidence_found = record {
  tx_hash = hash_text;
  ledger = 90;
  mandate_id = replicate 64 b'0';
  user = lit "U";
  agent = lit "G";
  amount = lit "5";
  amount_stroops = 50;
  merchant = lit "M";
  asset = lit "S";
  registry_id = lit "R";
  scheme = requirement.scheme;
  network = lit "net";
}

verified_run : verify rules chain hash_text requirement ≡ verified evidence_found
unfolding verifier
verified_run = refl

verify-IsSettled_example : IsSettled rules chain hash_text requirement evidence_found
verify-IsSettled_example =
    verify-IsSettled rules chain hash_text requirement evidence_found verified_run

select_payment_iff_example :
    (select_payment events (payment_check requirement)
      ≡ chosen (record { mandate_id = mandate_bytes; amount = 50 }))
    ↔ OnePays
        (payment_check requirement)
        events
        (record { mandate_id = mandate_bytes; amount = 50 })
select_payment_iff_example =
    select_payment_iff (payment_check requirement) events
      (record { mandate_id = mandate_bytes; amount = 50 })

abbrev wanted : TransferCheck
wanted = record { asset = lit "S"; user = lit "U"; merchant = lit "M"; amount = 50 }

select_transfer_iff_example : (select_transfer events wanted ≡ none) ↔ OneTransfer wanted events
select_transfer_iff_example = select_transfer_iff wanted events

to_stroops-format_stroops_example : to_stroops (format_stroops 12050 3) 3 ≡ ok 12050
to_stroops-format_stroops_example = to_stroops-format_stroops 12050 3 (omega arith)

format_run : format_stroops 12050 3 ≡ lit "12.05"
unfolding verifier
format_run = refl

to_stroops-le-i128_max_example : 50 ≤ 2 ^ 127 - 1
unfolding verifier
to_stroops-le-i128_max_example = to_stroops-le-i128_max (lit " 5.0") 1 50 refl

too_large_run : to_stroops (lit "999999999999999999999999999999999999999") 7 ≡ err too_large
unfolding verifier
too_large_run = refl
