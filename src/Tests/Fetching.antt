-- ===== src/Tests/Fetching.antt =====
-- A run of the paid fetch up to its payment, with the challenge of the scenario.
use reapp_protocol.Common.{
  ℕ, ◌≡◌, is_exact, to_upper, is_hex64, Text, [], if◌then◌else◌, int, is_exact, is_hex64, lit, ok,
  pos, refl, some, text_eq, to_upper, true, ℕ, ◌≡◌,
}
use reapp_protocol.Json.{Json, num, str, arr, cons, nil, obj, field, end, Platform, is_base64}
use reapp_protocol.X402.Required.{PaymentRequired}
use reapp_protocol.X402.Wire.{challenge_json}
use reapp_protocol.X402.{
  bound_payment_scheme, parse_challenge, exact_keys, canonical_base64url32, body_hash,
  is_positive_decimal, safe_integer, parse_authorization, canonical_origin, canonical_base64,
}
use reapp_protocol.Agent.Fetch.{Wallet, Attempt, pays, first_answer}
use reapp_protocol.Agent.Payable.{IsPayable, first_answer-IsPayable}
use reapp_protocol.Tests.Scenario.{platform, url, challenge}

abbrev shop_platform : Platform
shop_platform = record (platform Json.null) {
  parse_url = λ s. some (
      if text_eq s (lit "https://shop/r")
      then record (url (lit "https://shop")) { pathname = lit "/r" }
      else url s);
}

abbrev wallet : Wallet
wallet = record {
  merchant = lit "M";
  asset = lit "S";
  decimals = 1;
  registry_id = lit "R";
  network_passphrase = lit "pass";
  bound_only = true;
  has_receipt_store = true;
}

abbrev attempt : Attempt
attempt = record { url = lit "https://shop/r"; method = lit "GET"; now = 150 }

abbrev required : PaymentRequired
required = record {
  scheme = bound_payment_scheme;
  network = lit "net";
  amount = lit "5";
  asset = lit "S";
  pay_to = lit "M";
  resource = lit "/r";
  contract = some (lit "R");
  challenge = some challenge;
}

abbrev body : Json
body = obj (
    field (lit "accepts")
      (arr (
        cons
          (obj (
            field (lit "scheme") (str bound_payment_scheme) (
              field (lit "network") (str (lit "net")) (
                field (lit "maxAmountRequired") (str (lit "5")) (
                  field (lit "payTo") (str (lit "M")) (
                    field (lit "asset") (str (lit "S")) (
                      field (lit "resource") (str (lit "/r")) (
                        field (lit "extra")
                          (obj (
                            field (lit "reappProofVersion") (num (int (pos 2))) (
                              field (lit "contract") (str (lit "R"))
                                (field (lit "challenge") (challenge_json challenge) end))))
                          end))))))))
          nil))
      end)

abbrev no_text : Json → Text
no_text _ = []

paying : first_answer shop_platform wallet no_text 402 (some body) attempt ≡ ok (pays required)
unfolding first_answer text_eq challenge_json parse_challenge exact_keys canonical_base64url32
    is_exact to_upper body_hash is_hex64 is_positive_decimal safe_integer parse_authorization
    canonical_origin canonical_base64 is_base64
paying = refl

first_answer-IsPayable_example :
    ◌≡◌ {A = ℕ} 402 402 × IsPayable shop_platform wallet attempt required
first_answer-IsPayable_example =
    first_answer-IsPayable shop_platform wallet no_text 402 (some body) attempt required paying
