-- ===== src/Agent/Fetch.antt =====
-- What the paid fetch checks before it pays: the class Agent of packages/sdk/src/index.ts, `fetch`
-- from its first answer up to the payment.
use reapp_protocol.Common.{
  Bool, List, Option, Result, Text, [], conjunction, err, false, guard, if◌then◌else◌, leb, lit,
  ltb, none, not, ok, some, text_eq, true, ℕ, ◌&&◌, ◌++◌, ◌+◌, ◌==◌, ◌>>=◌, ◌>>◌, ◌||◌, ◌∷◌,
}
use reapp_protocol.Json.{Json, Url, Platform}
use reapp_protocol.X402.{X402Error, BoundChallenge, bound_payment_scheme}
use reapp_protocol.X402.Required.{PaymentRequired, parse402}
use reapp_protocol.Amounts.{AmountError, to_stroops, show}

pub data FetchError : Type 0 where
  cannot_negotiate no_receipt_store other_merchant other_asset legacy_refused bad_url : FetchError
  bad_scheme not_get other_request other_registry other_mandate bad_amount bad_window : FetchError
  bad_requirement : X402Error → FetchError

abbrev pub Fetching : Type 0 → Type 0
Fetching A = Result FetchError A

-- What the agent knows of its mandate and its deployment.
pub record Wallet : Type 0 where
  pub merchant : Text
  pub asset : Text
  pub decimals : ℕ
  pub registry_id : Text
  pub network_passphrase : Text
  pub bound_only : Bool
  pub has_receipt_store : Bool

-- A request as it is made; the method is in upper case, `GET` where none was given.
pub record Attempt : Type 0 where
  pub url : Text
  pub method : Text
  pub now : ℕ

abbrev pub is_text : Text → Option Text → Bool
is_text s none = false
is_text s (some t) = text_eq t s

abbrev pub is_absent : Option Text → Bool
is_absent none = true
is_absent (some _) = false

abbrev pub url_of : Option Url → Fetching Url
url_of none = err bad_url
url_of (some u) = ok u

abbrev pub amount_of : Result AmountError ℕ → Fetching ℕ
amount_of (err e) = err bad_amount
amount_of (ok n) = ok n

abbrev pub or_requirement : Result X402Error PaymentRequired → Fetching PaymentRequired
or_requirement (err e) = err (bad_requirement e)
or_requirement (ok r) = ok r

abbrev pub has_challenge : Option BoundChallenge → Bool
has_challenge none = false
has_challenge (some _) = true

module _ (platform : Platform) (wallet : Wallet) where
  abbrev pub expected_network_id : Text
  expected_network_id =
      platform.to_hex (platform.sha256 (platform.to_utf8 wallet.network_passphrase))

  abbrev pub request_tests : BoundChallenge → PaymentRequired → Attempt → Url → List Bool
  request_tests c required attempt target =
      text_eq c.audience target.origin
      ∷ text_eq c.method attempt.method
      ∷ text_eq c.resource (target.pathname ++ target.search)
      ∷ text_eq required.resource (target.pathname ++ target.search)
      ∷ is_absent c.body_sha256
      ∷ []

  abbrev pub registry_tests : BoundChallenge → PaymentRequired → List Bool
  registry_tests c required =
      text_eq c.registry_id wallet.registry_id
      ∷ is_text wallet.registry_id required.contract
      ∷ text_eq c.network_id expected_network_id
      ∷ []

  abbrev pub mandate_tests : BoundChallenge → PaymentRequired → List Bool
  mandate_tests c required =
      text_eq c.merchant wallet.merchant
      ∷ text_eq c.asset wallet.asset
      ∷ text_eq c.network required.network
      ∷ []

  unfoldable pub check_challenge : BoundChallenge → PaymentRequired → Attempt → Fetching (Unit {0})
  unfolding to_stroops show
  check_challenge c required attempt = do
    target ← url_of (platform.parse_url attempt.url)
    guard (text_eq required.scheme bound_payment_scheme && text_eq c.scheme bound_payment_scheme)
        bad_scheme
    guard (text_eq attempt.method (lit "GET")) not_get
    guard (conjunction (request_tests c required attempt target)) other_request
    guard (conjunction (registry_tests c required)) other_registry
    guard (conjunction (mandate_tests c required)) other_mandate
    stroops ← amount_of (to_stroops required.amount c.decimals)
    guard (text_eq c.amount_stroops (show stroops) && (c.decimals == wallet.decimals)) other_mandate
    guard (ltb attempt.now c.expires_at && leb c.issued_at (attempt.now + 60)) bad_window

  abbrev pub check_if : Option BoundChallenge → PaymentRequired → Attempt → Fetching (Unit {0})
  check_if none required attempt = ok tt
  check_if (some c) required attempt = check_challenge c required attempt

  -- From the parsed requirement up to the payment.
  unfoldable pub check_required : PaymentRequired → Attempt → Fetching (Unit {0})
  unfolding check_challenge
  check_required required attempt = do
    guard wallet.has_receipt_store no_receipt_store
    guard (text_eq required.pay_to wallet.merchant) other_merchant
    guard (text_eq required.asset [] || text_eq required.asset wallet.asset) other_asset
    guard (not wallet.bound_only || has_challenge required.challenge) legacy_refused
    check_if required.challenge required attempt

  unfoldable pub requirement_to_pay :
      (Json → Text) → Option Json → Attempt → Fetching PaymentRequired
  unfolding parse402 check_required
  requirement_to_pay string_of body attempt = do
    required ← or_requirement (parse402 platform string_of body)
    check_required required attempt
    ok required

-- What becomes of the first answer: it is returned as it is, or its requirement is paid.
pub data First : Type 0 where
  returned : First
  pays : PaymentRequired → First

unfoldable pub first_answer :
    Platform → Wallet → (Json → Text) → ℕ → Option Json → Attempt → Fetching First
unfolding requirement_to_pay
first_answer platform wallet string_of status body attempt =
    let paying = requirement_to_pay platform wallet string_of body attempt >>= (λ r. ok (pays r)) in
    if status == 426 then err cannot_negotiate else if status == 402 then paying else ok returned
