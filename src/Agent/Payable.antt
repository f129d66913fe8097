-- ===== src/Agent/Payable.antt =====
-- What the paid fetch pays for (packages/sdk/src/index.ts).
use reapp_protocol.Common.{
  ==_iff, >>=-eq-ok, Bool, Bool-cases, Option, Result, Text, [], and_elim, ap, arith, conjunction,
  conjunction→All, err, guard-ok, guard_then, inl, inr, leb→le, lit, ltb→lt, none, not, ok, refl,
  some, sym, text_eq, text_eq→eq, true, ℕ, ◌++◌, ◌+◌, ◌<◌, ◌==◌, ◌||◌, ◌∙◌, ◌≡◌, ◌≤◌, ◌⊎◌,
}
use mathlib.Core.Path.{subst}
use reapp_protocol.Json.{Json, Url, Platform}
use reapp_protocol.X402.{BoundChallenge, bound_payment_scheme}
use reapp_protocol.X402.Required.{PaymentRequired, parse402}
use reapp_protocol.Amounts.{AmountError, to_stroops, show}
use reapp_protocol.Agent.Fetch.{
  url_of, amount_of, or_requirement, no_receipt_store, other_merchant, other_asset, legacy_refused,
  bad_scheme, not_get, other_request, other_registry, other_mandate, bad_window, Fetching, Wallet,
  Attempt, is_absent, has_challenge, expected_network_id, request_tests, registry_tests,
  mandate_tests, check_challenge, check_if, check_required, requirement_to_pay, First, pays,
  first_answer,
}

-- A challenge for exactly this request, mandate and deployment, and for this moment.
pub record IsForRequest (platform : Platform) (wallet : Wallet) (attempt : Attempt)
    (required : PaymentRequired) (c : BoundChallenge) : Type 0 where
  pub target : Url
  pub parsed : platform.parse_url attempt.url ≡ some target
  pub get : attempt.method ≡ lit "GET"
  pub scheme : c.scheme ≡ bound_payment_scheme
  pub audience : c.audience ≡ target.origin
  pub method : c.method ≡ attempt.method
  pub resource : c.resource ≡ target.pathname ++ target.search
  pub body : c.body_sha256 ≡ none
  pub registry : c.registry_id ≡ wallet.registry_id
  pub network : c.network_id ≡ expected_network_id platform wallet
  pub merchant : c.merchant ≡ wallet.merchant
  pub asset : c.asset ≡ wallet.asset
  pub stroops : ℕ
  pub amount : to_stroops required.amount wallet.decimals ≡ ok stroops
  pub price : c.amount_stroops ≡ show stroops
  pub alive : attempt.now < c.expires_at
  pub issued : c.issued_at ≤ attempt.now + 60

pub record IsPayable (platform : Platform) (wallet : Wallet) (attempt : Attempt)
    (required : PaymentRequired) : Type 0 where
  pub kept : wallet.has_receipt_store ≡ true
  pub merchant : required.pay_to ≡ wallet.merchant
  pub asset : (required.asset ≡ []) ⊎ (required.asset ≡ wallet.asset)
  pub policy : wallet.bound_only ≡ true → has_challenge required.challenge ≡ true
  pub challenge :
      (c : BoundChallenge)
      → required.challenge ≡ some c
      → IsForRequest platform wallet attempt required c

url_of-ok : (o : Option Url) (u : Url) → url_of o ≡ ok u → o ≡ some u
url_of-ok none u h = absurd (cc)
url_of-ok (some v) u h = cc

amount_of-ok : (r : Result AmountError ℕ) (n : ℕ) → amount_of r ≡ ok n → r ≡ ok n
amount_of-ok (err e) n h = absurd (cc)
amount_of-ok (ok m) n h = cc

is_absent-none : (o : Option Text) → is_absent o ≡ true → o ≡ none
is_absent-none none h = refl
is_absent-none (some s) h = absurd (cc)

module _ (platform : Platform) (wallet : Wallet) (attempt : Attempt)
    (required : PaymentRequired) where
  check_challenge-IsForRequest :
      (c : BoundChallenge)
      → check_challenge platform wallet c required attempt ≡ ok tt
      → IsForRequest platform wallet attempt required c
  unfolding check_challenge
  check_challenge-IsForRequest c h =
      let (target, parsed, h1) = >>=-eq-ok (url_of (platform.parse_url attempt.url)) _ h in
      let (schemes, h2) = guard_then _ bad_scheme _ h1 in
      let (get, h3) = guard_then (text_eq attempt.method (lit "GET")) not_get _ h2 in
      let (request, h4) =
        guard_then (conjunction (request_tests platform wallet c required attempt target))
          other_request _ h3 in
      let (registry, h5) =
        guard_then (conjunction (registry_tests platform wallet c required)) other_registry _ h4 in
      let (mandate, h6) =
        guard_then (conjunction (mandate_tests platform wallet c required)) other_mandate _ h5 in
      let (n, amount, h7) = >>=-eq-ok (amount_of (to_stroops required.amount c.decimals)) _ h6 in
      let (price, h8) = guard_then _ other_mandate _ h7 in
      let window = guard-ok _ bad_window h8 in
      let (audience, (method, (resource, (_, (body, _))))) =
        conjunction→All (request_tests platform wallet c required attempt target) request in
      let (registry_id, (_, (network_id, _))) =
        conjunction→All (registry_tests platform wallet c required) registry in
      let (merchant, (asset, _)) =
        conjunction→All (mandate_tests platform wallet c required) mandate in
      let decimals = (==_iff c.decimals wallet.decimals).0 (and_elim _ _ price).1 in
      record {
        target = target;
        parsed = url_of-ok _ target parsed;
        get = text_eq→eq _ _ get;
        scheme = text_eq→eq _ _ (and_elim _ _ schemes).1;
        audience = text_eq→eq _ _ audience;
        method = text_eq→eq _ _ method;
        resource = text_eq→eq _ _ resource;
        body = is_absent-none _ body;
        registry = text_eq→eq _ _ registry_id;
        network = text_eq→eq _ _ network_id;
        merchant = text_eq→eq _ _ merchant;
        asset = text_eq→eq _ _ asset;
        stroops = n;
        amount = ap (to_stroops required.amount) (sym decimals) ∙ amount_of-ok _ n amount;
        price = text_eq→eq _ _ (and_elim _ _ price).0;
        alive = ltb→lt _ _ (and_elim _ _ window).0;
        issued = leb→le _ _ (and_elim _ _ window).1;
      }

  or_asset :
      text_eq required.asset [] || text_eq required.asset wallet.asset ≡ true
      → (required.asset ≡ []) ⊎ (required.asset ≡ wallet.asset)
  or_asset h = elim (Bool-cases (text_eq required.asset [])) [
    | inl free ↦ inl (text_eq→eq _ _ free)
    | inr named ↦ inr (text_eq→eq _ _ (ground arith))
  ]

  or_policy : (a b : Bool) → (not a || b) ≡ true → a ≡ true → b ≡ true
  or_policy a b h strict = ground arith

  check_if-ok :
      (c : BoundChallenge)
      → required.challenge ≡ some c
      → check_if platform wallet required.challenge required attempt ≡ ok tt
      → check_challenge platform wallet c required attempt ≡ ok tt
  check_if-ok c is h = sym (ap (λ o. check_if platform wallet o required attempt) is) ∙ h

  check_required-IsPayable :
      check_required platform wallet required attempt ≡ ok tt
      → IsPayable platform wallet attempt required
  unfolding check_required
  check_required-IsPayable h =
      let (kept, h1) = guard_then wallet.has_receipt_store no_receipt_store _ h in
      let (merchant, h2) =
        guard_then (text_eq required.pay_to wallet.merchant) other_merchant _ h1 in
      let (asset, h3) = guard_then _ other_asset _ h2 in
      let (policy, h4) = guard_then _ legacy_refused _ h3 in
      record {
        kept = kept;
        merchant = text_eq→eq _ _ merchant;
        asset = or_asset asset;
        policy = or_policy wallet.bound_only (has_challenge required.challenge) policy;
        challenge = λ c is. check_challenge-IsForRequest c (check_if-ok c is h4);
      }

pays_injective :
    {a b : PaymentRequired} → ◌≡◌ {A = Fetching First} (ok (pays a)) (ok (pays b)) → a ≡ b
pays_injective h = cc

-- The paid fetch goes on to pay only for an answer 402 that names the merchant of its mandate and
-- either no asset or the mandate's, where receipts are stored, never on a legacy challenge under the
-- bound-only policy, and never on a bound challenge but one for exactly this request, mandate,
-- network and registry, for the price of the requirement, in its window.
pub first_answer-IsPayable :
    (platform : Platform) (wallet : Wallet) (string_of : Json → Text) (status : ℕ)
    (body : Option Json) (attempt : Attempt) (required : PaymentRequired)
    → first_answer platform wallet string_of status body attempt ≡ ok (pays required)
    → (status ≡ 402) × IsPayable platform wallet attempt required
unfolding first_answer requirement_to_pay
first_answer-IsPayable platform wallet string_of status body attempt required h =
    elim (Bool-cases (status == 426)) [
      | inl old ↦ absurd (let e = rw (old, first_answer) at h in cc)
      | inr newer ↦ elim (Bool-cases (status == 402)) [
        | inr other ↦ absurd (let e = rw (newer, other, first_answer) at h in cc)
        | inl asked ↦
            let e = rw (newer, asked, first_answer) at h in
            let (r, chosen, same) =
              >>=-eq-ok (requirement_to_pay platform wallet string_of body attempt) _ e in
            let (q, _, rest) =
              >>=-eq-ok (or_requirement (parse402 platform string_of body)) _ chosen in
            let (_, passes, last) = >>=-eq-ok (check_required platform wallet q attempt) _ rest in
            let is : r ≡ required = pays_injective same in
            let is' : q ≡ required = cc in
            (
              (==_iff status 402).0 asked,
              subst (IsPayable platform wallet attempt) is'
                  (check_required-IsPayable platform wallet attempt q passes),
            )
      ]
    ]
