-- ===== src/Ap2/Admission.antt =====
-- What an admitted mandate has passed (packages/ap2/src/validator.ts).
use reapp_protocol.Common.{
  >>=-eq-ok, Bool, List, Number, Option, Result, Text, and_elim, ap, arith, err, false, int,
  is_natural_safe, leb→le, ltb, ltb→lt, negsuc, non_integer, none, ok, pos, refl, some, sym,
  text_eq→eq, true, ℕ, ◌<◌, ◌∙◌, ◌≡◌, ◌≤◌, guard_then, guard-ok,
}
use reapp_protocol.Json.{Platform}
use reapp_protocol.Amounts.{to_stroops}
use reapp_protocol.Ap2.Types.{Credential, StellarKeys}
use reapp_protocol.Ap2.Credential.{
  parse_signed_ap2_mandate, rebuild_credential_binding, decode_canonical_signature, signing_digest,
}
use reapp_protocol.Ap2.Validator.{
  ErrorCode, invalid_credential, unsupported_version, invalid_signature, signer_mismatch,
  binding_mismatch, merchant_mismatch, invalid_amount, amount_exceeds_mandate, expired,
  unclassified, ValidateInput, Validated, validated_of, capture_now, or_code, is_supported,
  read_amount, has_valid_parties, check_signature, validate, check_verified,
}

-- The signature of a credential is valid under the key of its user.
pub record IsSigned (platform : Platform) (c : Credential) : Type 0 where
  pub signature : List ℕ
  pub digest : List ℕ
  pub decoded : decode_canonical_signature platform c.signature ≡ ok signature
  pub digested : signing_digest platform c.credential_version c.payload c.mandate_hash ≡ ok digest
  pub valid : platform.verify_signature c.payload.stellar.user digest signature ≡ some true

-- Which validated mandates a request may obtain.
pub record IsAdmissible (platform : Platform) (keys : StellarKeys) (clock : Number)
    (input : ValidateInput) (v : Validated) : Type 0 where
  pub parsed : parse_signed_ap2_mandate input.credential ≡ ok v.credential
  pub supported : is_supported v.credential ≡ true
  pub user : v.credential.payload.stellar.user ≡ input.expected_user
  pub merchant : v.credential.payload.intent.merchant ≡ input.merchant
  pub signer : keys.is_ed25519_public_key input.expected_user ≡ true
  pub agent : keys.is_ed25519_public_key v.credential.payload.stellar.agent ≡ true
  pub payee : keys.is_address input.merchant ≡ true
  pub asset : keys.is_contract v.credential.payload.stellar.asset ≡ true
  pub rebuilt : rebuild_credential_binding platform v.credential.payload ≡ ok v.binding
  pub bound : v.binding.mandate.id ≡ v.credential.mandate_hash
  pub hash : v.mandate_hash ≡ v.credential.mandate_hash
  pub signed : IsSigned platform v.credential
  pub amount : to_stroops input.amount v.credential.payload.stellar.decimals ≡ ok v.amount_stroops
  pub positive : 0 < v.amount_stroops
  pub covered : v.amount_stroops ≤ v.binding.mandate.max_amount
  pub alive : v.accepted_at < v.binding.mandate.expiry
  pub time : clock ≡ int (pos v.accepted_at)

or_code-ok :
    {E A : Type 0} (code : ErrorCode) (r : Result E A) {a : A} → or_code code r ≡ ok a → r ≡ ok a
or_code-ok code (ok b) h = cc
or_code-ok code (err e) h = absurd (cc)

ok_injective : {E A : Type 0} {a b : A} → ◌≡◌ {A = Result E A} (ok a) (ok b) → a ≡ b
ok_injective h = cc

capture_now-ok : (clock : Number) {t : ℕ} → capture_now clock ≡ ok t → clock ≡ int (pos t)
unfolding capture_now is_natural_safe
capture_now-ok (int (pos n)) h = ground arith
capture_now-ok (int (negsuc n)) h = absurd (cc)
capture_now-ok non_integer h = absurd (cc)

read_amount-ok :
    (amount : Text) (decimals : ℕ) {n : ℕ}
    → read_amount amount decimals ≡ ok n
    → (to_stroops amount decimals ≡ ok n) × (0 < n)
unfolding read_amount
read_amount-ok amount decimals {n} h =
    let (m, read, rest) = >>=-eq-ok (or_code invalid_amount (to_stroops amount decimals)) _ h in
    let (positive, same) = guard_then (ltb 0 m) invalid_amount (ok m) rest in
    let is : m ≡ n = cc in
    (
      or_code-ok invalid_amount (to_stroops amount decimals) (read ∙ ap ok is),
      ltb→lt 0 n (ap (ltb 0) (sym is) ∙ positive),
    )

check_verified-ok : (o : Option Bool) → check_verified o ≡ ok tt → o ≡ some true
unfolding check_verified
check_verified-ok none h = absurd (cc)
check_verified-ok (some true) h = refl
check_verified-ok (some false) h = absurd (cc)

module _ (platform : Platform) (keys : StellarKeys) where
  check_signature-ok :
      (c : Credential) → check_signature platform keys c ≡ ok tt → IsSigned platform c
  unfolding check_signature
  check_signature-ok c h =
      let (signature, decoded, rest) =
        >>=-eq-ok (or_code invalid_signature (decode_canonical_signature platform c.signature)) _
          h in
      let (digest, digested, last) =
        >>=-eq-ok
          (or_code unclassified
            (signing_digest platform c.credential_version c.payload c.mandate_hash))
          _ rest in
      record {
        signature = signature;
        digest = digest;
        decoded = or_code-ok invalid_signature _ decoded;
        digested = or_code-ok unclassified _ digested;
        valid = check_verified-ok _ last;
      }

  -- The parties of a credential that passes.
  record HasParties (expected_user : Text) (c : Credential) : Type 0 where
    user : c.payload.stellar.user ≡ expected_user
    signer : keys.is_ed25519_public_key expected_user ≡ true
    agent : keys.is_ed25519_public_key c.payload.stellar.agent ≡ true
    merchant : keys.is_address c.payload.intent.merchant ≡ true
    asset : keys.is_contract c.payload.stellar.asset ≡ true

  has_valid_parties-ok :
      (expected_user : Text) (c : Credential)
      → has_valid_parties platform keys expected_user c ≡ ok tt
      → HasParties expected_user c
  unfolding has_valid_parties
  has_valid_parties-ok expected c h =
      let (both, rest1) = guard_then _ invalid_credential _ h in
      let (user, rest2) = guard_then _ signer_mismatch _ rest1 in
      let (agent, rest3) = guard_then _ invalid_credential _ rest2 in
      let (merchant, rest4) = guard_then _ invalid_credential _ rest3 in
      record {
        user = text_eq→eq _ _ user;
        signer = (and_elim _ _ both).1;
        agent = agent;
        merchant = merchant;
        asset = guard-ok _ invalid_credential rest4;
      }

  -- Whatever is validated passed every check of the request: the credential parses, its versions are
  -- supported, its user and merchant are those asked for and valid addresses, the binding that its
  -- payload gives has the signed mandate hash for its id, the signature verifies under the user's key,
  -- the amount is positive and within the mandate's maximum, and the mandate has not expired.
  pub validate-IsAdmissible :
      (clock : Number) (input : ValidateInput) (v : Validated)
      → validate platform keys clock input ≡ ok v
      → IsAdmissible platform keys clock input v
  unfolding validate
  validate-IsAdmissible clock input v h =
      let (t, captured, h1) = >>=-eq-ok (capture_now clock) _ h in
      let (c, parsed, h2) =
        >>=-eq-ok (or_code invalid_credential (parse_signed_ap2_mandate input.credential)) _ h1 in
      let (supported, h3) = guard_then (is_supported c) unsupported_version _ h2 in
      let (_, parties, h4) =
        >>=-eq-ok (has_valid_parties platform keys input.expected_user c) _ h3 in
      let (binding, rebuilt, h5) =
        >>=-eq-ok (or_code invalid_credential (rebuild_credential_binding platform c.payload)) _
          h4 in
      let (bound, h6) = guard_then _ binding_mismatch _ h5 in
      let (_, signed, h7) = >>=-eq-ok (check_signature platform keys c) _ h6 in
      let (merchant, h8) = guard_then _ merchant_mismatch _ h7 in
      let (n, amount, h9) = >>=-eq-ok (read_amount input.amount c.payload.stellar.decimals) _ h8 in
      let (covered, h10) = guard_then _ amount_exceeds_mandate _ h9 in
      let (alive, same) = guard_then _ expired _ h10 in
      let p = has_valid_parties-ok input.expected_user c parties in
      let (exact, positive) = read_amount-ok input.amount c.payload.stellar.decimals amount in
      let paid_to : c.payload.intent.merchant ≡ input.merchant = sym (text_eq→eq _ _ merchant) in
      let is_v : validated_of c binding n t ≡ v = ok_injective same in
      rw (sym is_v) (record {
        parsed = or_code-ok invalid_credential _ parsed;
        supported = supported;
        user = p.user;
        merchant = paid_to;
        signer = p.signer;
        agent = p.agent;
        payee = ap keys.is_address (sym paid_to) ∙ p.merchant;
        asset = p.asset;
        rebuilt = or_code-ok invalid_credential _ rebuilt;
        bound = text_eq→eq _ _ bound;
        hash = refl;
        signed = check_signature-ok c signed;
        amount = exact;
        positive = positive;
        covered = leb→le n binding.mandate.max_amount covered;
        alive = ltb→lt t binding.mandate.expiry alive;
        time = capture_now-ok clock captured;
      })
