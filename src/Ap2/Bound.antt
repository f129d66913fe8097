-- ===== src/Ap2/Bound.antt =====
-- What a binding holds, and that a validator gets it again from the payload
-- (packages/ap2/src/index.ts, credential.ts).
use reapp_protocol.Common.{
  >>=-eq-ok, List, Option, Result, Text, [], and_elim, ap, arith, err, int, is_exact, leb, lit, ok,
  pos, refl, some, sym, text_eq_refl, text_eq→eq, trim, true, ℕ, ◌∙◌, ◌∷◌, ◌≡◌, le→leb,
}
use mathlib.Core.Path.{subst}
use reapp_protocol.Json.{Json, Platform, member}
use reapp_protocol.Mandate.{MandateError, create_intent_mandate, read_decimals}
use reapp_protocol.Mandate.Created.{IsCreated, create_intent_mandate-IsCreated}
use reapp_protocol.Ap2.Calendar.{epoch, print_civil}
use reapp_protocol.Ap2.Calendar.RoundTrip.{to_civil-IsCivil, read_utc-print_civil}
use reapp_protocol.Ap2.Types.{Stellar, StellarKeys, Binding, stellar_keys}
use reapp_protocol.Ap2.Intent.{
  reject_unknown_keys, normalize_ap2_intent, binding_of, mandate_input, of_mandate, read_stellar,
  bind_with,
}
use reapp_protocol.Ap2.Credential.{
  rebuild_credential_binding, canonical_expiry, unix_of, payload_of, rebuild_input,
}
use reapp_protocol.Ap2.Normalized.{
  IsExpiry, IsIntent, IsStellar, ok_injective, normalize_ap2_intent-IsIntent,
  read_stellar-IsStellar,
}

-- A binding and the members of `stellar` that it was made from.
pub record IsBound (platform : Platform) (keys_of : StellarKeys) (now : ℕ) (stellar : Stellar)
    (b : Binding) : Type 0 where
  pub unix : ℕ
  pub intent : IsIntent keys_of now b.normalized_intent unix
  pub authorized : IsStellar keys_of stellar
  pub created :
      create_intent_mandate platform [] (mandate_input platform stellar b.normalized_intent unix)
      ≡ ok b.mandate
  pub bound : b ≡ binding_of platform b.normalized_intent stellar.nonce b.mandate

of_mandate-ok :
    {A : Type 0} (platform : Platform) (keys_of : StellarKeys) (r : Result MandateError A) {a : A}
    → of_mandate platform keys_of r ≡ ok a
    → r ≡ ok a
of_mandate-ok platform keys_of (err e) h = absurd (cc)
of_mandate-ok platform keys_of (ok b) h = cc

pub bind_with-IsBound :
    (platform : Platform) (keys_of : StellarKeys) (now : ℕ) (entropy : Option (List ℕ))
    (input : Json) (stellar : Stellar) (b : Binding)
    → bind_with platform keys_of now entropy input ≡ ok (stellar, b)
    → IsBound platform keys_of now stellar b
unfolding bind_with
bind_with-IsBound platform keys_of now entropy input stellar b h =
    let (fields, _, h1) =
      >>=-eq-ok (reject_unknown_keys (some input) (lit "intent" ∷ lit "stellar" ∷ [])) _ h in
    let (members, _, h2) =
      >>=-eq-ok (reject_unknown_keys (member (lit "stellar") fields) stellar_keys) _ h1 in
    let (normal, normalized, h3) =
      >>=-eq-ok (normalize_ap2_intent keys_of now (member (lit "intent") fields)) _ h2 in
    let (s, authorized, h4) = >>=-eq-ok (read_stellar platform keys_of entropy members) _ h3 in
    let (m, created, same) =
      >>=-eq-ok
        (of_mandate platform keys_of
          (create_intent_mandate platform [] (mandate_input platform s normal.0 normal.1)))
        _ h4 in
    let is : ◌≡◌ {A = Stellar × Binding} (s, binding_of platform normal.0 s.nonce m) (stellar, b) =
      ok_injective same in
    subst (λ p. IsBound platform keys_of now p.0 p.1) is
      (record {
        unix = normal.1;
        intent = normalize_ap2_intent-IsIntent keys_of now _ normal.0 normal.1 normalized;
        authorized = read_stellar-IsStellar keys_of platform entropy members s authorized;
        created = of_mandate-ok platform keys_of _ created;
        bound = refl;
      })

pub trim_of_exact : (s : Text) → is_exact s ≡ true → trim s ≡ s
unfolding is_exact
trim_of_exact s h = text_eq→eq (trim s) s (and_elim _ _ h).1

canonical_expiry-ok :
    (now : ℕ) (iso : Text) (unix : ℕ) (e : IsExpiry now iso unix)
    → canonical_expiry iso ≡ ok e.instant
unfolding canonical_expiry
canonical_expiry-ok now iso unix e =
    let c = to_civil-IsCivil e.instant e.civil e.dated in
    rw (e.printed, read_utc-print_civil e.civil c.fits, c.real, c.same, e.dated)
      (rw (text_eq_refl (print_civil e.civil)) refl)

unix_of-late :
    (now : ℕ) (iso : Text) (unix : ℕ) (e : IsExpiry now iso unix)
    → unix_of e.instant ≡ int (pos unix)
unix_of-late now iso unix e =
    let late : leb epoch e.instant ≡ true = le→leb epoch e.instant (omega (arith, e.future)) in
    rw (late, e.unix_is) refl

decimals_injective : {a b : ℕ} → ◌≡◌ {A = Result MandateError ℕ} (ok a) (ok b) → a ≡ b
decimals_injective h = cc

module _ (platform : Platform) (keys_of : StellarKeys) (now : ℕ) (stellar : Stellar) (b : Binding)
    (is : IsBound platform keys_of now stellar b) where
  abbrev bound_instant : ℕ
  bound_instant = is.intent.expiry.instant

  pub bound-IsCreated :
      IsCreated platform [] (mandate_input platform stellar b.normalized_intent is.unix) b.mandate
  bound-IsCreated = create_intent_mandate-IsCreated platform [] _ b.mandate is.created

  pub bound_decimals : b.mandate.decimals ≡ stellar.decimals
  unfolding read_decimals
  bound_decimals = sym (decimals_injective bound-IsCreated.decimals)

  rebuild_input-mandate_input :
      rebuild_input platform (payload_of platform b stellar.max_amount) bound_instant
      ≡ mandate_input platform stellar b.normalized_intent is.unix
  rebuild_input-mandate_input =
      let user = bound-IsCreated.user in
      let agent = bound-IsCreated.agent in
      let asset = bound-IsCreated.asset in
      let decimals = bound_decimals in
      let max_amount = trim_of_exact stellar.max_amount is.authorized.max_amount in
      let expiry = unix_of-late now b.normalized_intent.intent_expiry is.unix is.intent.expiry in
      let version = ap (λ x. x.binding_version) is.bound in
      let nonce = ap (λ x. x.binding_nonce) is.bound in cc

  -- The payload of a binding is rebuilt to the binding itself, so that the two derive one mandate id.
  pub rebuild_lem :
      rebuild_credential_binding platform (payload_of platform b stellar.max_amount) ≡ ok b
  unfolding rebuild_credential_binding
  rebuild_lem =
      let expiry =
        canonical_expiry-ok now b.normalized_intent.intent_expiry is.unix is.intent.expiry in
      let canonical = ap (λ x. x.canonical_intent) is.bound in
      let hash = ap (λ x. x.intent_hash) is.bound in
      let created : create_intent_mandate platform []
            (rebuild_input platform (payload_of platform b stellar.max_amount) bound_instant)
          ≡ ok b.mandate =
        ap (create_intent_mandate platform []) rebuild_input-mandate_input ∙ is.created in
      rw (expiry, created) (cc)

-- Whatever `bindIntentMandate` binds is what a validator rebuilds from the payload that is signed for
-- it: the same intent hash, the same mandate, and so the same mandate id.
pub rebuild-bind_with :
    (platform : Platform) (keys_of : StellarKeys) (now : ℕ) (entropy : Option (List ℕ))
    (input : Json) (stellar : Stellar) (b : Binding)
    → bind_with platform keys_of now entropy input ≡ ok (stellar, b)
    → rebuild_credential_binding platform (payload_of platform b stellar.max_amount) ≡ ok b
rebuild-bind_with platform keys_of now entropy input stellar b h =
    rebuild_lem platform keys_of now stellar b
      (bind_with-IsBound platform keys_of now entropy input stellar b h)
