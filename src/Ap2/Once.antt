-- ===== src/Ap2/Once.antt =====
-- Sequences of admissions over the in-memory store, and how often one of them admits a mandate
-- (packages/ap2/src/validator.ts, replay-store.ts).
use reapp_protocol.Common.{
  Bool-cases, List, Number, Result-cases, Text, [], ap, arith, err, false, if◌then◌else◌, inl, inr,
  ok, refl, sym, text_eq, text_eq_refl, text_eq→eq, text_ne, true, ℕ, ◌++◌, ◌+◌, ◌∙◌, ◌∷◌, ◌≡◌, ◌≤◌,
}
use reapp_protocol.Json.{Platform}
use reapp_protocol.RedemptionStore.{in_memory_replay, consume_mandate, set_has}
use reapp_protocol.Ap2.Types.{StellarKeys}
use reapp_protocol.Ap2.Validator.{
  Validating, ValidateInput, Validated, validate, replay_key, after_consumption, consume_validated,
  validate_and_consume,
}

-- One for a result that admits the mandate with the hash.
abbrev pub admission : Text → Validating Validated → ℕ
admission hash (err code) = 0
admission hash (ok v) = if text_eq v.mandate_hash hash then 1 else 0

set_has-append :
    (k j : Text) (seen : List Text)
    → set_has k (seen ++ j ∷ []) ≡ (if text_eq j k then true else set_has k seen)
unfolding set_has
set_has-append k j [] = refl
set_has-append k j (i ∷ seen) = ground (arith, set_has-append k j seen)

module _ (platform : Platform) (keys : StellarKeys) (namespace : Text) where
  -- How many of a sequence of attempts admit the mandate, each with its clock's value.
  unfoldable pub admissions : Text → List (Number × ValidateInput) → List Text → ℕ
  unfolding validate_and_consume
  admissions hash [] seen = 0
  admissions hash ((clock, input) ∷ attempts) seen =
      let (result, seen') =
        validate_and_consume platform keys in_memory_replay namespace clock input seen in
      admission hash result + admissions hash attempts seen'

  abbrev added : Validated → List Text → List Text
  added v seen = seen ++ replay_key namespace v.mandate_hash ∷ []

  kept_known :
      (v : Validated) (seen : List Text) (hash : Text)
      → set_has (replay_key namespace hash) seen ≡ true
      → set_has (replay_key namespace hash) (added v seen) ≡ true
  kept_known v seen hash h =
      ground (
        arith,
        set_has-append (replay_key namespace hash) (replay_key namespace v.mandate_hash) seen,
      )

  own_known :
      (v : Validated) (seen : List Text) (hash : Text)
      → text_eq v.mandate_hash hash ≡ true
      → set_has (replay_key namespace hash) (added v seen) ≡ true
  own_known v seen hash h =
      let same = ap (replay_key namespace) (text_eq→eq v.mandate_hash hash h) in
      set_has-append (replay_key namespace hash) (replay_key namespace v.mandate_hash) seen
      ∙ (rw (sym same, text_eq_refl (replay_key namespace v.mandate_hash)) refl)

  -- A mandate whose key is not known is another one than that of a known key.
  other_of_fresh :
      (v : Validated) (seen : List Text) (hash : Text)
      → set_has (replay_key namespace hash) seen ≡ true
      → set_has (replay_key namespace v.mandate_hash) seen ≡ false
      → text_eq v.mandate_hash hash ≡ false
  other_of_fresh v seen hash h fresh =
      text_ne v.mandate_hash hash (λ e. cc (ap (λ t. set_has (replay_key namespace t) seen) e))

  admissions_of_known :
      (hash : Text) (attempts : List (Number × ValidateInput)) (seen : List Text)
      → set_has (replay_key namespace hash) seen ≡ true
      → admissions hash attempts seen ≡ 0
  unfolding admissions validate_and_consume consume_validated consume_mandate after_consumption
  admissions_of_known hash [] seen h = refl
  admissions_of_known hash ((clock, input) ∷ rest) seen h =
      elim (Result-cases (validate platform keys clock input)) [
        | inl (code, failed) ↦ rw failed (omega (arith, admissions_of_known hash rest seen h))
        | inr (v, valid) ↦ elim (Bool-cases (set_has (replay_key namespace v.mandate_hash) seen)) [
          | inl known ↦ rw (valid, known) (omega (arith, admissions_of_known hash rest seen h))
          | inr fresh ↦
              let other : text_eq v.mandate_hash hash ≡ false =
                other_of_fresh v seen hash h fresh in
              rw (valid, fresh, other)
                (omega
                  (arith, admissions_of_known hash rest (added v seen) (kept_known v seen hash h)))
        ]
      ]

  -- Of any sequence of attempts, whatever the credentials, requests and clocks, at most one admits the
  -- mandate with a given hash.
  pub admissions-le-one :
      (hash : Text) (attempts : List (Number × ValidateInput)) (seen : List Text)
      → admissions hash attempts seen ≤ 1
  unfolding admissions validate_and_consume consume_validated consume_mandate after_consumption
  admissions-le-one hash [] seen = omega arith
  admissions-le-one hash ((clock, input) ∷ rest) seen =
      elim (Result-cases (validate platform keys clock input)) [
        | inl (code, failed) ↦ rw failed (omega (arith, admissions-le-one hash rest seen))
        | inr (v, valid) ↦ elim (Bool-cases (set_has (replay_key namespace v.mandate_hash) seen)) [
          | inl known ↦ rw (valid, known) (omega (arith, admissions-le-one hash rest seen))
          | inr fresh ↦ elim (Bool-cases (text_eq v.mandate_hash hash)) [
            | inl hit ↦
                rw (valid, fresh, hit)
                  (omega (
                    arith,
                    admissions_of_known hash rest (added v seen) (own_known v seen hash hit),
                  ))
            | inr miss ↦
                rw (valid, fresh, miss) (omega (arith, admissions-le-one hash rest (added v seen)))
          ]
        ]
      ]
