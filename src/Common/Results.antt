-- ===== src/Common/Results.antt =====
-- Code that throws: the error thrown, or a value.
use mathlib.Core.Path.{◌≡◌, refl}
use mathlib.Core.Bool.{Bool, true, false}
use mathlib.Core.Option.{Option, none, some}
use mathlib.Core.Logic.{◌⊎◌, inl, inr}

pub data Result {ℓ κ} (E : Type ℓ) (A : Type κ) : Type (ℓ ⊔ κ) where
  err : E → Result E A
  ok : A → Result E A

-- The statements after one that may throw, with its value and without.
module _ {ℓ κ} {E : Type ℓ} {B : Type κ} where
  infixl 5 ◌>>=◌ ◌>>◌
  abbrev pub ◌>>=◌ {μ} : {A : Type μ} → Result E A → (A → Result E B) → Result E B
  err thrown >>= rest = err thrown
  ok value >>= rest = rest value

  abbrev pub ◌>>◌ : Result E (Unit {0}) → Result E B → Result E B
  first >> rest = first >>= (λ _. rest)

  pub >>=-eq-ok {μ} :
      {A : Type μ} (first : Result E A) (rest : A → Result E B) {b : B}
      → (first >>= rest) ≡ ok b
      → (a : A) × (first ≡ ok a) × (rest a ≡ ok b)
  >>=-eq-ok (err thrown) rest h = absurd (cc)
  >>=-eq-ok (ok value) rest h = (value, refl, h)

-- `if (!test) throw thrown`
abbrev pub guard {ℓ} : {E : Type ℓ} → Bool → E → Result E (Unit {0})
guard false thrown = err thrown
guard true thrown = ok tt

pub guard-ok {ℓ} : {E : Type ℓ} (b : Bool) (e : E) → guard b e ≡ ok tt → b ≡ true
guard-ok true e h = refl
guard-ok false e h = absurd (cc)

pub guard_then {ℓ κ} :
    {E : Type ℓ} {A : Type κ} (b : Bool) (e : E) (rest : Result E A) {a : A}
    → (guard b e >> rest) ≡ ok a
    → (b ≡ true) × (rest ≡ ok a)
guard_then true e rest h = (refl, h)
guard_then false e rest h = absurd (cc)

pub Result-cases {ℓ κ} :
    {E : Type ℓ} {A : Type κ} (r : Result E A) → ((e : E) × (r ≡ err e)) ⊎ ((a : A) × (r ≡ ok a))
Result-cases (err e) = inl (e, refl)
Result-cases (ok a) = inr (a, refl)

-- The statements after one that gives `undefined` or throws.
infixl 5 ◌>>=?◌
abbrev pub ◌>>=?◌ {ℓ κ} : {A : Type ℓ} {B : Type κ} → Option A → (A → Option B) → Option B
none >>=? rest = none
some value >>=? rest = rest value
