-- ===== src/Common/Dict.antt =====
-- A JavaScript `Map` with string keys, or an object used as one, as an association list in
-- insertion order: `get`, `has`, `set`, `delete`.
use mathlib.Core.Path.{◌≡◌, refl}
use mathlib.Core.Bool.{Bool, true, false}
use mathlib.Core.Option.{Option, none, some}
use mathlib.Core.List.{List, [], ◌∷◌}
use native.Mathlib.Omega.{arith}
use reapp_protocol.Common.Tests.{if◌then◌else◌}
use reapp_protocol.Common.Texts.{Text, text_eq, text_eq_iff, text_eq_refl}

module _ {ℓ} {V : Type ℓ} where
  unfoldable pub find : Text → List (Text × V) → Option V
  find k [] = none
  find k ((j, v) ∷ m) = if text_eq j k then some v else find k m

  unfoldable pub has : Text → List (Text × V) → Bool
  has k [] = false
  has k ((j, v) ∷ m) = if text_eq j k then true else has k m

  unfoldable pub insert : Text → V → List (Text × V) → List (Text × V)
  insert k v [] = (k, v) ∷ []
  insert k v ((j, w) ∷ m) = if text_eq j k then (j, v) ∷ m else (j, w) ∷ insert k v m

  unfoldable pub remove : Text → List (Text × V) → List (Text × V)
  remove k [] = []
  remove k ((j, w) ∷ m) = let rest = remove k m in if text_eq j k then rest else (j, w) ∷ rest

  pub find-insert :
      (k j : Text) (v : V) (m : List (Text × V))
      → find j (insert k v m) ≡ (if text_eq k j then some v else find j m)
  unfolding find insert
  find-insert k j v [] = refl
  find-insert k j v ((i, w) ∷ m) =
      ground (arith, text_eq_iff k j, text_eq_iff i k, text_eq_iff i j, find-insert k j v m)

  pub find-insert_self : (k : Text) (v : V) (m : List (Text × V)) → find k (insert k v m) ≡ some v
  find-insert_self k v m = ground (arith, find-insert k k v m, text_eq_refl k)

  pub find-remove :
      (k j : Text) (m : List (Text × V))
      → find j (remove k m) ≡ (if text_eq k j then none else find j m)
  unfolding find remove
  find-remove k j [] = ground arith
  find-remove k j ((i, w) ∷ m) =
      ground (arith, text_eq_iff k j, text_eq_iff i k, text_eq_iff i j, find-remove k j m)

  pub has-eq-find : (k : Text) (m : List (Text × V)) (v : V) → find k m ≡ some v → has k m ≡ true
  unfolding find has
  has-eq-find k [] v h = cc
  has-eq-find k ((j, w) ∷ m) v h = ground (arith, has-eq-find k m v)

  pub find_of_not_has : (k : Text) (m : List (Text × V)) → has k m ≡ false → find k m ≡ none
  unfolding find has
  find_of_not_has k [] h = refl
  find_of_not_has k ((j, w) ∷ m) h = ground (arith, find_of_not_has k m)

  pub has-insert :
      (k j : Text) (v : V) (m : List (Text × V))
      → has j (insert k v m) ≡ (if text_eq k j then true else has j m)
  unfolding has insert
  has-insert k j v [] = refl
  has-insert k j v ((i, w) ∷ m) =
      ground (arith, text_eq_iff k j, text_eq_iff i k, text_eq_iff i j, has-insert k j v m)
