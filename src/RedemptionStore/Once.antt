-- ===== src/RedemptionStore/Once.antt =====
-- Sequences of redemptions, and how often one of them is answered `consumed` for a key
-- (packages/express-middleware/src/proof-store.ts).
use reapp_protocol.Common.{
  Bool-cases, List, Text, [], arith, false, has, has-insert, if◌then◌else◌, inl, inr, insert, refl,
  text_eq, text_eq→eq, true, ℕ, ◌+◌, ◌∙◌, ◌∷◌, ◌≡◌, ◌≤◌,
}
use reapp_protocol.RedemptionStore.{
  RedemptionRecord, Consumption, consumed, duplicate, consume_once,
}

-- One for a `consumed` answer to a record under `key`.
abbrev consumption : Text → Text → Consumption → ℕ
consumption key k consumed = if text_eq k key then 1 else 0
consumption key k duplicate = 0

-- How many of a sequence of redemptions are answered `consumed` under `key`.
unfoldable pub consumptions : Text → List RedemptionRecord → List (Text × RedemptionRecord) → ℕ
consumptions key [] m = 0
consumptions key (r ∷ rs) m =
    let (reply, m') = consume_once r m in consumption key r.key reply + consumptions key rs m'

consumptions_of_known :
    (key : Text) (rs : List RedemptionRecord) (m : List (Text × RedemptionRecord))
    → has key m ≡ true
    → consumptions key rs m ≡ 0
unfolding consumptions consume_once
consumptions_of_known key [] m h = refl
consumptions_of_known key (r ∷ rs) m h = elim (Bool-cases (has r.key m)) [
  | inl known ↦ rw known (omega (arith, consumptions_of_known key rs m h))
  | inr fresh ↦
      let other : text_eq r.key key ≡ false = ground (arith, text_eq→eq r.key key) in
      let kept =
        consumptions_of_known key rs (insert r.key r m)
          (has-insert r.key key r m ∙ (rw (other, h) refl)) in
      rw (fresh, other) (omega (arith, kept))
]

-- Of any sequence of redemptions at most one is answered `consumed` for a key.
pub consumptions-le-one :
    (key : Text) (rs : List RedemptionRecord) (m : List (Text × RedemptionRecord))
    → consumptions key rs m ≤ 1
unfolding consumptions consume_once
consumptions-le-one key [] m = omega arith
consumptions-le-one key (r ∷ rs) m = elim (Bool-cases (has r.key m)) [
  | inl known ↦ rw known (omega (arith, consumptions-le-one key rs m))
  | inr fresh ↦ elim (Bool-cases (text_eq r.key key)) [
    | inl hit ↦
        let none_left =
          consumptions_of_known key rs (insert r.key r m)
            (has-insert r.key key r m ∙ (rw hit refl)) in
        rw (fresh, hit) (omega (arith, none_left))
    | inr miss ↦ rw (fresh, miss) (omega (arith, consumptions-le-one key rs (insert r.key r m)))
  ]
]
