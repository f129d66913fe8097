-- ===== src/Events/Payments.antt =====
-- What an event that selectPayment trusts looks like
-- (packages/express-middleware/src/verification.ts).
use reapp_protocol.Common.{
  ◌<◌, Text, lit, text_eq, text_eq→eq, length, true, some, List, [], ◌∷◌, pos, ◌≡◌, inl, inr, arith,
  Bool-cases, and_elim, Option, ap, lt→ltb, none, text_eq_refl,
}
use reapp_protocol.Events.{
  DecodedValue, decoded, text, bytes, bigint, vec, other, nil, cons, DecodedEvent, PaymentCheck,
  Payload, exact_value, payload_of_pair, payment_topics, payload_of_values, payment_payload,
  registry_payment, NativeValue, emitted_by,
}

abbrev pub symbol : Text → DecodedValue
symbol s = decoded (lit "scvSymbol") (text s)

abbrev pub address : Text → DecodedValue
address s = decoded (lit "scvAddress") (text s)

-- The body of a registry's payment event: the mandate id and the amount.
abbrev pub payment_body : Payload → DecodedValue
payment_body p = decoded (lit "scvVec") (
    vec (
      cons (decoded (lit "scvBytes") (bytes p.mandate_id))
        (cons (decoded (lit "scvI128") (bigint (pos p.amount))) nil)))

-- What a trusted payment event looks like, written out.
pub record IsPayment (check : PaymentCheck) (e : DecodedEvent) (p : Payload) : Type 0 where
  pub contract_event : e.type ≡ lit "contract"
  pub emitter : e.contract_id ≡ some check.registry_id
  pub topics : e.topics ≡ symbol (lit "payment") ∷ address check.merchant ∷ []
  pub body : e.body ≡ payment_body p
  pub id_size : length p.mandate_id ≡ 32
  pub positive : 0 < p.amount

pub exact_value→eq :
    (v : DecodedValue) (t s : Text) → exact_value v t s ≡ true → v ≡ decoded t (text s)
unfolding exact_value
exact_value→eq (decoded u (text w)) t s h = ground (arith, text_eq→eq u t, text_eq→eq w s)
exact_value→eq (decoded u (bytes w)) t s h = ground arith
exact_value→eq (decoded u (bigint w)) t s h = ground arith
exact_value→eq (decoded u (vec w)) t s h = ground arith
exact_value→eq (decoded u other) t s h = ground arith

payment_topics→eq :
    (ts : List DecodedValue) (m : Text)
    → payment_topics ts m ≡ true
    → ts ≡ symbol (lit "payment") ∷ address m ∷ []
unfolding payment_topics
payment_topics→eq [] m h = cc
payment_topics→eq (t ∷ []) m h = cc
payment_topics→eq (t ∷ u ∷ []) m h =
    let (one, two) = and_elim _ _ h in
    let first = exact_value→eq t _ _ one in let second = exact_value→eq u _ _ two in cc
payment_topics→eq (t ∷ u ∷ v ∷ ts) m h = cc

payload_of_pair→eq :
    (v w : DecodedValue) (p : Payload)
    → payload_of_pair v w ≡ some p
    → (v ≡ decoded (lit "scvBytes") (bytes p.mandate_id))
      × (w ≡ decoded (lit "scvI128") (bigint (pos p.amount)))
      × (length p.mandate_id ≡ 32)
      × (0 < p.amount)
unfolding payload_of_pair
payload_of_pair→eq (decoded t (bytes id)) (decoded u (bigint (pos n))) p h =
    elim (Bool-cases (text_eq t (lit "scvBytes"))) [
      | inl one ↦ elim (Bool-cases (text_eq u (lit "scvI128"))) [
        | inl two ↦
            let t_eq = text_eq→eq t _ one in
            let u_eq = text_eq→eq u _ two in
            (ground arith, ground arith, ground arith, ground arith)
        | inr two ↦ absurd (ground arith)
      ]
      | inr one ↦ absurd (ground arith)
    ]
payload_of_pair→eq _ _ p h = ground arith

payload_of_values→eq :
    (v : NativeValue) (p : Payload)
    → payload_of_values v ≡ some p
    → (v
        ≡ vec (
            cons
              (decoded (lit "scvBytes") (bytes p.mandate_id))
              (cons (decoded (lit "scvI128") (bigint (pos p.amount))) nil)))
      × (length p.mandate_id ≡ 32)
      × (0 < p.amount)
unfolding payload_of_values
payload_of_values→eq (vec (cons id (cons amount nil))) p h =
    let (one, two, size, positive) = payload_of_pair→eq id amount p h in (cc, size, positive)
payload_of_values→eq _ p h = (cc, absurd (cc), absurd (cc))

payment_payload→eq :
    (d : DecodedValue) (p : Payload)
    → payment_payload d ≡ some p
    → (d ≡ payment_body p) × (length p.mandate_id ≡ 32) × (0 < p.amount)
unfolding payment_payload
payment_payload→eq (decoded t v) p h = elim (Bool-cases (text_eq t (lit "scvVec"))) [
  | inl one ↦
      let (shape, size, positive) = payload_of_values→eq v p (ground arith) in
      let t_eq = text_eq→eq t _ one in (cc, size, positive)
  | inr one ↦ absurd (ground arith)
]

pub registry_payment→IsPayment :
    (check : PaymentCheck) (e : DecodedEvent) (p : Payload)
    → registry_payment check e ≡ some p
    → IsPayment check e p
unfolding registry_payment
registry_payment→IsPayment check e p h = elim (Bool-cases (text_eq e.type (lit "contract"))) [
  | inl one ↦ elim (Bool-cases (emitted_by e.contract_id check.registry_id)) [
    | inl two ↦ elim (Bool-cases (payment_topics e.topics check.merchant)) [
      | inl three ↦
          let b = body_of e.body (ground arith) in
          record {
            contract_event = text_eq→eq _ _ one;
            emitter = emitter_of e.contract_id two;
            topics = payment_topics→eq _ _ three;
            body = b.0;
            id_size = b.1;
            positive = b.2;
          }
      | inr three ↦ absurd (ground arith)
    ]
    | inr two ↦ absurd (ground arith)
  ]
  | inr one ↦ absurd (ground arith)
]
  where
    emitter_of :
        (c : Option Text) → emitted_by c check.registry_id ≡ true → c ≡ some check.registry_id
    emitter_of none k = cc
    emitter_of (some c) k = ap some (text_eq→eq c _ k)

    body_of :
        (d : DecodedValue)
        → payment_payload d ≡ some p
        → (d ≡ payment_body p) × (length p.mandate_id ≡ 32) × (0 < p.amount)
    body_of d k = payment_payload→eq d p k

pub IsPayment→registry_payment :
    (check : PaymentCheck) (e : DecodedEvent) (p : Payload)
    → IsPayment check e p
    → registry_payment check e ≡ some p
unfolding registry_payment payment_payload payment_topics exact_value payload_of_values
    payload_of_pair
IsPayment→registry_payment check e p h =
    let n_pos = lt→ltb 0 p.amount h.positive in
    rw (h.contract_event, h.emitter, h.topics, h.body) (simp (text_eq_refl, n_pos, h.id_size))
