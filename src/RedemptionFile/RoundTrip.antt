-- ===== src/RedemptionFile/RoundTrip.antt =====
-- Reading back a record that was written (apps/fulfillment-agent/src/redemption-store.ts).
use reapp_protocol.Common.{
  Bool-cases, Text, [], all, and3_elim, and_elim, arith, false, inl, inr, int, is_digit, is_hex64,
  is_positive_safe, leb, lit, ltb, ok, pos, refl, some, suc, text_eq, true, zero, ℕ, ◌%◌, ◌++◌, ◌+◌,
  ◌/◌, ◌<◌, ◌∷◌, ◌≡◌, ◌⊎◌, ◌∙◌,
}
use mathlib.Core.Path.{subst}
use reapp_protocol.Json.{str, Fields, Platform, member}
use reapp_protocol.Amounts.{show, show_from}
use reapp_protocol.Amounts.Decimal.{show-value}
use reapp_protocol.Payment.{VerifiedPayment}
use reapp_protocol.DeliveryStore.{StoredResponse, DeliveryState, executing, completed}
use reapp_protocol.RedemptionFile.Members.{member-set_member}
use reapp_protocol.RedemptionFile.Schema.{
  FileRecord, written_payment, is_response_shape, is_response_intact, check_response,
  is_positive_digits, serialize, deserialize, payment_fields,
}

-- What `deserialize` asks of a response.
pub record IsResponse (platform : Platform) (r : StoredResponse) : Type 0 where
  pub shape : is_response_shape r ≡ true
  pub intact : is_response_intact platform r ≡ true

abbrev pub IsState : Platform → DeliveryState → Type 0
IsState platform executing = Unit
IsState platform (completed r) = IsResponse platform r

-- What `deserialize` asks of a payment: a positive amount, and three texts.
pub record IsPayment (payment : Fields) (amount_stroops : ℕ) : Type 0 where
  pub positive : 0 < amount_stroops
  pub tx_hash : Text
  pub has_tx_hash : member (lit "txHash") payment ≡ some (str tx_hash)
  pub mandate_id : Text
  pub has_mandate_id : member (lit "mandateId") payment ≡ some (str mandate_id)
  pub agent : Text
  pub has_agent : member (lit "agent") payment ≡ some (str agent)

pub record IsFiled (platform : Platform) (r : FileRecord) : Type 0 where
  pub proof_digest : is_hex64 r.proof_digest ≡ true
  pub execution_id : text_eq r.execution_id [] ≡ false
  pub started_at : is_positive_safe (int (pos r.started_at)) ≡ true
  pub payment : IsPayment r.payment r.amount_stroops
  pub state : IsState platform r.state

pub check_response-ok :
    (platform : Platform) (r : StoredResponse)
    → IsResponse platform r
    → check_response platform r ≡ ok r
unfolding check_response
check_response-ok platform r h = rw (h.shape, h.intact) refl

State-cases : (s : DeliveryState) → (s ≡ executing) ⊎ ((r : StoredResponse) × (s ≡ completed r))
State-cases executing = inl refl
State-cases (completed r) = inr (r, refl)

is_positive_digits-append :
    (s : Text) (d : ℕ)
    → is_positive_digits s ≡ true
    → is_digit d ≡ true
    → is_positive_digits (s ++ d ∷ []) ≡ true
unfolding is_positive_digits
is_positive_digits-append [] d h digit = absurd (cc)
is_positive_digits-append (c ∷ s) d h digit =
    let (low, high, rest) = and3_elim (leb 49 c) (leb c 57) (all is_digit s) h in
    rw (low, high) (all_digit-append s d rest digit)
  where
    all_digit-append :
        (s : Text) (d : ℕ)
        → all is_digit s ≡ true
        → is_digit d ≡ true
        → all is_digit (s ++ d ∷ []) ≡ true
    all_digit-append [] d h digit = rw digit refl
    all_digit-append (c ∷ s) d h digit =
        let (first, rest) = and_elim (is_digit c) (all is_digit s) h in
        rw (first, all_digit-append s d rest digit) refl

show_from-positive : (fuel n : ℕ) → n < fuel → 0 < n → is_positive_digits (show_from fuel n) ≡ true
unfolding show_from is_positive_digits
show_from-positive zero n h positive = absurd (omega arith)
show_from-positive (suc fuel) n h positive = elim (Bool-cases (ltb n 10)) [
  | inl one ↦ rw one (ground arith)
  | inr more ↦
      let higher : 0 < n / 10 = ground arith in
      rw more (
        is_positive_digits-append (show_from fuel (n / 10)) (48 + n % 10)
          (show_from-positive fuel (n / 10) (omega arith) higher) (ground arith))
]

show-positive : (n : ℕ) → 0 < n → is_positive_digits (show n) ≡ true
unfolding show
show-positive n positive = show_from-positive (suc n) n (omega arith) positive

-- A record as it stands in the file: its payment's amount is the decimal of its number.
abbrev pub as_written : FileRecord → FileRecord
as_written r = record r { payment = written_payment r.payment r.amount_stroops }

module _ (payment : Fields) (n : ℕ) where
  written_amount : member (lit "amountStroops") (written_payment payment n) ≡ some (str (show n))
  unfolding written_payment text_eq
  written_amount = member-set_member (lit "amountStroops") (lit "amountStroops") _ payment

  written_text :
      (k : Text)
      → text_eq (lit "amountStroops") k ≡ false
      → member k (written_payment payment n) ≡ member k payment
  unfolding written_payment
  written_text k other =
      member-set_member k (lit "amountStroops") (str (show n)) payment ∙ (rw other refl)

-- What is written for a record is read as the record that stands in the file.
pub deserialize-as_written :
    (platform : Platform) (r : FileRecord)
    → IsFiled platform r
    → deserialize platform (serialize r) ≡ ok (as_written r)
unfolding deserialize serialize text_eq
deserialize-as_written platform r f =
    let amount = written_amount r.payment r.amount_stroops in
    let tx_hash =
      written_text r.payment r.amount_stroops (lit "txHash") refl ∙ f.payment.has_tx_hash in
    let mandate_id =
      written_text r.payment r.amount_stroops (lit "mandateId") refl ∙ f.payment.has_mandate_id in
    let agent = written_text r.payment r.amount_stroops (lit "agent") refl ∙ f.payment.has_agent in
    let positive = show-positive r.amount_stroops f.payment.positive in
    let value = show-value r.amount_stroops in
    elim (State-cases r.state) [
      | inl pending ↦
          rw
            (
              pending, amount, tx_hash, mandate_id, agent, f.proof_digest, f.execution_id,
              f.started_at, positive,
            )
            (cc)
      | inr (response, done) ↦
          let valid = subst (IsState platform) done f.state in
          rw
            (
              done, amount, tx_hash, mandate_id, agent, f.proof_digest, f.execution_id,
              f.started_at, positive, valid.shape, valid.intact,
            )
            (cc)
    ]

-- A payment as it was, with the decimal of a number for its amount.
pub record IsPriced (before after : Fields) (amount_stroops : ℕ) : Type 0 where
  pub amount : member (lit "amountStroops") after ≡ some (str (show amount_stroops))
  pub others :
      (k : Text) → text_eq (lit "amountStroops") k ≡ false → member k after ≡ member k before

-- A record whose amount is positive, whose payment has the three texts, and whose digest, execution
-- id, time and response are what the file's tests ask for, is read back from its JSON with all its
-- values, its amount included; of its payment every member is as it was, save `amountStroops`, which
-- is the decimal of the amount.
pub deserialize-serialize :
    (platform : Platform) (r : FileRecord)
    → IsFiled platform r
    → (payment : Fields) × (deserialize platform (serialize r)
        ≡ ok (record r { payment = payment }))
      × IsPriced r.payment payment r.amount_stroops
deserialize-serialize platform r f = (
  written_payment r.payment r.amount_stroops,
  deserialize-as_written platform r f,
  record {
    amount = written_amount r.payment r.amount_stroops;
    others = written_text r.payment r.amount_stroops;
  },
)

-- The payment of a claim is one that is read back, where its amount is positive.
pub payment_fields-IsPayment :
    (p : VerifiedPayment) → 0 < p.amount_stroops → IsPayment (payment_fields p) p.amount_stroops
unfolding payment_fields show member text_eq
payment_fields-IsPayment p positive = record {
  positive = positive;
  tx_hash = p.tx_hash;
  has_tx_hash = refl;
  mandate_id = p.mandate_id;
  has_mandate_id = refl;
  agent = p.agent;
  has_agent = refl;
}
