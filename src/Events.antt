-- ===== src/Events.antt =====
-- Decoded Soroban events and the choice of the payment among them: `exactValue`,
-- `paymentPayload`, `selectPayment` and `selectTransfer` of
-- packages/express-middleware/src/verification.ts.
pub mod Payments
pub mod Selection
pub mod Transfers
use reapp_protocol.Common.{
  ℕ, ◌+◌, Text, lit, text_eq, length, ltb, leb, ◌==◌, Bool, true, false, ◌&&◌, not, Option, none,
  some, List, [], ◌∷◌, ◌++◌, if◌then◌else◌, ℤ, pos, negsuc,
}
use reapp_protocol.Payment.{
  Reason, no_events, several_payments, no_payment, paid_below, several_transfers, no_transfer,
}

-- A native value with the discriminant of the ScVal that it was decoded from.
mutual
  pub data DecodedValue : Type 0 where
    decoded : (type : Text) → NativeValue → DecodedValue

  pub data NativeValue : Type 0 where
    text : Text → NativeValue
    bytes : List ℕ → NativeValue
    bigint : ℤ → NativeValue
    vec : DecodedValues → NativeValue
    other : NativeValue

  pub data DecodedValues : Type 0 where
    nil : DecodedValues
    cons : DecodedValue → DecodedValues → DecodedValues

pub record DecodedEvent : Type 0 where
  pub type : Text
  pub contract_id : Option Text
  pub topics : List DecodedValue
  pub body : DecodedValue

pub record PaymentCheck : Type 0 where
  pub merchant : Text
  pub registry_id : Text
  pub price_stroops : ℕ

pub record Payload : Type 0 where
  pub mandate_id : List ℕ
  pub amount : ℕ

pub data PaymentSelection : Type 0 where
  chosen : Payload → PaymentSelection
  none_chosen : Reason → PaymentSelection

-- `value.value === expected` for a string.
abbrev pub is_text : NativeValue → Text → Bool
is_text (text s) expected = text_eq s expected
is_text _ expected = false

unfoldable pub exact_value : DecodedValue → Text → Text → Bool
exact_value (decoded t v) type expected = text_eq t type && is_text v expected

-- `event.contractId === id`
abbrev pub emitted_by : Option Text → Text → Bool
emitted_by none id = false
emitted_by (some c) id = text_eq c id

-- The checks of `paymentPayload` on the two values of the vector.
unfoldable pub payload_of_pair : DecodedValue → DecodedValue → Option Payload
payload_of_pair (decoded t (bytes id)) (decoded u (bigint (pos n))) =
    if text_eq t (lit "scvBytes") && text_eq u (lit "scvI128") && (length id == 32) && ltb 0 n
    then some (record { mandate_id = id; amount = n })
    else none
payload_of_pair _ _ = none

unfoldable pub payload_of_values : NativeValue → Option Payload
payload_of_values (vec (cons id (cons amount nil))) = payload_of_pair id amount
payload_of_values _ = none

unfoldable pub payment_payload : DecodedValue → Option Payload
unfolding payload_of_values payload_of_pair
payment_payload (decoded t v) = if text_eq t (lit "scvVec") then payload_of_values v else none

unfoldable pub payment_topics : List DecodedValue → Text → Bool
unfolding exact_value
payment_topics (t ∷ u ∷ []) merchant =
    exact_value t (lit "scvSymbol") (lit "payment") && exact_value u (lit "scvAddress") merchant
payment_topics _ merchant = false

-- The payload of an event that passes every `continue` above the price test.
unfoldable pub registry_payment : PaymentCheck → DecodedEvent → Option Payload
unfolding payment_topics payment_payload
registry_payment check e =
    if text_eq e.type (lit "contract")
      && emitted_by e.contract_id check.registry_id
      && payment_topics e.topics check.merchant
    then payment_payload e.body
    else none

-- The variables of the loop.
pub record Found : Type 0 where
  pub eligible : List Payload
  pub largest_underpayment : Option ℕ

abbrev pub larger : Option ℕ → ℕ → Option ℕ
larger none n = some n
larger (some m) n = if ltb m n then some n else some m

unfoldable pub add_payload : PaymentCheck → Option Payload → Found → Found
add_payload check none found = found
add_payload check (some p) found =
    if ltb p.amount check.price_stroops
    then record found { largest_underpayment = larger found.largest_underpayment p.amount }
    else record found { eligible = found.eligible ++ p ∷ [] }

unfoldable pub collect : PaymentCheck → List DecodedEvent → Found → Found
unfolding add_payload
collect check [] found = found
collect check (e ∷ es) found = collect check es (add_payload check (registry_payment check e) found)

unfoldable pub conclude : List Payload → Option ℕ → PaymentSelection
conclude (p ∷ q ∷ ps) _ = none_chosen several_payments
conclude (p ∷ []) _ = chosen p
conclude [] (some n) = none_chosen (paid_below n)
conclude [] none = none_chosen no_payment

abbrev pub nothing_found : Found
nothing_found = record { eligible = []; largest_underpayment = none }

unfoldable pub select_payment : List DecodedEvent → PaymentCheck → PaymentSelection
unfolding conclude collect
select_payment [] check = none_chosen no_events
select_payment (e ∷ es) check =
    let found = collect check (e ∷ es) nothing_found in
    conclude found.eligible found.largest_underpayment

pub record TransferCheck : Type 0 where
  pub asset : Text
  pub user : Text
  pub merchant : Text
  pub amount : ℕ

-- `event.data.value === check.amount`
unfoldable pub is_amount : DecodedValue → ℕ → Bool
is_amount (decoded t (bigint (pos n))) amount = text_eq t (lit "scvI128") && (n == amount)
is_amount _ amount = false

unfoldable pub transfer_topics : List DecodedValue → TransferCheck → Bool
unfolding exact_value
transfer_topics (t ∷ u ∷ v ∷ _) check =
    exact_value t (lit "scvSymbol") (lit "transfer")
    && exact_value u (lit "scvAddress") check.user
    && exact_value v (lit "scvAddress") check.merchant
transfer_topics _ check = false

unfoldable pub is_transfer : TransferCheck → DecodedEvent → Bool
unfolding transfer_topics is_amount
is_transfer check e =
    text_eq e.type (lit "contract")
    && emitted_by e.contract_id check.asset
    && transfer_topics e.topics check
    && is_amount e.body check.amount

unfoldable pub count_transfers : TransferCheck → List DecodedEvent → ℕ → ℕ
count_transfers check [] matches = matches
count_transfers check (e ∷ es) matches =
    count_transfers check es (if is_transfer check e then matches + 1 else matches)

-- `none` where exactly one transfer matches, otherwise the reason.
unfoldable pub select_transfer : List DecodedEvent → TransferCheck → Option Reason
unfolding count_transfers
select_transfer es check =
    let matches = count_transfers check es 0 in
    if matches == 1
    then none
    else if ltb 1 matches
    then some several_transfers
    else some no_transfer
