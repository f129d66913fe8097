-- ===== src/Mandate/Created.antt =====
-- The parts of a mandate that was created (packages/sdk/src/index.ts).
use reapp_protocol.Common.{
  int, pos, negsuc, non_integer, Number, leb, ltb, ltb→lt, and_elim, Bool-cases, ◌<◌, arith,
  >>=-eq-ok, Result, Result-cases, Text, ap, inl, inr, ok, refl, trim, ℕ, ◌∙◌, ◌≡◌, ◌&&◌,
}
use mathlib.Core.Path.{subst}
use reapp_protocol.Json.{Platform}
use reapp_protocol.Amounts.{to_stroops}
use reapp_protocol.Mandate.{
  max_expiry, CreateInput, IntentMandate, MandateError, read_expiry, read_decimals, mandate_amount,
  nonce_or, mandate_bytes, create_intent_mandate,
}

pub record IsCreated (platform : Platform) (fresh : Text) (input : CreateInput) (m : IntentMandate)
    : Type 0 where
  pub user : m.user ≡ input.user
  pub agent : m.agent ≡ input.agent
  pub merchant : m.merchant ≡ input.merchant
  pub asset : m.asset ≡ input.asset
  pub decimals : read_decimals input.decimals ≡ ok m.decimals
  pub expiry : read_expiry input.expiry ≡ ok m.expiry
  pub positive : 0 < m.expiry
  pub max_amount : to_stroops (trim input.max_amount) m.decimals ≡ ok m.max_amount
  pub id :
      m.id ≡ platform.to_hex (mandate_bytes platform input m.expiry (nonce_or fresh input.nonce))

read_expiry-positive : (value : Number) (n : ℕ) → read_expiry value ≡ ok n → 0 < n
unfolding read_expiry
read_expiry-positive (int (pos m)) n h = elim (Bool-cases (ltb 0 m && leb m max_expiry)) [
  | inl fits ↦
      let e = rw (fits, read_expiry) at h in
      let is : m ≡ n = cc in let positive = ltb→lt 0 m (and_elim _ _ fits).0 in omega arith
  | inr bad ↦ absurd (let e = rw (bad, read_expiry) at h in cc)
]
read_expiry-positive (int (negsuc m)) n h = absurd (cc)
read_expiry-positive non_integer n h = absurd (cc)

mandate_amount-ok :
    (human : Text) (decimals n : ℕ)
    → mandate_amount human decimals ≡ ok n
    → to_stroops human decimals ≡ ok n
unfolding mandate_amount
mandate_amount-ok human decimals n h = elim (Result-cases (to_stroops human decimals)) [
  | inl (e, failed) ↦ absurd (let k = rw (failed, mandate_amount) at h in cc)
  | inr (m, read) ↦ let k = rw (read, mandate_amount) at h in let is : m ≡ n = cc in read ∙ ap ok is
]

ok_injective :
    {a b : IntentMandate} → ◌≡◌ {A = Result MandateError IntentMandate} (ok a) (ok b) → a ≡ b
ok_injective h = cc

abbrev mandate_with : Platform → Text → CreateInput → ℕ → ℕ → ℕ → IntentMandate
mandate_with platform fresh input expiry decimals max_amount = record {
  id = platform.to_hex (mandate_bytes platform input expiry (nonce_or fresh input.nonce));
  id_buffer = mandate_bytes platform input expiry (nonce_or fresh input.nonce);
  user = input.user;
  agent = input.agent;
  merchant = input.merchant;
  asset = input.asset;
  max_amount = max_amount;
  expiry = expiry;
  decimals = decimals;
}

-- A mandate that is created has the parties of the input, its decimals and its expiry, which is
-- positive, the stroops of its amount, and the hash of its canonical text for its id.
pub create_intent_mandate-IsCreated :
    (platform : Platform) (fresh : Text) (input : CreateInput) (m : IntentMandate)
    → create_intent_mandate platform fresh input ≡ ok m
    → IsCreated platform fresh input m
unfolding create_intent_mandate
create_intent_mandate-IsCreated platform fresh input m h =
    let (expiry, expires, h1) = >>=-eq-ok (read_expiry input.expiry) _ h in
    let (decimals, scaled, h2) = >>=-eq-ok (read_decimals input.decimals) _ h1 in
    let (max_amount, amount, same) =
      >>=-eq-ok (mandate_amount (trim input.max_amount) decimals) _ h2 in
    let is : mandate_with platform fresh input expiry decimals max_amount ≡ m = ok_injective same in
    subst (IsCreated platform fresh input) is (record {
      user = refl;
      agent = refl;
      merchant = refl;
      asset = refl;
      decimals = scaled;
      expiry = expires;
      positive = read_expiry-positive input.expiry expiry expires;
      max_amount = mandate_amount-ok _ decimals max_amount amount;
      id = refl;
    })
