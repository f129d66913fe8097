-- ===== src/Events/Selection.antt =====
-- `selectPayment` against a description of the events that pay the price
-- (packages/express-middleware/src/verification.ts).
use mathlib.Core.List.{append_assoc, append-nil}
use reapp_protocol.Common.{
  ◌<◌, some, List, [], ◌∷◌, ◌≡◌, inl, inr, arith, Bool-cases, Option, ap, none, ℕ, sym, ◌∙◌, refl,
  ◌++◌, All, ◌↔◌, ◌≤◌, ◌⊎◌, Option-cases, ltb, ltb→lt,
}
use reapp_protocol.Events.{
  DecodedEvent, PaymentCheck, Payload, registry_payment, add_payload, collect, conclude,
  select_payment, Found, chosen, nothing_found,
}
use reapp_protocol.Events.Payments.{
  IsPayment, registry_payment→IsPayment, IsPayment→registry_payment,
}

-- The payloads that reach `eligible.push`, in order.
eligibles : PaymentCheck → List DecodedEvent → List Payload
eligibles check [] = []
eligibles check (e ∷ es) =
    (add_payload check (registry_payment check e) nothing_found).eligible ++ eligibles check es

add_payload-eligible :
    (check : PaymentCheck) (o : Option Payload) (found : Found)
    → (add_payload check o found).eligible
      ≡ found.eligible ++ (add_payload check o nothing_found).eligible
unfolding add_payload
add_payload-eligible check none found = sym (append-nil _)
add_payload-eligible check (some p) found = elim (Bool-cases (ltb p.amount check.price_stroops)) [
  | inl below ↦ rw below (sym (append-nil _))
  | inr covered ↦ rw covered refl
]

collect-eligible :
    (check : PaymentCheck) (es : List DecodedEvent) (found : Found)
    → (collect check es found).eligible ≡ found.eligible ++ eligibles check es
unfolding collect eligibles
collect-eligible check [] found = sym (append-nil _)
collect-eligible check (e ∷ es) found =
    collect-eligible check es (add_payload check (registry_payment check e) found)
    ∙ (rw (add_payload-eligible check (registry_payment check e) found) (
        append_assoc found.eligible
          (add_payload check (registry_payment check e) nothing_found).eligible
          (eligibles check es)))

conclude-chosen :
    (ps : List Payload) (u : Option ℕ) (p : Payload) → conclude ps u ≡ chosen p → ps ≡ p ∷ []
unfolding conclude
conclude-chosen [] none p h = cc
conclude-chosen [] (some n) p h = cc
conclude-chosen (q ∷ []) u p h = cc
conclude-chosen (q ∷ r ∷ ps) u p h = cc

eligibles-nil : (check : PaymentCheck) → eligibles check [] ≡ []
unfolding eligibles
eligibles-nil check = refl

select_payment-chosen :
    (es : List DecodedEvent) (check : PaymentCheck) (p : Payload)
    → select_payment es check ≡ chosen p
    → eligibles check es ≡ p ∷ []
unfolding select_payment
select_payment-chosen [] check p h = cc
select_payment-chosen (e ∷ es) check p h =
    sym (collect-eligible check (e ∷ es) nothing_found)
    ∙ conclude-chosen _ (collect check (e ∷ es) nothing_found).largest_underpayment p h

chosen_of_eligibles :
    (es : List DecodedEvent) (check : PaymentCheck) (p : Payload)
    → eligibles check es ≡ p ∷ []
    → select_payment es check ≡ chosen p
unfolding select_payment
chosen_of_eligibles [] check p h = absurd (no_events_eligible h)
  where
    no_events_eligible : eligibles check [] ≡ p ∷ [] → ⊥
    no_events_eligible k = cc (ap (λ (l : List Payload). l) k, eligibles-nil check)
chosen_of_eligibles (e ∷ es) check p h = rw (collect-eligible check (e ∷ es) nothing_found ∙ h) refl

-- An event that pays less than the price, or is no payment at all.
abbrev pub NotPaying : PaymentCheck → DecodedEvent → Type 0
NotPaying check e = (q : Payload) → IsPayment check e q → q.amount < check.price_stroops

-- Exactly one of the events is a trusted payment of at least the price, and it carries `p`.
pub record OnePays (check : PaymentCheck) (es : List DecodedEvent) (p : Payload) : Type 0 where
  pub before : List DecodedEvent
  pub event : DecodedEvent
  pub after : List DecodedEvent
  pub listed : es ≡ before ++ event ∷ after
  pub paid : IsPayment check event p
  pub covers : check.price_stroops ≤ p.amount
  pub none_before : All (NotPaying check) before
  pub none_after : All (NotPaying check) after

abbrev eligible_of : PaymentCheck → DecodedEvent → List Payload
eligible_of check e = (add_payload check (registry_payment check e) nothing_found).eligible

module _ (check : PaymentCheck) where
  -- What one event adds: nothing, or the payload of a payment that covers the price.
  eligible_cases :
      (e : DecodedEvent)
      → ((eligible_of check e ≡ []) × NotPaying check e)
        ⊎ ((p : Payload) × (eligible_of check e ≡ p ∷ [])
            × IsPayment check e p
            × (check.price_stroops ≤ p.amount))
  unfolding add_payload
  eligible_cases e = elim (Option-cases (registry_payment check e)) [
    | inl absent ↦
        inl (rw (absent, eligible_of, add_payload) refl, λ q h. absurd (none_paid q h absent))
    | inr (p, present) ↦ elim (Bool-cases (ltb p.amount check.price_stroops)) [
      | inl below ↦ inl (
        rw (present, eligible_of, add_payload) (rw below refl),
        λ q h. let same : p ≡ q = same_payload q h p present in rw (← same) (ltb→lt _ _ below),
      )
      | inr covered ↦ inr (
        p,
        rw (present, eligible_of, add_payload) (rw covered refl),
        registry_payment→IsPayment check e p present,
        ground arith,
      )
    ]
  ]
    where
      none_paid : (q : Payload) → IsPayment check e q → registry_payment check e ≡ none → ⊥
      none_paid q h absent = cc (IsPayment→registry_payment check e q h)

      same_payload :
          (q : Payload)
          → IsPayment check e q
          → (p : Payload) → registry_payment check e ≡ some p
          → p ≡ q
      same_payload q h p present = cc (IsPayment→registry_payment check e q h)

  eligibles_none : (es : List DecodedEvent) → All (NotPaying check) es → eligibles check es ≡ []
  unfolding eligibles
  eligibles_none [] h = refl
  eligibles_none (e ∷ es) (h, hs) = elim (eligible_cases e) [
    | inl (adds, _) ↦ rw (adds, eligibles_none es hs) refl
    | inr (p, _, pays, covers) ↦ absurd (omega (arith, h p pays))
  ]

  eligibles→none : (es : List DecodedEvent) → eligibles check es ≡ [] → All (NotPaying check) es
  unfolding eligibles
  eligibles→none [] k = tt
  eligibles→none (e ∷ es) k = elim (eligible_cases e) [
    | inl (adds, fails) ↦ (fails, eligibles→none es (rw adds at k))
    | inr (p, adds, _, _) ↦ absurd (not_nil p (rw adds at k))
  ]
    where
      not_nil : (p : Payload) → p ∷ eligibles check es ≡ [] → ⊥
      not_nil p q = cc

  eligibles→one :
      (es : List DecodedEvent) (p : Payload) → eligibles check es ≡ p ∷ [] → OnePays check es p
  unfolding eligibles
  eligibles→one [] p k = absurd (cc)
  eligibles→one (e ∷ es) p k = elim (eligible_cases e) [
    | inl (adds, fails) ↦
        let rest = eligibles→one es p (rw adds at k) in
        record {
          before = e ∷ rest.before;
          event = rest.event;
          after = rest.after;
          listed = ap (λ (l : List DecodedEvent). e ∷ l) rest.listed;
          paid = rest.paid;
          covers = rest.covers;
          none_before = (fails, rest.none_before);
          none_after = rest.none_after;
        }
    | inr (q, adds, pays, covers) ↦
        let (same, ends) = first q (rw adds at k) in
        record {
          before = [];
          event = e;
          after = es;
          listed = refl;
          paid = rw (← same) pays;
          covers = rw (← same) covers;
          none_before = tt;
          none_after = eligibles→none es ends;
        }
  ]
    where
      first : (q : Payload) → q ∷ eligibles check es ≡ p ∷ [] → (q ≡ p) × (eligibles check es ≡ [])
      first q j = (cc, cc)

  unique_payload :
      (e : DecodedEvent) (p q : Payload) → IsPayment check e p → IsPayment check e q → p ≡ q
  unique_payload e p q h k =
      let one = IsPayment→registry_payment check e p h in
      let two = IsPayment→registry_payment check e q k in cc

  eligibles_append :
      (bs es : List DecodedEvent)
      → All (NotPaying check) bs
      → eligibles check (bs ++ es) ≡ eligibles check es
  unfolding eligibles
  eligibles_append [] es hs = refl
  eligibles_append (b ∷ bs) es (h, hs) = elim (eligible_cases b) [
    | inl (adds, _) ↦ rw adds (eligibles_append bs es hs)
    | inr (p, _, pays, covers) ↦ absurd (omega (arith, h p pays))
  ]

  eligibles_event :
      (e : DecodedEvent) (es : List DecodedEvent) (p : Payload)
      → eligible_of check e ≡ p ∷ []
      → eligibles check es ≡ []
      → eligibles check (e ∷ es) ≡ p ∷ []
  unfolding eligibles
  eligibles_event e es p h k = rw (h, k) refl

  eligibles_one :
      (es : List DecodedEvent) (p : Payload) → OnePays check es p → eligibles check es ≡ p ∷ []
  eligibles_one es p o = rw (o.listed) (at_event o.before o.none_before)
    where
      here : eligible_of check o.event ≡ p ∷ []
      here = elim (eligible_cases o.event) [
        | inl (_, fails) ↦ absurd (omega (arith, fails p o.paid, o.covers))
        | inr (q, adds, pays, _) ↦
            adds ∙ (ap (λ (x : Payload). x ∷ []) (unique_payload o.event q p pays o.paid))
      ]

      at_event :
          (bs : List DecodedEvent)
          → All (NotPaying check) bs
          → eligibles check (bs ++ o.event ∷ o.after) ≡ p ∷ []
      at_event bs hs =
          eligibles_append bs (o.event ∷ o.after) hs
          ∙ eligibles_event o.event o.after p here (eligibles_none o.after o.none_after)

-- `selectPayment` accepts a payload exactly where one event pays the price with that payload and
-- every other event is no trusted payment or pays less.
pub select_payment_iff :
    (check : PaymentCheck) (es : List DecodedEvent) (p : Payload)
    → (select_payment es check ≡ chosen p) ↔ OnePays check es p
select_payment_iff check es p = (
  λ h. eligibles→one check es p (select_payment-chosen es check p h),
  λ o. chosen_of_eligibles es check p (eligibles_one check es p o),
)
