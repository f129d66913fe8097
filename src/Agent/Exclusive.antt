-- ===== src/Agent/Exclusive.antt =====
-- Sequences of payments of one agent (packages/sdk/src/index.ts, the class Agent).
use reapp_protocol.Common.{
  Bool, Bool-cases, List, [], arith, false, if◌then◌else◌, inl, inr, not, refl, some, true, ℕ, ◌&&◌,
  ◌+◌, ◌∷◌, ◌≡◌, ◌≤◌,
}
use reapp_protocol.Json.{Platform}
use reapp_protocol.Agent.{PendingSettlement, Agent, State}
use reapp_protocol.Agent.Pay.{Call, PayResult, paid, payment_rejected, Paid, pay}
use reapp_protocol.Agent.Stages.{settled, refused_on_chain, unresolved, pay-Stage, pay-pending}

module _ (platform : Platform) (agent : Agent) where
  -- A payment that is broadcast without a final result.
  abbrev is_final : Bool → PayResult → Bool
  is_final hold (paid _) = not hold
  is_final hold payment_rejected = true
  is_final hold _ = false

  abbrev unresolved_now : Call → Paid → ℕ
  unresolved_now call out =
      if out.broadcast && not (is_final call.hold_until_delivery out.result) then 1 else 0

  unfoldable pub unresolved_all : List Call → State → ℕ
  unresolved_all [] s = 0
  unresolved_all (call ∷ calls) s =
      let (out, s') = pay platform agent call s in
      let later = unresolved_all calls s' in unresolved_now call out + later

  silent_now : (call : Call) (out : Paid) → out.broadcast ≡ false → unresolved_now call out ≡ 0
  silent_now call out h = rw h refl

  final_now :
      (call : Call) (out : Paid)
      → is_final call.hold_until_delivery out.result ≡ true
      → unresolved_now call out ≡ 0
  final_now call out h = elim (Bool-cases out.broadcast) [
    | inl loud ↦ rw loud (rw h refl)
    | inr silent ↦ rw silent refl
  ]

  unresolved_now-le-one : (call : Call) (out : Paid) → unresolved_now call out ≤ 1
  unresolved_now-le-one call out =
      elim (Bool-cases (out.broadcast && not (is_final call.hold_until_delivery out.result))) [
        | inl open_now ↦ rw open_now (omega arith)
        | inr closed_now ↦ rw closed_now (omega arith)
      ]

  unresolved-pending :
      (calls : List Call) (s : State) (p : PendingSettlement)
      → s.pending ≡ some p
      → unresolved_all calls s ≡ 0
  unfolding unresolved_all
  unresolved-pending [] s p h = refl
  unresolved-pending (call ∷ calls) s p h =
      let (silent, kept) = pay-pending platform agent call s p h in
      omega (
        arith,
        silent_now call (pay platform agent call s).0 silent,
        unresolved-pending calls (pay platform agent call s).1 p kept,
      )

  -- Of any sequence of calls of an agent's `pay`, with nothing but `pay` in between, at most one
  -- broadcasts a payment without coming to a final result, whatever the receipt store, the contract,
  -- the network and the caller's callbacks do.
  pub unresolved_all-le-one : (calls : List Call) (s : State) → unresolved_all calls s ≤ 1
  unfolding unresolved_all
  unresolved_all-le-one [] s = omega arith
  unresolved_all-le-one (call ∷ calls) s =
      let out = pay platform agent call s in
      let rest = unresolved_all-le-one calls out.1 in
      elim (pay-Stage platform agent call s) [
        | inl silent ↦ omega (arith, silent_now call out.0 silent, rest)
        | inr (settled tx_hash e free) ↦
            omega (arith, final_now call out.0 (rw e (rw free refl)), rest)
        | inr (refused_on_chain e) ↦ omega (arith, final_now call out.0 (rw e refl), rest)
        | inr (unresolved r) ↦ omega (
          arith,
          unresolved_now-le-one call out.0,
          unresolved-pending calls out.1 r.settlement r.kept,
        )
      ]
