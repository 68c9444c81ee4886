-- ===== src/Vesting/Solvent/Settles.antt =====
-- contracts/external/cw-vesting/src/contract.rs: what a message does to the accounts.
use dao_contracts.Prelude.{
  ℕ, ◌+◌, ◌-◌, ◌≤◌, ◌≡◌, ◌≢◌, refl, sym, true, List, arith, Outcome, ok, ok-injective,
}
use mathlib.Core.Path.{subst}
use dao_contracts.Cosmwasm.{Addr}
use dao_contracts.StakeTracker.{StakeTracker}
use dao_contracts.Vesting.State.{
  WyndUtils, Status, unfunded, funded, canceled, Payment, ContractError, Msg,
}
use dao_contracts.Vesting.Contract.{
  Chain, ExecuteMsg, receive, slash, State, check_receiver, check_undelegate, is_unfunded,
}
use dao_contracts.Vesting.Solvent.{transferred, IsSolvent, Pays}

-- The tokens that a message brings in, and those that were slashed before it
abbrev pub received : ExecuteMsg → ℕ
received (receive amount) = amount
received _ = 0

abbrev pub lost : ExecuteMsg → ℕ
lost (slash _ _ amount _) = amount
lost _ = 0

module _ {Ownership : Type 0} (wynd : WyndUtils) (chain : Chain Ownership) where
  -- What a message does to the books
  abbrev pub Settles : (held arrived gone : ℕ) → State Ownership × List Msg → Type 0
  Settles held arrived gone r =
      (transferred r.1 + gone ≤ held + arrived)
      × IsSolvent wynd (r.0).payment (held + arrived - gone - transferred r.1)

  -- The state after an operation on the payment
  pub settled :
      (held : ℕ) (s : State Ownership) (p : Payment) (msgs : List Msg)
      → Pays wynd p msgs held
      → Settles held 0 0 (record s { payment = p }, msgs)
  settled held s p msgs (le, solvent) =
      (omega arith, subst (λ n. IsSolvent wynd p n) (omega arith) solvent)

  -- Only the stake has changed.
  pub restaked :
      (held : ℕ) (s : State Ownership) (staking : StakeTracker) (msgs : List Msg)
      → IsSolvent wynd s.payment held
      → s.payment.vesting.status ≢ unfunded
      → transferred msgs ≡ 0
      → Settles held 0 0 (record s { payment = record (s.payment) { staking = staking } }, msgs)
  restaked held s staking msgs solvent is_funded none_sent = (
    omega arith,
    subst (λ n. IsSolvent wynd (record (s.payment) { staking = staking }) n) (omega arith)
        (record {
          balanced = solvent.balanced;
          unstaked = λ u. absurd (is_funded u);
          bounded = solvent.bounded;
        }),
  )

  pub funded_now :
      (st : Status) (sender recipient : Addr) {u : Unit {0}}
      → check_receiver wynd chain st sender recipient ≡ ok u
      → st ≢ unfunded
  unfolding check_receiver
  funded_now unfunded sender recipient h = cc
  funded_now funded sender recipient h = λ u. cc
  funded_now (canceled x) sender recipient h = λ u. cc

  pub funded_before :
      (st : Status) (sender recipient : Addr) {u : Unit {0}}
      → check_undelegate wynd chain st sender recipient ≡ ok u
      → st ≢ unfunded
  unfolding check_undelegate
  funded_before unfunded sender recipient h = cc
  funded_before funded sender recipient h = λ u. cc
  funded_before (canceled x) sender recipient h = λ u. cc

  pub unfunded_yet : (st : Status) → is_unfunded wynd chain st ≡ true → st ≡ unfunded
  unfolding is_unfunded
  unfunded_yet unfunded h = refl
  unfunded_yet funded h = cc
  unfunded_yet (canceled x) h = cc

  pub unchanged :
      (s : State Ownership) (r : State Ownership × List Msg) (held : ℕ)
      → IsSolvent wynd s.payment held
      → (msgs : List Msg) → transferred msgs ≡ 0
      → (s' : State Ownership) → s'.payment ≡ s.payment
      → ◌≡◌ {A = Outcome ContractError (State Ownership × List Msg)} (ok (s', msgs)) (ok r)
      → Settles held 0 0 r
  unchanged s r held solvent msgs none_sent s' same h = subst (Settles held 0 0) (ok-injective h) (
    omega arith,
    subst (λ n. IsSolvent wynd (s'.payment) n) (omega arith)
        (subst (λ p. IsSolvent wynd p held) (sym same) solvent),
  )
