-- ===== src/Vesting/Solvent/Reachable.antt =====
-- contracts/external/cw-vesting/src/contract.rs: the accounts balance in every state that the
-- contract can get into.
use dao_contracts.Prelude.{ℕ, ◌+◌, ◌-◌, ◌≤◌, ◌≡◌, arith, List, ok}
use mathlib.Core.Path.{subst}
use dao_contracts.Cosmwasm.{Addr, BlockInfo}
use dao_contracts.Vesting.State.{WyndUtils, Msg}
use dao_contracts.Vesting.Contract.{
  Funds, Chain, InstantiateMsg, ExecuteMsg, State, instantiate, execute,
}
use dao_contracts.Vesting.Solvent.{transferred, IsSolvent}
use dao_contracts.Vesting.Solvent.Settles.{received, lost}
use dao_contracts.Vesting.Solvent.Execute.{execute-Settles}
use dao_contracts.Vesting.Solvent.Instantiate.{funding, instantiate-IsSolvent}

module _ (Ownership : Type 0) (wynd : WyndUtils) where
  -- The states that the contract can get into, with what it then holds of the payment's tokens, at
  -- hand, staked or unbonding, and what has been slashed without being registered. The answers of
  -- the chain may differ from message to message. A slash takes from what is held, and the contract
  -- is not told of it; the owner registers slashes that have happened. A message whose transfers
  -- are not covered fails.
  pub data Reachable : State Ownership → (held unregistered : ℕ) → Type 0 where
    instantiated :
        (chain : Chain Ownership) (block : BlockInfo) (funds : Funds) (m : InstantiateMsg)
        {s : State Ownership} (msgs : List Msg) {held : ℕ}
        → instantiate wynd chain block funds m ≡ ok (s, msgs)
        → funding wynd chain s.payment.vesting.denom funds ≡ ok held
        → Reachable s held 0
    slashed :
        (amount : ℕ) {s : State Ownership} {held unregistered : ℕ}
        → Reachable s held unregistered
        → amount ≤ held
        → Reachable s (held - amount) (unregistered + amount)
    executed :
        (chain : Chain Ownership) (block : BlockInfo) (sender : Addr) (funds : Funds)
        (m : ExecuteMsg) {s s' : State Ownership} (msgs : List Msg) {held unregistered : ℕ}
        → Reachable s held unregistered
        → execute wynd chain block sender funds m s ≡ ok (s', msgs)
        → lost m ≤ unregistered
        → transferred msgs ≤ held + received m
        → Reachable s' (held + received m - transferred msgs) (unregistered - lost m)

  -- In every state that the contract can get into the books balance: what it holds of the payment's
  -- tokens, together with what was slashed and is not registered yet, is what the books still owe.
  -- A slash is registered only after it has happened.
  pub Reachable-IsSolvent :
      (s : State Ownership) (held unregistered : ℕ)
      → Reachable s held unregistered
      → IsSolvent wynd s.payment (held + unregistered)
  Reachable-IsSolvent s held unregistered (instantiated chain block funds m msgs made paid) =
      subst (IsSolvent wynd s.payment) (omega arith)
        (instantiate-IsSolvent wynd chain block funds m (s, msgs) held made paid)
  Reachable-IsSolvent s held' unregistered'
        (slashed amount {held = held} {unregistered = unregistered} before le) =
      subst (IsSolvent wynd s.payment) (omega arith)
        (Reachable-IsSolvent s held unregistered before)
  Reachable-IsSolvent s' held' unregistered'
        (executed chain block sender funds m {s = s} msgs {held = held}
          {unregistered = unregistered} before done le covered) =
      let solvent = Reachable-IsSolvent s held unregistered before in
      subst (IsSolvent wynd s'.payment) (omega arith)
        (execute-Settles wynd chain block sender funds s (s', msgs) (held + unregistered) solvent m
          (omega arith) done).1
