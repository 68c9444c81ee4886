-- ===== src/Vesting/Solvent/Execute.antt =====
-- contracts/external/cw-vesting/src/contract.rs: every message keeps the accounts.
use dao_contracts.Prelude.{ℕ, ◌≤◌, ◌≡◌, refl, List, ok}
use dao_contracts.Cosmwasm.{Addr, BlockInfo}
use dao_contracts.Vesting.State.{WyndUtils, Msg}
use dao_contracts.Vesting.Contract.{
  Funds, Chain, ExecuteMsg, receive, cancel_payment, distribute_some, withdraw_canceled,
  update_owner, delegate_to, undelegate_from, redelegate_from, set_withdraw, withdraw_reward, slash,
  State, execute,
}
use dao_contracts.Vesting.Solvent.{IsSolvent}
use dao_contracts.Vesting.Solvent.Settles.{received, lost, Settles, unchanged}
use dao_contracts.Vesting.Solvent.Money.{
  receive-Settles, cancel-Settles, distribute-Settles, withdraw-Settles, update_owner-Settles,
  slash-Settles,
}
use dao_contracts.Vesting.Solvent.Stake.{
  delegate-Settles, redelegate-Settles, undelegate-Settles, set_withdraw-Settles,
}

module _ {Ownership : Type 0} (wynd : WyndUtils) (chain : Chain Ownership) where
  module _ (block : BlockInfo) (sender : Addr) (funds : Funds) (s : State Ownership)
      (r : State Ownership × List Msg) (held : ℕ) (solvent : IsSolvent wynd s.payment held) where
    -- Every message that is accepted settles: its transfers are covered by what the contract holds
    -- with what the message brings in and without what was slashed, and what remains balances the
    -- books of the new state, if the books balanced before and a registered slash is of funds that
    -- were held.
    pub execute-Settles :
        (m : ExecuteMsg)
        → lost m ≤ held
        → execute wynd chain block sender funds m s ≡ ok r
        → Settles wynd chain held (received m) (lost m) r
    unfolding execute
    execute-Settles (receive amount) le h =
        receive-Settles wynd chain block sender funds s r held solvent amount h
    execute-Settles cancel_payment le h =
        cancel-Settles wynd chain block sender funds s r held solvent h
    execute-Settles (distribute_some request) le h =
        distribute-Settles wynd chain block sender funds s r held solvent request h
    execute-Settles (withdraw_canceled request) le h =
        withdraw-Settles wynd chain block sender funds s r held solvent request h
    execute-Settles (update_owner action) le h =
        update_owner-Settles wynd chain block sender funds s r held solvent action h
    execute-Settles (delegate_to validator amount) le h =
        delegate-Settles wynd chain block sender funds s r held solvent validator amount h
    execute-Settles (undelegate_from validator amount) le h =
        undelegate-Settles wynd chain block sender funds s r held solvent validator amount h
    execute-Settles (redelegate_from src dst amount) le h =
        redelegate-Settles wynd chain block sender funds s r held solvent src dst amount h
    execute-Settles (set_withdraw address) le h =
        set_withdraw-Settles wynd chain block sender funds s r held solvent address h
    execute-Settles (withdraw_reward validator) le h =
        unchanged wynd chain s r held solvent _ refl s refl h
    execute-Settles (slash validator time amount during_unbonding) le h =
        slash-Settles wynd chain block sender funds s r held solvent validator time amount
          during_unbonding le h
