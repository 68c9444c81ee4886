-- ===== src/Vesting/Solvent/Stake.antt =====
-- contracts/external/cw-vesting/src/contract.rs: the messages about the staked tokens.
use dao_contracts.Prelude.{
  ℕ, ◌≡◌, refl, not, List, [], ◌∷◌, ltb, ◌==◌, ok, ok_or, map_err, >>=-then, guard-eq-ok,
  ok-injective,
}
use mathlib.Core.Path.{subst}
use dao_contracts.Cosmwasm.{Addr, BlockInfo}
use dao_contracts.Denom.{is_native}
use dao_contracts.StakeTracker.{on_delegate, on_redelegate, on_undelegate}
use dao_contracts.Vesting.State.{
  seconds, WyndUtils, payment_error, no_delegation, std_or, Msg, delegate, redelegate, undelegate,
}
use dao_contracts.Vesting.Contract.{
  Funds, Chain, State, check_receiver, check_undelegate, check_withdraw_address, execute_delegate,
  execute_redelegate, execute_undelegate, execute_set_withdraw_address,
}
use dao_contracts.Vesting.Solvent.{IsSolvent}
use dao_contracts.Vesting.Solvent.Settles.{Settles, restaked, unchanged, funded_now, funded_before}

module _ {Ownership : Type 0} (wynd : WyndUtils) (chain : Chain Ownership) where
  module _ (block : BlockInfo) (sender : Addr) (funds : Funds) (s : State Ownership)
      (r : State Ownership × List Msg) (held : ℕ) (solvent : IsSolvent wynd s.payment held) where
    pub delegate-Settles :
        (validator amount : ℕ)
        → execute_delegate wynd chain block sender funds validator amount s ≡ ok r
        → Settles wynd chain held 0 0 r
    unfolding execute_delegate
    delegate-Settles validator amount h =
        let v = s.payment.vesting in
        >>=-then (map_err payment_error (chain.nonpayable funds)) _ h λ _ _ h1.
          >>=-then (check_receiver wynd chain v.status sender v.recipient) _ h1 λ _ e h2.
            >>=-then (std_or chain.bonded_denom) _ h2 λ bonded _ h3.
              let (_, h4) = guard-eq-ok (is_native v.denom bonded) _ _ h3 in
              >>=-then
                (std_or (on_delegate (seconds block.time) validator amount s.payment.staking)) _ h4
                λ staking _ h5. subst (Settles wynd chain held 0 0) (ok-injective h5) (
                  restaked wynd chain held s staking (delegate validator amount ∷ []) solvent
                    (funded_now wynd chain v.status sender v.recipient e) refl)

    pub redelegate-Settles :
        (src dst amount : ℕ)
        → execute_redelegate wynd chain block sender funds src dst amount s ≡ ok r
        → Settles wynd chain held 0 0 r
    unfolding execute_redelegate
    redelegate-Settles src dst amount h =
        let v = s.payment.vesting in
        >>=-then (map_err payment_error (chain.nonpayable funds)) _ h λ _ _ h1.
          >>=-then (check_receiver wynd chain v.status sender v.recipient) _ h1 λ _ e h2.
            >>=-then (std_or chain.bonded_denom) _ h2 λ bonded _ h3.
              let (_, h4) = guard-eq-ok (is_native v.denom bonded) _ _ h3 in
              >>=-then (std_or (chain.can_redelegate src)) _ h4 λ delegation _ h5.
                >>=-then (ok_or delegation no_delegation) _ h5 λ max _ h6.
                  let (_, h7) = guard-eq-ok (not (ltb max amount)) _ _ h6 in
                  >>=-then
                    (std_or (on_redelegate (seconds block.time) src dst amount s.payment.staking)) _
                    h7
                    λ staking _ h8. subst (Settles wynd chain held 0 0) (ok-injective h8) (
                      restaked wynd chain held s staking (redelegate src dst amount ∷ []) solvent
                        (funded_now wynd chain v.status sender v.recipient e) refl)

    pub undelegate-Settles :
        (validator amount : ℕ)
        → execute_undelegate wynd chain block sender funds validator amount s ≡ ok r
        → Settles wynd chain held 0 0 r
    unfolding execute_undelegate
    undelegate-Settles validator amount h =
        let v = s.payment.vesting in
        >>=-then (map_err payment_error (chain.nonpayable funds)) _ h λ _ _ h1.
          >>=-then (check_undelegate wynd chain v.status sender v.recipient) _ h1 λ _ e h2.
            >>=-then
              (std_or (
                on_undelegate (seconds block.time) validator amount s.unbonding_duration_seconds
                  s.payment.staking))
              _ h2
              λ staking _ h3. >>=-then (std_or chain.bonded_denom) _ h3 λ bonded _ h4.
                subst (Settles wynd chain held 0 0) (ok-injective h4) (
                  restaked wynd chain held s staking (undelegate validator amount ∷ []) solvent
                    (funded_before wynd chain v.status sender v.recipient e) refl)

    pub set_withdraw-Settles :
        (address : Addr)
        → execute_set_withdraw_address wynd chain block sender funds address s ≡ ok r
        → Settles wynd chain held 0 0 r
    unfolding execute_set_withdraw_address
    set_withdraw-Settles address h =
        >>=-then (check_withdraw_address wynd chain block sender funds s.payment.vesting.status s) _
          h
          λ _ _ h1.
            let (_, h2) = guard-eq-ok (not (address == chain.contract)) _ _ h1 in
            unchanged wynd chain s r held solvent _ refl s refl h2
