-- ===== src/Vesting/Solvent/Money.antt =====
-- contracts/external/cw-vesting/src/contract.rs: the messages that move the payment's tokens.
use dao_contracts.Prelude.{
  else-eq-ok, ℕ, ◌≤◌, ◌≡◌, refl, Bool, not, Option, List, [], ◌∷◌, arith, ltb, ◌==◌, ==_iff, ok,
  ok_or, map_err, >>=-then, guard-eq-ok, ok-injective,
}
use mathlib.Core.Path.{subst}
use dao_contracts.Cosmwasm.{Addr, BlockInfo}
use dao_contracts.Denom.{is_cw20}
use dao_contracts.Vesting.State.{WyndUtils, ownable, payment_error, no_owner, Msg}
use dao_contracts.Vesting.Payment.{
  total, distribute, cancel, withdraw_canceled_payment, register_slash, set_funded,
}
use dao_contracts.Vesting.Contract.{
  Funds, Action, Chain, State, assert_sender_owns, is_unfunded, execute_receive_cw20,
  execute_cancel_vesting_payment, execute_distribute, execute_withdraw_canceled_payment,
  execute_update_owner, execute_register_slash,
}
use dao_contracts.Vesting.Solvent.{Balances, IsSolvent}
use dao_contracts.Vesting.Solvent.Claims.{distribute-Pays, withdraw_canceled_payment-Pays}
use dao_contracts.Vesting.Solvent.Cancel.{cancel-Pays}
use dao_contracts.Vesting.Solvent.Slash.{register_slash-IsSolvent, set_funded-IsSolvent}
use dao_contracts.Vesting.Solvent.Settles.{Settles, settled, unchanged, unfunded_yet}

module _ {Ownership : Type 0} (wynd : WyndUtils) (chain : Chain Ownership) where
  module _ (block : BlockInfo) (sender : Addr) (funds : Funds) (s : State Ownership)
      (r : State Ownership × List Msg) (held : ℕ) (solvent : IsSolvent wynd s.payment held) where
    pub receive-Settles :
        (amount : ℕ)
        → execute_receive_cw20 wynd chain block sender funds amount s ≡ ok r
        → Settles wynd chain held amount 0 r
    unfolding execute_receive_cw20
    receive-Settles amount h =
        let v = s.payment.vesting in
        >>=-then (map_err payment_error (chain.nonpayable funds)) _ h λ _ _ h1.
          let (right, h2) = guard-eq-ok (total wynd v == amount) _ _ h1 in
          let (_, h3) = guard-eq-ok (is_cw20 v.denom sender) _ _ h2 in
          let (u, h4) = guard-eq-ok (is_unfunded wynd chain v.status) _ _ h3 in
          let first = unfunded_yet wynd chain v.status u in
          let none_held = (subst (λ st. Balances wynd st v held) first solvent.balanced).2 in
          let all = (==_iff (total wynd v) amount).0 right in
          subst (Settles wynd chain held amount 0) (ok-injective h4) (
            omega arith,
            subst (λ n. IsSolvent wynd (set_funded s.payment) n) (omega arith)
                (set_funded-IsSolvent wynd s.payment
                  (subst (λ n. IsSolvent wynd s.payment n) none_held solvent) first),
          )

    pub cancel-Settles :
        execute_cancel_vesting_payment wynd chain block sender funds s ≡ ok r
        → Settles wynd chain held 0 0 r
    unfolding execute_cancel_vesting_payment
    cancel-Settles h = >>=-then (assert_sender_owns wynd chain s sender) _ h λ _ _ h1.
        >>=-then (cancel wynd block.time sender s.payment) _ h1 λ (p, msgs) e h2.
          subst (Settles wynd chain held 0 0) (ok-injective h2) (
            settled wynd chain held s p msgs
              (cancel-Pays wynd block.time sender s.payment (p, msgs) held solvent e))

    pub distribute-Settles :
        (request : Option ℕ)
        → execute_distribute wynd chain block sender funds request s ≡ ok r
        → Settles wynd chain held 0 0 r
    unfolding execute_distribute
    distribute-Settles request h =
        >>=-then (distribute wynd block.time request s.payment) _ h λ (p, msg) e h1.
          subst (Settles wynd chain held 0 0) (ok-injective h1) (
            settled wynd chain held s p (msg ∷ [])
              (distribute-Pays wynd block.time request s.payment (p, msg) held solvent e))

    pub withdraw-Settles :
        (request : Option ℕ)
        → execute_withdraw_canceled_payment wynd chain block sender funds request s ≡ ok r
        → Settles wynd chain held 0 0 r
    unfolding execute_withdraw_canceled_payment
    withdraw-Settles request h =
        >>=-then (ok_or (chain.owner_of s.ownership) (ownable no_owner)) _ h λ owner _ h1.
          >>=-then (withdraw_canceled_payment wynd block.time request owner s.payment) _ h1
            λ (p, msg) e h2. subst (Settles wynd chain held 0 0) (ok-injective h2) (
              settled wynd chain held s p (msg ∷ []) (
                withdraw_canceled_payment-Pays wynd block.time request owner s.payment (p, msg) held
                  solvent e))

    pub update_owner-Settles :
        (action : Action)
        → execute_update_owner wynd chain block sender funds action s ≡ ok r
        → Settles wynd chain held 0 0 r
    unfolding execute_update_owner
    update_owner-Settles action h =
        let (_, h1) = else-eq-ok _ _ _ h in
        >>=-then (map_err ownable (chain.update_ownership s.ownership block sender action)) _ h1
          λ ownership _ h2.
            unchanged wynd chain s r held solvent [] refl (record s { ownership = ownership }) refl
              h2

    pub slash-Settles :
        (validator time amount : ℕ) (during_unbonding : Bool)
        → amount ≤ held
        → execute_register_slash wynd chain block sender funds validator time amount
            during_unbonding s
          ≡ ok r
        → Settles wynd chain held 0 amount r
    unfolding execute_register_slash
    slash-Settles validator time amount during_unbonding le h =
        >>=-then (assert_sender_owns wynd chain s sender) _ h λ _ _ h1.
          let (_, h2) = guard-eq-ok (not (ltb block.time time)) _ _ h1 in
          >>=-then (register_slash validator time amount during_unbonding s.payment) _ h2 λ p e h3.
            subst (Settles wynd chain held 0 amount) (ok-injective h3) (
              omega arith,
              subst (λ n. IsSolvent wynd p n) (omega arith)
                  (register_slash-IsSolvent wynd validator time amount during_unbonding s.payment p
                    held solvent le e),
            )
