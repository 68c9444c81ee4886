-- ===== src/Vesting/Access.antt =====
-- contracts/external/cw-vesting/src/contract.rs: who may do what.
use dao_contracts.Prelude.{
  ℕ, ◌≡◌, ◌≢◌, refl, sym, true, some, List, arith, ◌==◌, ==_iff, ok, map_err, >>=-then, guard-eq-ok,
}
use dao_contracts.Cosmwasm.{Addr, BlockInfo}
use dao_contracts.Denom.{is_cw20}
use dao_contracts.Vesting.State.{
  WyndUtils, Status, unfunded, funded, canceled, ownable, payment_error, Msg,
}
use dao_contracts.Vesting.Payment.{total}
use dao_contracts.Vesting.Contract.{
  Funds, Chain, ExecuteMsg, receive, cancel_payment, distribute_some, withdraw_canceled,
  update_owner, delegate_to, undelegate_from, redelegate_from, set_withdraw, withdraw_reward, slash,
  State, check_receiver, check_undelegate, assert_sender_owns, is_unfunded, check_withdraw_address,
  execute_receive_cw20, execute_cancel_vesting_payment, execute_delegate, execute_redelegate,
  execute_undelegate, execute_set_withdraw_address, execute_register_slash, execute,
}
use dao_contracts.Denom.{CheckedDenom, cw20}
use dao_contracts.Prelude.{map_err-eq-ok}

module _ {Ownership : Type 0} (wynd : WyndUtils) (chain : Chain Ownership) where
  owner_is :
      (s : State Ownership) (sender : Addr) {u : Unit {0}}
      → assert_sender_owns wynd chain s sender ≡ ok u
      → chain.owner_of s.ownership ≡ some sender
  unfolding assert_sender_owns
  owner_is s sender h =
      chain.assert_owner-accepts s.ownership sender
        (map_err-eq-ok ownable (chain.assert_owner s.ownership sender) h)

  receiver_is :
      (st : Status) (sender recipient : Addr) {u : Unit {0}}
      → check_receiver wynd chain st sender recipient ≡ ok u
      → (st ≡ funded) × (sender ≡ recipient)
  unfolding check_receiver
  receiver_is unfunded sender recipient h = cc
  receiver_is funded sender recipient h = ground arith
  receiver_is (canceled x) sender recipient h = cc

  undelegator_is :
      (st : Status) (sender recipient : Addr) {u : Unit {0}}
      → check_undelegate wynd chain st sender recipient ≡ ok u
      → (st ≢ unfunded) × (st ≡ funded → sender ≡ recipient)
  unfolding check_undelegate
  undelegator_is unfunded sender recipient h = cc
  undelegator_is funded sender recipient h = (λ e. cc, ground arith)
  undelegator_is (canceled x) sender recipient h = (λ e. cc, λ e. cc)

  -- Who may set the address of the rewards
  abbrev pub MaySetAddress : Status → State Ownership → Addr → Type 0
  MaySetAddress (canceled _) s sender = chain.owner_of s.ownership ≡ some sender
  MaySetAddress _ s sender = sender ≡ s.payment.vesting.recipient

  -- Who may send a message in a state
  abbrev pub Authorized : ExecuteMsg → State Ownership → Addr → Type 0
  Authorized (receive amount) s sender =
      (s.payment.vesting.status ≡ unfunded)
      × (s.payment.vesting.denom ≡ cw20 sender)
      × (amount ≡ total wynd s.payment.vesting)
  Authorized cancel_payment s sender = chain.owner_of s.ownership ≡ some sender
  Authorized (slash _ _ _ _) s sender = chain.owner_of s.ownership ≡ some sender
  Authorized (delegate_to _ _) s sender =
      (s.payment.vesting.status ≡ funded) × (sender ≡ s.payment.vesting.recipient)
  Authorized (redelegate_from _ _ _) s sender =
      (s.payment.vesting.status ≡ funded) × (sender ≡ s.payment.vesting.recipient)
  Authorized (undelegate_from _ _) s sender =
      (s.payment.vesting.status ≢ unfunded)
      × (s.payment.vesting.status ≡ funded → sender ≡ s.payment.vesting.recipient)
  Authorized (set_withdraw _) s sender = MaySetAddress s.payment.vesting.status s sender
  Authorized _ s sender = Unit

  set_withdraw-Authorized :
      (block : BlockInfo) (sender : Addr) (funds : Funds) (st : Status) (s : State Ownership)
      {u : Unit {0}}
      → check_withdraw_address wynd chain block sender funds st s ≡ ok u
      → MaySetAddress st s sender
  unfolding check_withdraw_address
  set_withdraw-Authorized block sender funds unfunded s h = ground arith
  set_withdraw-Authorized block sender funds funded s h = ground arith
  set_withdraw-Authorized block sender funds (canceled x) s h = owner_is s sender h

  is_cw20-eq-true : (d : CheckedDenom) (a : Addr) → is_cw20 d a ≡ true → d ≡ cw20 a
  unfolding is_cw20
  is_cw20-eq-true (CheckedDenom.native x) a h = cc
  is_cw20-eq-true (CheckedDenom.cw20 b) a h = ground arith

  unfunded_yet : (st : Status) → is_unfunded wynd chain st ≡ true → st ≡ unfunded
  unfolding is_unfunded
  unfunded_yet unfunded h = refl
  unfunded_yet funded h = cc
  unfunded_yet (canceled x) h = cc

  receive-Authorized :
      (block : BlockInfo) (sender : Addr) (funds : Funds) (amount : ℕ) (s : State Ownership)
      (r : State Ownership × List Msg)
      → execute_receive_cw20 wynd chain block sender funds amount s ≡ ok r
      → Authorized (receive amount) s sender
  unfolding execute_receive_cw20
  receive-Authorized block sender funds amount s r h =
      let v = s.payment.vesting in
      >>=-then (map_err payment_error (chain.nonpayable funds)) _ h λ _ _ h1.
        let (right, h2) = guard-eq-ok (total wynd v == amount) _ _ h1 in
        let (token, h3) = guard-eq-ok (is_cw20 v.denom sender) _ _ h2 in
        let (u, h4) = guard-eq-ok (is_unfunded wynd chain v.status) _ _ h3 in
        (
          unfunded_yet v.status u,
          is_cw20-eq-true v.denom sender token,
          sym ((==_iff (total wynd v) amount).0 right),
        )

  -- A message is accepted only from who may send it: the tokens arrive from the payment's own cw20
  -- contract, once and in full; only the owner cancels and registers slashes; only the receiver of a
  -- funded payment delegates and redelegates, and undelegates until the payment is canceled; the
  -- address of the rewards is set by the receiver, and by the owner once the payment is canceled.
  pub execute-Authorized :
      (block : BlockInfo) (sender : Addr) (funds : Funds) (m : ExecuteMsg) (s : State Ownership)
      (r : State Ownership × List Msg)
      → execute wynd chain block sender funds m s ≡ ok r
      → Authorized m s sender
  unfolding execute execute_cancel_vesting_payment execute_register_slash execute_delegate
      execute_redelegate execute_undelegate execute_set_withdraw_address
  execute-Authorized block sender funds (receive amount) s r h =
      receive-Authorized block sender funds amount s r h
  execute-Authorized block sender funds cancel_payment s r h =
      >>=-then (assert_sender_owns wynd chain s sender) _ h λ _ e _. owner_is s sender e
  execute-Authorized block sender funds (distribute_some request) s r h = tt
  execute-Authorized block sender funds (withdraw_canceled request) s r h = tt
  execute-Authorized block sender funds (update_owner action) s r h = tt
  execute-Authorized block sender funds (delegate_to validator amount) s r h =
      >>=-then (map_err payment_error (chain.nonpayable funds)) _ h λ _ _ h1.
        >>=-then
          (check_receiver wynd chain s.payment.vesting.status sender s.payment.vesting.recipient) _
          h1 λ _ e _. receiver_is s.payment.vesting.status sender s.payment.vesting.recipient e
  execute-Authorized block sender funds (redelegate_from src dst amount) s r h =
      >>=-then (map_err payment_error (chain.nonpayable funds)) _ h λ _ _ h1.
        >>=-then
          (check_receiver wynd chain s.payment.vesting.status sender s.payment.vesting.recipient) _
          h1 λ _ e _. receiver_is s.payment.vesting.status sender s.payment.vesting.recipient e
  execute-Authorized block sender funds (undelegate_from validator amount) s r h =
      >>=-then (map_err payment_error (chain.nonpayable funds)) _ h λ _ _ h1.
        >>=-then
          (check_undelegate wynd chain s.payment.vesting.status sender s.payment.vesting.recipient)
          _ h1 λ _ e _. undelegator_is s.payment.vesting.status sender s.payment.vesting.recipient e
  execute-Authorized block sender funds (set_withdraw address) s r h =
      >>=-then (check_withdraw_address wynd chain block sender funds s.payment.vesting.status s) _ h
        λ _ e _. set_withdraw-Authorized block sender funds s.payment.vesting.status s e
  execute-Authorized block sender funds (withdraw_reward validator) s r h = tt
  execute-Authorized block sender funds (slash validator time amount during_unbonding) s r h =
      >>=-then (assert_sender_owns wynd chain s sender) _ h λ _ e _. owner_is s sender e
