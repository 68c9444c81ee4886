-- ===== src/Vesting/Contract.antt =====
-- contracts/external/cw-vesting/src/contract.rs, with the `staking` feature.
use dao_contracts.Prelude.{
  ℕ, ◌*◌, ◌^◌, ◌≡◌, String, Bool, true, false, not, ◌&&◌, Option, some, List, [], ◌∷◌, ltb, leb,
  ◌==◌, if◌then◌else◌, Outcome, ok, err, guard, ok_or, map_err, ◌>>=◌, ◌>>◌,
}
use dao_contracts.Cosmwasm.{Addr, StdError, add64, BlockInfo}
use dao_contracts.Denom.{
  Text, CheckedDenom, UncheckedDenom, into_checked, is_cw20, is_native, same_text,
}
use dao_contracts.StakeTracker.{Validator, empty, on_delegate, on_redelegate, on_undelegate}
use dao_contracts.Vesting.State.{
  Timestamp, seconds, WyndUtils, Status, unfunded, funded, canceled, Schedule, Payment,
  OwnershipError, no_owner, PaymentError, ContractError, denom, ownable, payment_error,
  wrong_fund_amount, wrong_cw20, instavest, already_funded, cancelled, not_funded, not_receiver,
  not_stakeable, no_delegation, non_immediate_redelegate, self_withdraw, future_slash, std_or, Msg,
  set_withdraw_address, delegate, undelegate, redelegate, withdraw_delegator_reward,
}
use dao_contracts.Vesting.Payment.{
  requested, new, total, distribute, cancel, withdraw_canceled_payment, register_slash, set_funded,
}

-- The coins that are sent with a message
abbrev pub Funds : Type 0
Funds = List (Text × ℕ)

-- `cw_ownable::Action`: all but a renunciation are passed on unread.
pub data Action : Type 0 where
  renounce_ownership : Action
  other : String → Action

-- What the contract calls of the chain, of cw_utils and of cw_ownable. The owner is all that the
-- contract reads of an `Ownership`. It relies on `assert_owner` to accept the owner alone.
pub record Chain (Ownership : Type 0) : Type 0 where
  pub contract : Addr
  pub addr_validate : Addr → Outcome StdError Addr
  pub token_info : Addr → Outcome StdError (Unit {0})
  pub bonded_denom : Outcome StdError Text
  pub can_redelegate : Validator → Outcome StdError (Option ℕ)
  pub must_pay : Funds → Text → Outcome PaymentError ℕ
  pub nonpayable : Funds → Outcome PaymentError (Unit {0})
  pub initialize_owner : Option Addr → Outcome StdError Ownership
  pub owner_of : Ownership → Option Addr
  pub assert_owner : Ownership → Addr → Outcome OwnershipError (Unit {0})
  pub update_ownership : Ownership → BlockInfo → Addr → Action → Outcome OwnershipError Ownership
  pub assert_owner-accepts :
      (o : Ownership) (a : Addr) → assert_owner o a ≡ ok tt → owner_of o ≡ some a

pub record InstantiateMsg : Type 0 where
  pub owner : Option Addr
  pub recipient : Addr
  pub title : String
  pub description : Option String
  pub total : ℕ
  pub denom : UncheckedDenom
  pub schedule : Schedule
  pub start_time : Option Timestamp
  pub vesting_duration_seconds : ℕ
  pub unbonding_duration_seconds : ℕ

-- `receive` is the hook of a cw20 contract, with the amount that it has transferred.
pub data ExecuteMsg : Type 0 where
  receive : (amount : ℕ) → ExecuteMsg
  cancel_payment : ExecuteMsg
  distribute_some withdraw_canceled : Option ℕ → ExecuteMsg
  update_owner : Action → ExecuteMsg
  delegate_to undelegate_from : Validator → ℕ → ExecuteMsg
  redelegate_from : (src dst : Validator) → ℕ → ExecuteMsg
  set_withdraw : Addr → ExecuteMsg
  withdraw_reward : Validator → ExecuteMsg
  slash : Validator → Timestamp → (amount : ℕ) → (during_unbonding : Bool) → ExecuteMsg

-- The storage of the contract
pub record State (Ownership : Type 0) : Type 0 where
  pub payment : Payment
  pub unbonding_duration_seconds : ℕ
  pub ownership : Ownership

module _ {Ownership : Type 0} (wynd : WyndUtils) (chain : Chain Ownership) where
  -- What the receiver alone may do with a funded payment
  unfoldable pub check_receiver : Status → Addr → Addr → Outcome ContractError (Unit {0})
  check_receiver unfunded sender recipient = err not_funded
  check_receiver funded sender recipient = guard (sender == recipient) not_receiver
  check_receiver (canceled _) sender recipient = err cancelled

  -- Anyone may undelegate in a canceled payment.
  unfoldable pub check_undelegate : Status → Addr → Addr → Outcome ContractError (Unit {0})
  check_undelegate unfunded sender recipient = err not_funded
  check_undelegate funded sender recipient = guard (sender == recipient) not_receiver
  check_undelegate (canceled _) sender recipient = ok tt

  unfoldable pub assert_sender_owns : State Ownership → Addr → Outcome ContractError (Unit {0})
  assert_sender_owns s sender = map_err ownable (chain.assert_owner s.ownership sender)

  -- The funding at the instantiation, by the denomination
  unfoldable pub fund_initially :
      CheckedDenom → Funds → Payment → Outcome ContractError (Payment × List Msg)
  fund_initially (CheckedDenom.native d) funds p = do
    sent ← map_err payment_error (chain.must_pay funds d)
    guard (total wynd p.vesting == sent) (wrong_fund_amount sent (total wynd p.vesting))
    bonded ← std_or chain.bonded_denom
    ok (
      set_funded p,
      if same_text d bonded then set_withdraw_address p.vesting.recipient ∷ [] else [],
    )
  fund_initially (CheckedDenom.cw20 _) funds p = do
    map_err payment_error (chain.nonpayable funds)
    ok (p, [])

  unfoldable pub instantiate :
      BlockInfo → Funds → InstantiateMsg → Outcome ContractError (State Ownership × List Msg)
  unfolding fund_initially
  instantiate block funds m = do
    ownership ← std_or (chain.initialize_owner m.owner)
    checked ← map_err denom (into_checked chain.addr_validate chain.token_info m.denom)
    recipient ← std_or (chain.addr_validate m.recipient)
    let start_time = requested m.start_time block.time
    end ← add64 start_time (m.vesting_duration_seconds * 10 ^ 9)
    guard (not (leb end block.time)) instavest
    vest ← new wynd (record {
      total = m.total;
      schedule = m.schedule;
      start_time = start_time;
      duration_seconds = m.vesting_duration_seconds;
      denom = checked;
      recipient = recipient;
      title = m.title;
      description = m.description;
    })
    (payment, msgs) ← fund_initially checked funds (record { vesting = vest; staking = empty })
    ok (
      record {
        payment = payment;
        unbonding_duration_seconds = m.unbonding_duration_seconds;
        ownership = ownership;
      },
      msgs,
    )

  unfoldable pub is_unfunded : Status → Bool
  is_unfunded unfunded = true
  is_unfunded _ = false

  module _ (block : BlockInfo) (sender : Addr) (funds : Funds) where
    unfoldable pub execute_receive_cw20 :
        ℕ → State Ownership → Outcome ContractError (State Ownership × List Msg)
    unfolding is_unfunded
    execute_receive_cw20 amount s = do
      map_err payment_error (chain.nonpayable funds)
      let vest = s.payment.vesting
      guard (total wynd vest == amount) (wrong_fund_amount amount (total wynd vest))
      guard (is_cw20 vest.denom sender) wrong_cw20
      guard (is_unfunded vest.status) already_funded
      ok (record s { payment = set_funded s.payment }, [])

    unfoldable pub execute_cancel_vesting_payment :
        State Ownership → Outcome ContractError (State Ownership × List Msg)
    unfolding assert_sender_owns
    execute_cancel_vesting_payment s = do
      assert_sender_owns s sender
      (payment, msgs) ← cancel wynd block.time sender s.payment
      ok (record s { payment = payment }, msgs)

    unfoldable pub execute_distribute :
        Option ℕ → State Ownership → Outcome ContractError (State Ownership × List Msg)
    execute_distribute request s = do
      (payment, msg) ← distribute wynd block.time request s.payment
      ok (record s { payment = payment }, msg ∷ [])

    unfoldable pub execute_withdraw_canceled_payment :
        Option ℕ → State Ownership → Outcome ContractError (State Ownership × List Msg)
    execute_withdraw_canceled_payment amount s = do
      owner ← ok_or (chain.owner_of s.ownership) (ownable no_owner)
      (payment, msg) ← withdraw_canceled_payment wynd block.time amount owner s.payment
      ok (record s { payment = payment }, msg ∷ [])

    -- Whether an action would renounce the ownership
    unfoldable pub renounces : Action → Bool
    renounces renounce_ownership = true
    renounces _ = false

    -- Whether the owner of a canceled payment has funds left in it
    unfoldable pub has_withdrawable : Status → Bool
    has_withdrawable (canceled owner_withdrawable) = not (owner_withdrawable == 0)
    has_withdrawable _ = false

    unfoldable pub execute_update_owner :
        Action → State Ownership → Outcome ContractError (State Ownership × List Msg)
    unfolding renounces has_withdrawable
    execute_update_owner action s =
        if renounces action && has_withdrawable s.payment.vesting.status then err cancelled else (do
          ownership ← map_err ownable (chain.update_ownership s.ownership block sender action)
          ok (record s { ownership = ownership }, []))

    unfoldable pub execute_delegate :
        Validator → ℕ → State Ownership → Outcome ContractError (State Ownership × List Msg)
    unfolding check_receiver
    execute_delegate validator amount s = do
      map_err payment_error (chain.nonpayable funds)
      let vest = s.payment.vesting
      check_receiver vest.status sender vest.recipient
      bonded ← std_or chain.bonded_denom
      guard (is_native vest.denom bonded) not_stakeable
      staking ← std_or (on_delegate (seconds block.time) validator amount s.payment.staking)
      ok (
        record s { payment = record (s.payment) { staking = staking } },
        delegate validator amount ∷ [],
      )

    unfoldable pub execute_redelegate :
        Validator
        → Validator
        → ℕ
        → State Ownership
        → Outcome ContractError (State Ownership × List Msg)
    unfolding check_receiver
    execute_redelegate src dst amount s = do
      map_err payment_error (chain.nonpayable funds)
      let vest = s.payment.vesting
      check_receiver vest.status sender vest.recipient
      bonded ← std_or chain.bonded_denom
      guard (is_native vest.denom bonded) not_stakeable
      delegation ← std_or (chain.can_redelegate src)
      max ← ok_or delegation no_delegation
      guard (not (ltb max amount)) (non_immediate_redelegate max)
      staking ← std_or (on_redelegate (seconds block.time) src dst amount s.payment.staking)
      ok (
        record s { payment = record (s.payment) { staking = staking } },
        redelegate src dst amount ∷ [],
      )

    unfoldable pub execute_undelegate :
        Validator → ℕ → State Ownership → Outcome ContractError (State Ownership × List Msg)
    unfolding check_undelegate
    execute_undelegate validator amount s = do
      map_err payment_error (chain.nonpayable funds)
      let vest = s.payment.vesting
      check_undelegate vest.status sender vest.recipient
      staking ← std_or (
          on_undelegate (seconds block.time) validator amount s.unbonding_duration_seconds
            s.payment.staking)
      bonded ← std_or chain.bonded_denom
      ok (
        record s { payment = record (s.payment) { staking = staking } },
        undelegate validator amount ∷ [],
      )

    unfoldable pub check_withdraw_address :
        Status → State Ownership → Outcome ContractError (Unit {0})
    check_withdraw_address (canceled _) s = assert_sender_owns s sender
    check_withdraw_address _ s = guard (sender == s.payment.vesting.recipient) not_receiver

    unfoldable pub execute_set_withdraw_address :
        Addr → State Ownership → Outcome ContractError (State Ownership × List Msg)
    unfolding check_withdraw_address
    execute_set_withdraw_address address s = do
      check_withdraw_address s.payment.vesting.status s
      guard (not (address == chain.contract)) self_withdraw
      ok (s, set_withdraw_address address ∷ [])

    unfoldable pub execute_register_slash :
        Validator
        → Timestamp
        → ℕ
        → Bool
        → State Ownership
        → Outcome ContractError (State Ownership × List Msg)
    unfolding assert_sender_owns
    execute_register_slash validator time amount during_unbonding s = do
      assert_sender_owns s sender
      guard (not (ltb block.time time)) future_slash
      payment ← register_slash validator time amount during_unbonding s.payment
      ok (record s { payment = payment }, [])

    unfoldable pub execute :
        ExecuteMsg → State Ownership → Outcome ContractError (State Ownership × List Msg)
    execute (receive amount) s = execute_receive_cw20 amount s
    execute cancel_payment s = execute_cancel_vesting_payment s
    execute (distribute_some amount) s = execute_distribute amount s
    execute (withdraw_canceled amount) s = execute_withdraw_canceled_payment amount s
    execute (update_owner action) s = execute_update_owner action s
    execute (delegate_to validator amount) s = execute_delegate validator amount s
    execute (redelegate_from src dst amount) s = execute_redelegate src dst amount s
    execute (undelegate_from validator amount) s = execute_undelegate validator amount s
    execute (set_withdraw address) s = execute_set_withdraw_address address s
    execute (withdraw_reward validator) s = ok (s, withdraw_delegator_reward validator ∷ [])
    execute (slash validator time amount during_unbonding) s =
        execute_register_slash validator time amount during_unbonding s
