-- ===== src/Vesting/Tests.antt =====
-- Vesting payments at concrete inputs: a hundred tokens that vest over ten seconds.
use dao_contracts.Prelude.{
  ℕ, ◌+◌, ◌-◌, ◌*◌, ◌/◌, ◌≤◌, ◌<◌, ◌≡◌, refl, Option, none, some, List, [], ◌∷◌, arith, min, ◌==◌,
  Outcome, ok, err, panic, guard, Returns,
}
use dao_contracts.Cosmwasm.{Addr, BlockInfo}
use dao_contracts.Denom.{Text, CheckedDenom}
use dao_contracts.Denom
use dao_contracts.StakeTracker.{StakeTracker, total_staked}
use dao_contracts.Vesting.State.{
  Curve, WyndUtils, Schedule, Status, unfunded, funded, canceled, Vest, Payment, OwnershipError,
  no_owner, not_owner, Msg, transfer,
}
use dao_contracts.Vesting.Payment.{total, vested_at, liquid, distribute, cancel}
use dao_contracts.Vesting.Contract.{
  Funds, Chain, InstantiateMsg, ExecuteMsg, cancel_payment, distribute_some, State, instantiate,
  execute,
}
use dao_contracts.Vesting.Solvent.{IsSolvent}
use dao_contracts.Vesting.Solvent.Settles.{Settles}
use dao_contracts.Vesting.Solvent.Execute.{execute-Settles}
use dao_contracts.Vesting.Solvent.Reachable.{instantiated, slashed, executed, Reachable-IsSolvent}
use dao_contracts.Vesting.Limits.{Distributes, distribute-Distributes, liquid-surplus}
use dao_contracts.Vesting.Cancellation.{cancel-Returns, cancel-unfunded}
use dao_contracts.Vesting.Access.{Authorized, execute-Authorized}

-- Curves, where a saturating one starts at zero
abbrev value : Curve → ℕ → ℕ
value (Curve.constant y) x = y
value (Curve.saturating_linear min_x min_y max_x max_y) x = min max_y (max_y * x / max_x)
value (Curve.piecewise_linear steps) x = 0

abbrev range : Curve → ℕ × ℕ
range (Curve.constant y) = (y, y)
range (Curve.saturating_linear min_x min_y max_x max_y) = (min_y, max_y)
range (Curve.piecewise_linear steps) = (0, 0)

value-le : (c : Curve) (x : ℕ) → value c x ≤ (range c).1
value-le (Curve.constant y) x = omega arith
value-le (Curve.saturating_linear min_x min_y max_x max_y) x = omega arith
value-le (Curve.piecewise_linear steps) x = omega arith

abbrev curves : WyndUtils
curves = record {
  value = value;
  range = range;
  new_saturating_linear = λ (a, b) (c, d). Curve.saturating_linear a b c d;
  validate_monotonic_increasing = λ c. ok tt;
  value-constant = λ y x. refl;
  range-constant = λ y. refl;
  value_le = λ c x h. value-le c x;
}

abbrev assert_owner : Option Addr → Addr → Outcome OwnershipError (Unit {0})
assert_owner none a = err no_owner
assert_owner (some b) a = guard (b == a) not_owner

assert_owner-accepts : (o : Option Addr) (a : Addr) → assert_owner o a ≡ ok tt → o ≡ some a
assert_owner-accepts none a h = cc
assert_owner-accepts (some b) a h = ground arith

abbrev paid : Funds → ℕ
paid [] = 0
paid ((_, n) ∷ _) = n

abbrev ujuno : Text
ujuno = b'u' ∷ b'j' ∷ b'u' ∷ b'n' ∷ b'o' ∷ []

abbrev juno : Chain (Option Addr)
juno = record {
  contract = 9;
  addr_validate = λ a. ok a;
  token_info = λ a. ok tt;
  bonded_denom = ok ujuno;
  can_redelegate = λ v. ok (some 100);
  must_pay = λ funds d. ok (paid funds);
  nonpayable = λ funds. ok tt;
  initialize_owner = λ o. ok o;
  owner_of = λ o. o;
  assert_owner = assert_owner;
  update_ownership = λ o block sender action. ok o;
  assert_owner-accepts = assert_owner-accepts;
}

abbrev no_stake : StakeTracker
no_stake = record { total_staked = []; validators = λ v. []; cardinality = [] }

abbrev forty_staked : StakeTracker
forty_staked = record {
  total_staked = (0, 40) ∷ [];
  validators = λ v. (0, 40) ∷ [];
  cardinality = (0, 1) ∷ [];
}

abbrev vest : Status → ℕ → Vest
vest status claimed = record {
  vested = Curve.saturating_linear 0 0 10 100;
  start_time = 0;
  status = status;
  recipient = 2;
  denom = CheckedDenom.native ujuno;
  claimed = claimed;
  slashed = 0;
  title = "";
  description = none;
}

abbrev funded_payment : Payment
funded_payment = record { vesting = vest funded 0; staking = forty_staked }

abbrev unfunded_payment : Payment
unfunded_payment = record { vesting = vest unfunded 0; staking = no_stake }

abbrev five_seconds : ℕ
five_seconds = 5000000000

abbrev at_five : BlockInfo
at_five = record { height = 5; time = five_seconds }

abbrev state : Payment → State (Option Addr)
state payment = record { payment = payment; unbonding_duration_seconds = 100; ownership = some 1 }

funded_payment-IsSolvent : IsSolvent curves funded_payment 100
funded_payment-IsSolvent = record {
  balanced = omega arith;
  unstaked = λ u. cc;
  bounded = value-le (funded_payment.vesting.vested);
}

unfunded_payment-IsSolvent : IsSolvent curves unfunded_payment 0
unfolding total_staked dao_contracts.Wormhole.load
unfunded_payment-IsSolvent = record {
  balanced = omega arith;
  unstaked = λ u t. refl;
  bounded = value-le (unfunded_payment.vesting.vested);
}

-- The owner cancels after five seconds: the receiver gets fifty and the owner the other ten at hand.
abbrev canceled_state : State (Option Addr) × List Msg
canceled_state = (
  record {
    payment = record {
      vesting = record (vest (canceled 40) 50) { vested = Curve.constant 50 };
      staking = forty_staked;
    };
    unbonding_duration_seconds = 100;
    ownership = some 1;
  },
  Msg.set_withdraw_address 1
      ∷ transfer (CheckedDenom.native ujuno) 1 10
      ∷ transfer (CheckedDenom.native ujuno) 2 50
      ∷ [],
)

cancels : execute curves juno at_five 1 [] cancel_payment (state funded_payment) ≡ ok canceled_state
unfolding execute dao_contracts.Vesting.Contract.execute_cancel_vesting_payment cancel liquid
    total_staked dao_contracts.Wormhole.load dao_contracts.Vesting.Payment.owed
    dao_contracts.Vesting.Payment.cancel_vest
cancels = refl

execute-Settles_example : Settles curves juno 100 0 0 canceled_state
execute-Settles_example =
    execute-Settles curves juno at_five 1 [] (state funded_payment) canceled_state 100
      funded_payment-IsSolvent cancel_payment (omega arith) cancels

execute-Authorized_example : Authorized curves juno cancel_payment (state funded_payment) 1
execute-Authorized_example =
    execute-Authorized curves juno at_five 1 [] cancel_payment (state funded_payment) canceled_state
      cancels

abbrev distributed : Payment × Msg
distributed = (
  record { vesting = vest funded 30; staking = forty_staked },
  transfer (CheckedDenom.native ujuno) 2 30,
)

distributes : distribute curves five_seconds (some 30) funded_payment ≡ ok distributed
unfolding distribute dao_contracts.Vesting.Payment.distributable liquid total_staked
    dao_contracts.Wormhole.load dao_contracts.Vesting.Payment.owed
distributes = refl

distribute-Distributes_example : Distributes curves five_seconds funded_payment distributed
distribute-Distributes_example =
    distribute-Distributes curves five_seconds (some 30) funded_payment distributed distributes

forty : total_staked forty_staked 5 ≡ 40
unfolding total_staked dao_contracts.Wormhole.load
forty = refl

cancel-Returns_example : Returns (cancel curves five_seconds 1 funded_payment)
cancel-Returns_example =
    cancel-Returns curves five_seconds 1 funded_payment 100 refl funded_payment-IsSolvent
      (omega (arith, forty)) (omega arith) (omega arith)

cancel-unfunded_example :
    (vested_at curves (vest unfunded 0) five_seconds ≡ 0
      → Returns (cancel curves five_seconds 1 unfunded_payment))
    × (0 < vested_at curves (vest unfunded 0) five_seconds
        → cancel curves five_seconds 1 unfunded_payment ≡ panic)
cancel-unfunded_example =
    cancel-unfunded curves five_seconds 1 unfunded_payment 0 refl unfunded_payment-IsSolvent
      (omega arith)

-- Thirty of seventy were slashed before the cancellation.
abbrev slashed_vest : Vest
slashed_vest = record (vest (canceled 10) 20) { vested = Curve.constant 80; slashed = 30 }

at_hand : liquid curves slashed_vest 40 ≡ ok 30
unfolding liquid
at_hand = refl

liquid-surplus_example : 30 + 40 ≡ 40 + min (80 - 20) 30
liquid-surplus_example = liquid-surplus curves 10 slashed_vest 40 40 30 refl (omega arith) at_hand

abbrev message : InstantiateMsg
message = record {
  owner = some 1;
  recipient = 2;
  title = "";
  description = none;
  total = 100;
  denom = Denom.UncheckedDenom.native ujuno;
  schedule = Schedule.saturating_linear;
  start_time = some 0;
  vesting_duration_seconds = 10;
  unbonding_duration_seconds = 100;
}

abbrev at_start : BlockInfo
at_start = record { height = 1; time = 0 }

instantiates :
    instantiate curves juno at_start ((ujuno, 100) ∷ []) message
    ≡ ok (
      state (record { vesting = vest funded 0; staking = no_stake }),
      Msg.set_withdraw_address 2 ∷ [],
    )
unfolding instantiate Denom.into_checked Denom.validate_native_denom
    dao_contracts.Vesting.Payment.new dao_contracts.Vesting.Payment.into_curve
    dao_contracts.Vesting.Payment.set_funded Denom.same_text
instantiates = refl

distributes_later :
    execute curves juno at_five 7 []
      (distribute_some (some 30))
      (state (record { vesting = vest funded 0; staking = no_stake }))
    ≡ ok (
      state (record { vesting = vest funded 30; staking = no_stake }),
      transfer (CheckedDenom.native ujuno) 2 30 ∷ [],
    )
unfolding execute dao_contracts.Vesting.Contract.execute_distribute distribute
    dao_contracts.Vesting.Payment.distributable liquid total_staked dao_contracts.Wormhole.load
    dao_contracts.Vesting.Payment.owed
distributes_later = refl

Reachable-IsSolvent_example :
    IsSolvent curves (record { vesting = vest funded 30; staking = no_stake }) 70
Reachable-IsSolvent_example =
    Reachable-IsSolvent (Option Addr) curves
      (state (record { vesting = vest funded 30; staking = no_stake })) 65 5
      (executed juno at_five 7 [] (distribute_some (some 30)) _
        (slashed 5 (instantiated juno at_start ((ujuno, 100) ∷ []) message _ instantiates refl)
          (omega arith))
        distributes_later (omega arith) (omega arith))
