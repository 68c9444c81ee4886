-- ===== src/Vesting/State.antt =====
-- contracts/external/cw-vesting/src/vesting.rs, error.rs and msg.rs: the data of a vesting payment.
use dao_contracts.Prelude.{ℕ, ◌≤◌, ◌/◌, ◌^◌, String, ◌≡◌, Option, List, Outcome, ok, map_err}
use dao_contracts.Cosmwasm.{Addr, StdError}
use dao_contracts.Denom.{CheckedDenom, DenomError}
use dao_contracts.StakeTracker.{StakeTracker, Validator}

-- Nanoseconds, and `Timestamp::seconds`
abbrev pub Timestamp : Type 0
Timestamp = ℕ

abbrev pub seconds : Timestamp → ℕ
seconds t = t / 10 ^ 9

-- `wynd_utils::Curve`, with the constructors that the contract names
pub data Curve : Type 0 where
  constant : ℕ → Curve
  saturating_linear : (min_x min_y max_x max_y : ℕ) → Curve
  piecewise_linear : List (ℕ × ℕ) → Curve

pub data CurveError : Type 0 where
  curve_error : CurveError

-- The functions of wynd_utils, and what the contract relies on: a constant curve has its value
-- everywhere, and a curve that passes the check is at most its largest value.
pub record WyndUtils : Type 0 where
  pub value : Curve → ℕ → ℕ
  pub range : Curve → ℕ × ℕ
  pub new_saturating_linear : ℕ × ℕ → ℕ × ℕ → Curve
  pub validate_monotonic_increasing : Curve → Outcome CurveError (Unit {0})
  pub value-constant : (y x : ℕ) → value (constant y) x ≡ y
  pub range-constant : (y : ℕ) → range (constant y) ≡ (y, y)
  pub value_le :
      (c : Curve) (x : ℕ) → validate_monotonic_increasing c ≡ ok tt → value c x ≤ (range c).1

pub data Status : Type 0 where
  unfunded funded : Status
  canceled : (owner_withdrawable : ℕ) → Status

pub data Schedule : Type 0 where
  saturating_linear : Schedule
  piecewise_linear : List (ℕ × ℕ) → Schedule

pub record Vest : Type 0 where
  pub vested : Curve
  pub start_time : Timestamp
  pub status : Status
  pub recipient : Addr
  pub denom : CheckedDenom
  pub claimed : ℕ
  pub slashed : ℕ
  pub title : String
  pub description : Option String

pub record VestInit : Type 0 where
  pub total : ℕ
  pub schedule : Schedule
  pub start_time : Timestamp
  pub duration_seconds : ℕ
  pub denom : CheckedDenom
  pub recipient : Addr
  pub title : String
  pub description : Option String

-- `Payment`: the two items of its storage
pub record Payment : Type 0 where
  pub vesting : Vest
  pub staking : StakeTracker

-- The errors of cw_ownable and cw_utils are passed on unread, but for those that the contract names.
pub data OwnershipError : Type 0 where
  no_owner not_owner : OwnershipError
  other : String → OwnershipError

pub data PaymentError : Type 0 where
  refused : String → PaymentError

pub data ContractError : Type 0 where
  std : StdError → ContractError
  curve : CurveError → ContractError
  denom : DenomError → ContractError
  ownable : OwnershipError → ContractError
  payment_error : PaymentError → ContractError
  vest_range : ℕ → ℕ → ContractError
  wrong_fund_amount : (sent expected : ℕ) → ContractError
  wrong_cw20 zero_vest instavest constant_vest cancelled not_cancelled not_funded unfunded_slash
        already_funded not_receiver not_stakeable no_delegation no_slash self_withdraw
        future_slash :
      ContractError
  non_immediate_redelegate : ℕ → ContractError
  invalid_withdrawal : (request claimable : ℕ) → ContractError

abbrev pub std_or : {A : Type 0} → Outcome StdError A → Outcome ContractError A
std_or = map_err std

-- The messages that the contract sends
pub data Msg : Type 0 where
  transfer : CheckedDenom → (to : Addr) (amount : ℕ) → Msg
  set_withdraw_address : Addr → Msg
  delegate undelegate : Validator → ℕ → Msg
  redelegate : (src dst : Validator) → ℕ → Msg
  withdraw_delegator_reward : Validator → Msg
