-- ===== src/Vesting/Payment.antt =====
-- contracts/external/cw-vesting/src/vesting.rs: the operations on a vesting payment. Time is in
-- seconds where the source takes `t.seconds()`.
use dao_contracts.Prelude.{
  ℕ, ◌-◌, Bool, true, false, not, ◌&&◌, ◌||◌, Option, none, some, List, [], ◌∷◌, ◌++◌, length, ltb,
  ◌==◌, min, if◌then◌else◌, Outcome, ok, err, map_err, ◌>>=◌, ◌>>◌,
}
use dao_contracts.Cosmwasm.{Addr, add128, sub128}
use dao_contracts.StakeTracker.{Validator, StakeTracker, total_staked, empty}
use dao_contracts.StakeTracker
use dao_contracts.Vesting.State.{
  Timestamp, seconds, Curve, constant, WyndUtils, Status, unfunded, funded, canceled, Schedule,
  Vest, VestInit, Payment, ContractError, curve, vest_range, zero_vest, instavest, constant_vest,
  cancelled, not_cancelled, unfunded_slash, no_slash, invalid_withdrawal, std_or, Msg, transfer,
  set_withdraw_address,
}

-- `Option::unwrap_or`
abbrev pub requested : Option ℕ → ℕ → ℕ
requested none default = default
requested (some n) default = n

-- A transfer of some of the payment's tokens
abbrev pub pay : Vest → Addr → ℕ → Msg
pay v to amount = transfer v.denom to amount

-- `if !amount.is_zero() { msgs.push(…) }`
abbrev pub pay_some : Vest → Addr → ℕ → List Msg
pay_some v to amount = if amount == 0 then [] else pay v to amount ∷ []

unfoldable pub is_canceled : Status → Bool
is_canceled (canceled _) = true
is_canceled _ = false

module _ (wynd : WyndUtils) where
  -- The curve of a schedule before it is checked
  unfoldable pub curve_of : Schedule → ℕ → ℕ → Outcome ContractError Curve
  curve_of Schedule.saturating_linear total duration_seconds =
      ok (wynd.new_saturating_linear (0, 0) (duration_seconds, total))
  curve_of (Schedule.piecewise_linear steps) total duration_seconds =
      if ltb (length steps) 2 then err constant_vest else ok (Curve.piecewise_linear steps)

  unfoldable pub into_curve : Schedule → ℕ → ℕ → Outcome ContractError Curve
  unfolding curve_of
  into_curve schedule total duration_seconds = do
    c ← curve_of schedule total duration_seconds
    map_err curve (wynd.validate_monotonic_increasing c)
    let (lowest, highest) = wynd.range c
    if not (lowest == 0 && highest == total) then err (vest_range lowest highest) else ok c

  unfoldable pub new : VestInit → Outcome ContractError Vest
  new init =
      if init.total == 0
      then err zero_vest
      else if init.duration_seconds == 0
      then err instavest
      else (do
        vested ← into_curve init.schedule init.total init.duration_seconds
        ok (record {
          vested = vested;
          start_time = init.start_time;
          status = unfunded;
          recipient = init.recipient;
          denom = init.denom;
          claimed = 0;
          slashed = 0;
          title = init.title;
          description = init.description;
        }))

  abbrev pub total : Vest → ℕ
  total v = (wynd.range v.vested).1

  -- `Vest::vested`
  abbrev pub vested_at : Vest → Timestamp → ℕ
  vested_at v t = wynd.value v.vested (seconds t - seconds v.start_time)

  -- `Vest::cancel`
  unfoldable pub cancel_vest : Vest → Timestamp → ℕ → Vest
  cancel_vest v t owner_withdrawable = record v {
    status = canceled owner_withdrawable;
    vested = constant (vested_at v t);
  }

  -- The tokens at hand, by the status
  unfoldable pub liquid_of : Status → Vest → ℕ → Outcome ContractError ℕ
  liquid_of unfunded v staked = ok 0
  liquid_of funded v staked = do
    unclaimed ← sub128 (total v) v.claimed
    unstaked ← sub128 unclaimed staked
    sub128 unstaked v.slashed
  liquid_of (canceled owner_withdrawable) v staked = do
    unclaimed ← sub128 (total v) v.claimed
    both ← add128 owner_withdrawable unclaimed
    sub128 both staked

  unfoldable pub liquid : Vest → ℕ → Outcome ContractError ℕ
  unfolding liquid_of
  liquid v staked = liquid_of v.status v staked

  -- `(vesting.vested(t) - vesting.claimed).saturating_sub(vesting.slashed)`
  unfoldable pub owed : Vest → Timestamp → Outcome ContractError ℕ
  owed v t = do unclaimed ← sub128 (vested_at v t) v.claimed; ok (unclaimed - v.slashed)

  unfoldable pub distributable : Payment → Timestamp → Outcome ContractError ℕ
  distributable p t = do
    at_hand ← liquid p.vesting (total_staked p.staking (seconds t))
    claimable ← owed p.vesting t
    ok (min at_hand claimable)

  unfoldable pub distribute : Timestamp → Option ℕ → Payment → Outcome ContractError (Payment × Msg)
  distribute t request p = do
    most ← distributable p t
    let amount = requested request most
    claimed ← add128 p.vesting.claimed amount
    if ltb most amount || amount == 0
        then err (invalid_withdrawal amount most)
        else ok (
          record p { vesting = record (p.vesting) { claimed = claimed } },
          pay p.vesting p.vesting.recipient amount,
        )

  unfoldable pub cancel : Timestamp → Addr → Payment → Outcome ContractError (Payment × List Msg)
  unfolding is_canceled
  cancel t owner p = if is_canceled p.vesting.status then err cancelled else (do
    let staked = total_staked p.staking (seconds t)
    at_hand ← liquid p.vesting staked
    claimable ← owed p.vesting t
    let to_vestee = min claimable at_hand
    let to_owner = at_hand - to_vestee
    claimed ← add128 p.vesting.claimed to_vestee
    let settled : Vest = record (p.vesting) { claimed = claimed }
    outstanding ← owed settled t
    owner_outstanding ← sub128 staked outstanding
    ok (
      record p { vesting = cancel_vest settled t owner_outstanding },
      set_withdraw_address owner ∷ pay_some settled owner to_owner
          ++ pay_some settled settled.recipient to_vestee,
    ))

  -- By the status
  unfoldable pub withdraw_from :
      Status → Timestamp → Option ℕ → Addr → Payment → Outcome ContractError (Payment × Msg)
  withdraw_from (canceled owner_withdrawable) t request owner p = do
    at_hand ← liquid p.vesting (total_staked p.staking (seconds t))
    let claimable = min at_hand owner_withdrawable
    let amount = requested request claimable
    if ltb claimable amount || amount == 0
        then err (invalid_withdrawal amount claimable)
        else ok (
          record p {
            vesting = record (p.vesting) { status = canceled (owner_withdrawable - amount) };
          },
          pay p.vesting owner amount,
        )
  withdraw_from _ t request owner p = err not_cancelled

  unfoldable pub withdraw_canceled_payment :
      Timestamp → Option ℕ → Addr → Payment → Outcome ContractError (Payment × Msg)
  unfolding withdraw_from
  withdraw_canceled_payment t request owner p = withdraw_from p.vesting.status t request owner p

-- What a slash takes from, by the status. In a canceled payment what the owner can no longer bear
-- counts against the receiver.
unfoldable pub slash_vest : Status → ℕ → Vest → Outcome ContractError Vest
slash_vest unfunded amount v = err unfunded_slash
slash_vest funded amount v = do
  slashed ← add128 v.slashed amount
  ok (record v { slashed = slashed })
slash_vest (canceled owner_withdrawable) amount v =
    if ltb owner_withdrawable amount
    then (do
      slashed ← add128 v.slashed (amount - owner_withdrawable)
      ok (record v { status = canceled 0; slashed = slashed }))
    else ok (record v { status = canceled (owner_withdrawable - amount) })

unfoldable pub slash_stake :
    Bool → ℕ → Validator → ℕ → StakeTracker → Outcome ContractError StakeTracker
slash_stake true t validator amount staking =
    std_or (StakeTracker.on_unbonding_slash t validator amount staking)
slash_stake false t validator amount staking =
    std_or (StakeTracker.on_bonded_slash t validator amount staking)

unfoldable pub register_slash :
    Validator → Timestamp → ℕ → Bool → Payment → Outcome ContractError Payment
unfolding slash_vest
register_slash validator t amount during_unbonding p = if amount == 0 then err no_slash else (do
  vest ← slash_vest p.vesting.status amount p.vesting
  staking ← slash_stake during_unbonding (seconds t) validator amount p.staking
  ok (record { vesting = vest; staking = staking }))

-- `set_funded`; its assertion that the payment is not funded yet is one of debug builds.
unfoldable pub set_funded : Payment → Payment
set_funded p = record p { vesting = record (p.vesting) { status = funded } }
