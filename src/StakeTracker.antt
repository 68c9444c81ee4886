-- ===== src/StakeTracker.antt =====
-- packages/cw-stake-tracker/src/lib.rs: how much is staked and unbonding with which validators, at
-- any time. The proofs are in the modules below.
pub mod Sums
pub mod Totals
pub mod Reachable
mod Tests
use dao_contracts.Prelude.{
  ℕ, ◌+◌, Bool, true, false, not, ◌&&◌, List, [], ◌∷◌, ◌++◌, ◌==◌, if◌then◌else◌, Outcome, ok,
  ◌>>=◌,
}
use dao_contracts.Cosmwasm.{StdError, add64, sub64, add128, sub128}
use dao_contracts.Wormhole.{
  Snapshots, unwrap_or, load, update, dangerously_update, pointwise, increment, decrement,
}

-- The address of a validator, which is only compared
abbrev pub Validator : Type 0
Validator = ℕ

pub record StakeTracker : Type 0 where
  pub total_staked : Snapshots ℕ
  pub validators : Validator → Snapshots ℕ
  pub cardinality : Snapshots ℕ

-- The queries, at a time in seconds
unfoldable pub total_staked : StakeTracker → ℕ → ℕ
total_staked tracker t = unwrap_or 0 (load tracker.total_staked t)

unfoldable pub validator_staked : StakeTracker → ℕ → Validator → ℕ
validator_staked tracker t v = unwrap_or 0 (load (tracker.validators v) t)

unfoldable pub validator_cardinality : StakeTracker → ℕ → ℕ
validator_cardinality tracker t = unwrap_or 0 (load tracker.cardinality t)

-- The default values
abbrev pub empty : StakeTracker
empty = record { total_staked = []; validators = λ v. []; cardinality = [] }

module _ {E : Type 0} where
  unfoldable pub increment128 : ℕ → ℕ → Snapshots ℕ → Outcome E (Unit {0} × Snapshots ℕ × ℕ)
  increment128 t amount h = increment 0 ◌==◌ add128 t amount h

  unfoldable pub decrement128 : ℕ → ℕ → Snapshots ℕ → Outcome E (Unit {0} × Snapshots ℕ × ℕ)
  decrement128 t amount h = decrement 0 ◌==◌ sub128 t amount h

  -- The changes of the cardinality by one, if there is a change
  unfoldable pub more_validators : Bool → ℕ → Snapshots ℕ → Outcome E (Snapshots ℕ)
  more_validators false t h = ok h
  more_validators true t h = do (_, h', _) ← increment 0 ◌==◌ add64 t 1 h; ok h'

  unfoldable pub fewer_validators : Bool → ℕ → Snapshots ℕ → Outcome E (Snapshots ℕ)
  fewer_validators false t h = ok h
  fewer_validators true t h = do (_, h', _) ← decrement 0 ◌==◌ sub64 t 1 h; ok h'

-- The snapshots of one validator are stored.
abbrev pub put : Validator → Snapshots ℕ → (Validator → Snapshots ℕ) → Validator → Snapshots ℕ
put v h validators w = if v == w then h else validators w

-- A change of the cardinality at a time
pub data Change : Type 0 where
  inc dec : ℕ → Change

-- The closure of `on_bonded_slash`, whose state is whether the last value was not zero, and the
-- changes of the cardinality
unfoldable pub slash :
    {E : Type 0} → ℕ → Bool × List Change → ℕ → ℕ → Outcome E ((Bool × List Change) × ℕ)
slash amount (was_nonzero, changes) staked time = do
  new ← sub128 staked amount
  if (new == 0) && was_nonzero
      then ok ((false, changes ++ Change.dec time ∷ []), new)
      else if not (new == 0) && not was_nonzero
      then ok ((true, changes ++ Change.inc time ∷ []), new)
      else ok ((was_nonzero, changes), new)

unfoldable pub change_cardinality :
    {E : Type 0} → List Change → Snapshots ℕ → Outcome E (Snapshots ℕ)
change_cardinality [] h = ok h
change_cardinality (Change.inc time ∷ changes) h = do
  h' ← more_validators true time h
  change_cardinality changes h'
change_cardinality (Change.dec time ∷ changes) h = do
  h' ← fewer_validators true time h
  change_cardinality changes h'

module _ {E : Type 0} where
  unfoldable pub on_delegate : ℕ → Validator → ℕ → StakeTracker → Outcome E StakeTracker
  on_delegate t validator amount tracker = do
    (_, total, _) ← increment128 t amount tracker.total_staked
    let old = unwrap_or 0 (load (tracker.validators validator) t)
    cardinality ← more_validators ((old == 0) && not (amount == 0)) t tracker.cardinality
    (_, staked, _) ← increment128 t amount (tracker.validators validator)
    ok (record {
      total_staked = total;
      validators = put validator staked tracker.validators;
      cardinality = cardinality;
    })

  unfoldable pub on_redelegate :
      ℕ → Validator → Validator → ℕ → StakeTracker → Outcome E StakeTracker
  on_redelegate t src dst amount tracker = do
    (_, from, left) ← decrement128 t amount (tracker.validators src)
    fewer ← fewer_validators (left == 0) t tracker.cardinality
    let moved = put src from tracker.validators
    (_, to, new) ← increment128 t amount (moved dst)
    cardinality ← more_validators (new == amount) t fewer
    ok (record tracker { validators = put dst to moved; cardinality = cardinality })

  unfoldable pub on_undelegate : ℕ → Validator → ℕ → ℕ → StakeTracker → Outcome E StakeTracker
  on_undelegate t validator amount unbonding_duration_seconds tracker = do
    end ← add64 t unbonding_duration_seconds
    (_, total, _) ← decrement128 end amount tracker.total_staked
    (_, staked, new) ← decrement128 end amount (tracker.validators validator)
    cardinality ← fewer_validators ((new == 0) && not (amount == 0)) end tracker.cardinality
    ok (record {
      total_staked = total;
      validators = put validator staked tracker.validators;
      cardinality = cardinality;
    })

  unfoldable pub on_bonded_slash : ℕ → Validator → ℕ → StakeTracker → Outcome E StakeTracker
  on_bonded_slash t validator amount tracker = do
    (_, total, _) ← decrement128 t amount tracker.total_staked
    ((_, changes), staked, _) ←
        update 0 ◌==◌ (slash amount) (true, []) t (tracker.validators validator)
    cardinality ← change_cardinality changes tracker.cardinality
    ok (record {
      total_staked = total;
      validators = put validator staked tracker.validators;
      cardinality = cardinality;
    })

  unfoldable pub on_unbonding_slash : ℕ → Validator → ℕ → StakeTracker → Outcome E StakeTracker
  on_unbonding_slash t validator amount tracker = do
    (_, total, _) ←
        dangerously_update 0 (pointwise (λ v. sub128 v amount)) tt t tracker.total_staked
    (_, staked, new) ←
        dangerously_update 0 (pointwise (λ v. sub128 v amount)) tt t (tracker.validators validator)
    (_, cardinality, _) ←
        if new == 0
        then dangerously_update 0 (pointwise (λ v. sub64 v 1)) tt t tracker.cardinality
        else ok (tt, tracker.cardinality, 0)
    ok (record {
      total_staked = total;
      validators = put validator staked tracker.validators;
      cardinality = cardinality;
    })
