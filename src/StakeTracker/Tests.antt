-- ===== src/StakeTracker/Tests.antt =====
-- The stake tracker at concrete inputs.
use dao_contracts.Prelude.{ℕ, ◌≡◌, refl, true, [], ◌∷◌, Outcome, ok, panic, ◌>>=◌}
use dao_contracts.Cosmwasm.{StdError}
use dao_contracts.Voting.Policy.{contains}
use dao_contracts.Hooks.{IsUnique}
use dao_contracts.StakeTracker.{
  StakeTracker, empty, put, on_delegate, on_redelegate, on_undelegate, on_bonded_slash,
  on_unbonding_slash, total_staked, validator_staked, validator_cardinality,
}
use dao_contracts.StakeTracker.Sums.{sum}
use dao_contracts.StakeTracker.Reachable.{Reachable, total_of_Reachable}

-- Ten are staked with the validator 1 at time 0 and unbonded until time 10; five more are staked at
-- time 5.
abbrev delegated_while_unbonding : Outcome StdError StakeTracker
delegated_while_unbonding = do
  a ← on_delegate 0 1 10 empty
  b ← on_undelegate 0 1 10 10 a
  on_delegate 5 1 5 b

-- From time 10 on, five are staked, but no validator is counted.
abbrev counted_at_end : Outcome StdError (ℕ × ℕ)
counted_at_end = do
  s ← delegated_while_unbonding
  ok (validator_staked s 10 1, validator_cardinality s 10)

delegation_not_counted : counted_at_end ≡ ok (5, 0)
unfolding on_delegate dao_contracts.StakeTracker.increment128 dao_contracts.Wormhole.increment
    dao_contracts.Wormhole.update dao_contracts.Wormhole.load dao_contracts.Wormhole.revise
    dao_contracts.Wormhole.after dao_contracts.StakeTracker.more_validators on_undelegate
    dao_contracts.StakeTracker.decrement128 dao_contracts.Wormhole.decrement
    dao_contracts.Wormhole.save dao_contracts.StakeTracker.fewer_validators validator_staked
    validator_cardinality
delegation_not_counted = refl

-- The five cannot be unstaked: the count goes below zero.
undelegation_panics : (do s ← delegated_while_unbonding; on_undelegate 12 1 5 10 s) ≡ panic
unfolding on_delegate dao_contracts.StakeTracker.increment128 dao_contracts.Wormhole.increment
    dao_contracts.Wormhole.update dao_contracts.Wormhole.load dao_contracts.Wormhole.revise
    dao_contracts.Wormhole.after dao_contracts.StakeTracker.more_validators on_undelegate
    dao_contracts.StakeTracker.decrement128 dao_contracts.Wormhole.decrement
    dao_contracts.Wormhole.save dao_contracts.StakeTracker.fewer_validators
undelegation_panics = refl

-- Ten each are unbonded from the validators 1 and 2, until time 10 and time 7. A slash of five of the
-- validator 1 at time 3 is not in the total at time 7.
abbrev slashed_while_unbonding : Outcome StdError (ℕ × ℕ × ℕ)
slashed_while_unbonding = do
  a ← on_delegate 0 1 10 empty
  b ← on_delegate 0 2 10 a
  c ← on_undelegate 0 1 10 10 b
  d ← on_undelegate 0 2 10 7 c
  s ← on_unbonding_slash 3 1 5 d
  ok (total_staked s 7, validator_staked s 7 1, validator_staked s 7 2)

unbonding_slash_lost : slashed_while_unbonding ≡ ok (10, 5, 0)
unfolding on_delegate dao_contracts.StakeTracker.increment128 dao_contracts.Wormhole.increment
    dao_contracts.Wormhole.update dao_contracts.Wormhole.load dao_contracts.Wormhole.revise
    dao_contracts.Wormhole.after dao_contracts.StakeTracker.more_validators
    dao_contracts.Wormhole.save on_undelegate dao_contracts.StakeTracker.decrement128
    dao_contracts.Wormhole.decrement dao_contracts.StakeTracker.fewer_validators on_unbonding_slash
    dao_contracts.Wormhole.dangerously_update total_staked validator_staked
unbonding_slash_lost = refl

abbrev one_delegation : StakeTracker
one_delegation = record {
  total_staked = (0, 10) ∷ [];
  validators = put 1 ((0, 10) ∷ []) empty.validators;
  cardinality = (0, 1) ∷ [];
}

abbrev one_redelegation : StakeTracker
one_redelegation = record {
  total_staked = (0, 10) ∷ [];
  validators = put 2 ((3, 4) ∷ []) (put 1 ((0, 10) ∷ (3, 6) ∷ []) one_delegation.validators);
  cardinality = (0, 1) ∷ (3, 2) ∷ [];
}

delegates : on_delegate {E = StdError} 0 1 10 empty ≡ ok one_delegation
unfolding on_delegate dao_contracts.StakeTracker.increment128 dao_contracts.Wormhole.increment
    dao_contracts.Wormhole.update dao_contracts.Wormhole.load dao_contracts.Wormhole.revise
    dao_contracts.Wormhole.after dao_contracts.StakeTracker.more_validators
    dao_contracts.Wormhole.save
delegates = refl

redelegates : on_redelegate {E = StdError} 3 1 2 4 one_delegation ≡ ok one_redelegation
unfolding on_redelegate dao_contracts.StakeTracker.decrement128 dao_contracts.Wormhole.decrement
    dao_contracts.Wormhole.update dao_contracts.Wormhole.load dao_contracts.Wormhole.revise
    dao_contracts.Wormhole.after dao_contracts.StakeTracker.fewer_validators
    dao_contracts.StakeTracker.increment128 dao_contracts.Wormhole.increment
    dao_contracts.StakeTracker.more_validators dao_contracts.Wormhole.save
redelegates = refl

known_1 : contains (1 ∷ 2 ∷ []) 1 ≡ true
unfolding contains
known_1 = refl

known_2 : contains (1 ∷ 2 ∷ []) 2 ≡ true
unfolding contains
known_2 = refl

both-IsUnique : IsUnique (1 ∷ 2 ∷ [])
unfolding contains
both-IsUnique = (refl, (refl, tt))

total_of_Reachable_example :
    total_staked one_redelegation 5 ≡ sum (1 ∷ 2 ∷ []) (λ v. validator_staked one_redelegation 5 v)
total_of_Reachable_example = total_of_Reachable (1 ∷ 2 ∷ []) one_redelegation 5 both-IsUnique (
    Reachable.redelegated 3 1 2 4 (Reachable.delegated 0 1 10 Reachable.new known_1 delegates)
      known_1 known_2 redelegates)
