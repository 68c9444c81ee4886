-- ===== src/Single/Delegates.antt =====
-- packages/dao-voting/src/delegation.rs and voting.rs: the power of a vote with what is delegated to
-- the voter, and what a first vote takes back from the voter's delegates.
use dao_contracts.Prelude.{
  ℕ, ◌+◌, ◌*◌, ◌/◌, not, ◌||◌, Option, none, some, List, [], ◌∷◌, ltb, ◌==◌, if◌then◌else◌, Outcome,
  ok, err, panic, ◌>>=◌,
}
use dao_contracts.Cosmwasm.{Addr, StdError, overflow, Decimal, decimal_one, u128_mod, sub128}
use dao_contracts.Voting.Votes.{Votes, remove_vote}
use dao_contracts.Single.State.{Ballot, Cast, Chain, DelegationResponse}
use dao_contracts.Single.Ballots.{find, put}

pub record VotingPowerWithDelegation : Type 0 where
  pub individual : ℕ
  pub total : ℕ

-- `mul_floor` panics on a product that is no `Uint128`.
unfoldable pub calculate_delegated_vp : ℕ → Decimal → Outcome StdError ℕ
calculate_delegated_vp vp p =
    if p == 0 || vp == 0
    then ok 0
    else if ltb (vp * p / decimal_one) u128_mod
    then ok (vp * p / decimal_one)
    else panic

-- The tally that a delegate's ballots and the proposal's `votes` make up.
pub record Tallies : Type 0 where
  pub ballots : List Cast
  pub votes : Votes

module _ (chain : Chain) where
  -- A failed query counts as no delegated power.
  unfoldable pub unvoted_delegated_power : Option Addr → Addr → ℕ → ℕ → ℕ
  unvoted_delegated_power none voter id height = 0
  unvoted_delegated_power (some dm) voter id height =
      elim (chain.unvoted_delegated_power dm voter id height) [ none ↦ 0 | some p ↦ p ]

  unfoldable pub get_voting_power_with_delegation :
      Option Addr → Addr → Addr → ℕ → ℕ → Outcome StdError VotingPowerWithDelegation
  unfolding unvoted_delegated_power
  get_voting_power_with_delegation delegation_module dao voter id height = do
    individual ← chain.voting_power dao voter height
    let udvp = unvoted_delegated_power delegation_module voter id height
    if ltb (individual + udvp) u128_mod
        then ok (record { individual = individual; total = individual + udvp })
        else err overflow

  module _ (dm : Addr) (id height individual : ℕ) where
    -- The loop's body for a delegate who has voted.
    unfoldable pub take_back : DelegationResponse → Ballot → Tallies → Outcome StdError Tallies
    unfolding calculate_delegated_vp
    take_back d b t = do
      delegated_vp ← calculate_delegated_vp individual d.percent
      reduction ← chain.power_reduction dm id height d.delegate delegated_vp
      if reduction == 0 then ok t else do
        power ← sub128 b.power reduction
        votes ← remove_vote b.vote reduction t.votes
        ok (record {
          ballots = put id d.delegate (record b { power = power }) t.ballots;
          votes = votes;
        })

    unfoldable pub override_delegate : DelegationResponse → Tallies → Outcome StdError Tallies
    override_delegate d t =
        if not d.active
        then ok t
        else elim (find id d.delegate t.ballots) [ none ↦ ok t | some b ↦ take_back d b t ]

    unfoldable pub override_delegates : List DelegationResponse → Tallies → Outcome StdError Tallies
    override_delegates [] t = ok t
    override_delegates (d ∷ ds) t = do t' ← override_delegate d t; override_delegates ds t'

  unfoldable pub handle_delegate_vote_override :
      Addr → Option Addr → ℕ → ℕ → ℕ → Tallies → Outcome StdError Tallies
  handle_delegate_vote_override delegator none id height individual t = ok t
  handle_delegate_vote_override delegator (some dm) id height individual t = do
    delegations ← chain.delegations dm delegator height
    override_delegates dm id height individual delegations t
