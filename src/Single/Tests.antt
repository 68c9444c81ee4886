-- ===== src/Single/Tests.antt =====
-- The theorems of the proposal module at concrete inputs.
use dao_contracts.Prelude.{◌⊎◌, ◌≡◌, refl, true, false, none, [], arith, ok}
use dao_contracts.Voting.Threshold.{
  majority, percent, Threshold, absolute_percentage, threshold_quorum,
}
use dao_contracts.Voting.Votes.{
  Vote, add_vote, get, total, does_vote_count_pass, does_vote_count_fail,
}
use dao_contracts.Voting.Policy.{is_permitted}
use dao_contracts.Voting.Threshold
use dao_contracts.Voting.Veto.{validate_voting_period}
use dao_contracts.Single.Proposal.{
  tally_passes, tally_fails, votes_to_consider, is_passed, is_rejected, current_status,
  update_status,
}
use dao_contracts.Single.Proposal.Decided.{
  IsPassedAt, IsRejectedAt, is_passed-decides, is_rejected-decides,
}
use dao_contracts.Single.Proposal.Early.{early_pass_stays, early_rejection_stays}
use dao_contracts.Single.Proposal.Exclusive.{passed_not_rejected}
use dao_contracts.Single.Messages.{
  anyone_may_propose, into_initial_policy_and_messages, new_proposal_hooks,
  proposal_status_changed_hooks, new_vote_hooks,
}
use dao_contracts.Single.Ballots.{tally, find, put}
use dao_contracts.Single.Delegates.{get_voting_power_with_delegation, handle_delegate_vote_override}
use dao_contracts.Single.Contract.{ExecuteMsg, execute}
use dao_contracts.Single.Contract.Propose.{
  execute_propose, proposer_of, advance_proposal_id, auto_vote,
}
use dao_contracts.Single.Contract.Vote.{execute_vote}
use dao_contracts.Single.Contract.Admin.{instantiate}
use dao_contracts.Single.Tallied.{votes_of, individual_votes_of, power_of, individual_of}
use dao_contracts.Single.Reachable.{Reachable, tallies_of_Reachable}
use dao_contracts.Single.Samples.{
  utils, block_at, chain, settings, ahead, behind, mixed, mixed_against, start, proposed, voted,
}

ahead-passed : is_passed utils ahead (block_at 10) ≡ ok true
unfolding is_passed tally_passes total votes_to_consider does_vote_count_pass
ahead-passed = refl

behind-rejected : is_rejected utils behind (block_at 10) ≡ ok true
unfolding is_rejected tally_fails total votes_to_consider does_vote_count_fail
behind-rejected = refl

early_pass_stays_example :
    is_passed utils (record ahead { votes = mixed; individual_votes = mixed }) (block_at 200)
    ≡ ok true
early_pass_stays_example =
    early_pass_stays utils ahead mixed mixed (block_at 10) (block_at 200) (omega arith)
      (omega arith) refl (omega arith) (omega arith) (omega arith) refl ahead-passed

early_rejection_stays_example :
    is_rejected utils
      (record behind { votes = mixed_against; individual_votes = mixed_against })
      (block_at 200)
    ≡ ok true
early_rejection_stays_example =
    early_rejection_stays utils behind mixed_against mixed_against (block_at 10) (block_at 200)
      (omega arith) (omega arith) refl (omega arith) (omega arith) (omega arith) behind-rejected

passed_not_rejected_example : is_rejected utils ahead (block_at 10) ≡ ok false
passed_not_rejected_example =
    passed_not_rejected utils ahead (block_at 10) (omega arith) refl ahead-passed

is_passed-decides_example :
    ((is_passed utils ahead (block_at 10) ≡ ok true) × IsPassedAt utils ahead (block_at 10))
    ⊎ ((is_passed utils ahead (block_at 10) ≡ ok false)
        × (IsPassedAt utils ahead (block_at 10) → ⊥))
is_passed-decides_example = is_passed-decides utils ahead (block_at 10) (omega arith)

is_rejected-decides_example :
    ((is_rejected utils behind (block_at 10) ≡ ok true) × IsRejectedAt utils behind (block_at 10))
    ⊎ ((is_rejected utils behind (block_at 10) ≡ ok false)
        × (IsRejectedAt utils behind (block_at 10) → ⊥))
is_rejected-decides_example = is_rejected-decides utils behind (block_at 10) (omega arith)

start-instantiated : instantiate chain 9 settings anyone_may_propose none ≡ ok (start, [])
unfolding instantiate Threshold.validate validate_voting_period into_initial_policy_and_messages
start-instantiated = refl

start-proposed :
    execute utils chain
      (block_at 5)
      1
      (ExecuteMsg.propose (record {
        title = "raise";
        description = "pay more";
        msgs = [];
        proposer = none;
        vote = none;
      }))
      start
    ≡ ok (proposed, [])
unfolding execute execute_propose is_permitted proposer_of update_status current_status is_passed
    tally_passes votes_to_consider does_vote_count_pass is_rejected tally_fails does_vote_count_fail
    advance_proposal_id auto_vote new_proposal_hooks
start-proposed = refl

proposed-voted :
    execute utils chain (block_at 6) 2 (ExecuteMsg.vote 1 Vote.yes none) proposed ≡ ok (voted, [])
unfolding execute execute_vote get_voting_power_with_delegation find handle_delegate_vote_override
    add_vote update_status current_status is_passed tally_passes votes_to_consider
    does_vote_count_pass is_rejected tally_fails does_vote_count_fail put
    proposal_status_changed_hooks new_vote_hooks
proposed-voted = refl

tallies_of_Reachable_example :
    (get (votes_of (voted.proposals 1)) Vote.yes ≡ tally power_of 1 Vote.yes voted.ballots)
    × (get (individual_votes_of (voted.proposals 1)) Vote.yes
        ≡ tally individual_of 1 Vote.yes voted.ballots)
tallies_of_Reachable_example = tallies_of_Reachable {cw = utils} voted 1 Vote.yes (
    Reachable.executed chain (block_at 6) 2 (ExecuteMsg.vote 1 Vote.yes none) []
      (Reachable.executed chain (block_at 5) 1
        (ExecuteMsg.propose (record {
          title = "raise";
          description = "pay more";
          msgs = [];
          proposer = none;
          vote = none;
        }))
        [] (Reachable.instantiated chain 9 settings anyone_may_propose none [] start-instantiated)
        start-proposed)
      proposed-voted)
