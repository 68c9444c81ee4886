-- ===== src/Single/Contract/Vote.antt =====
-- contracts/proposal/dao-proposal-single/src/contract.rs: casting a vote, and its rationale.
use dao_contracts.Prelude.{
  ℕ, String, Bool, true, false, not, Option, none, some, List, ◌++◌, ◌==◌, if◌then◌else◌, Outcome,
  ok, err, guard, ok_or, ◌>>=◌, ◌>>◌, [],
}
use dao_contracts.Cosmwasm.{Addr, BlockInfo, CwUtils}
use dao_contracts.Voting.Votes.{Vote, same_vote, add_vote, remove_vote}
use dao_contracts.Single.Proposal.{SingleChoiceProposal, update_status}
use dao_contracts.Single.State.{
  Ballot, State, ContractError, std_or, Chain, no_such_proposal, expired, not_registered,
  already_cast, already_voted, no_such_vote,
}
use dao_contracts.Single.Ballots.{find, put}
use dao_contracts.Single.Messages.{SubMsg, proposal_status_changed_hooks, new_vote_hooks}
use dao_contracts.Single.Delegates.{
  VotingPowerWithDelegation, Tallies, get_voting_power_with_delegation,
  handle_delegate_vote_override,
}

-- `PROPOSALS.save`
abbrev pub save_proposal :
    (ℕ → Option SingleChoiceProposal) → ℕ → SingleChoiceProposal → ℕ → Option SingleChoiceProposal
save_proposal proposals id p j = if id == j then some p else proposals j

-- What `BALLOTS.update` does to the tallies of the proposal, by the voter's last ballot: nothing for
-- a first vote; a changed vote is taken off the tallies.
unfoldable pub retract :
    SingleChoiceProposal → Vote → Option Ballot → Outcome ContractError SingleChoiceProposal
retract p vote none = ok p
retract p vote (some current) =
    if p.allow_revoting
    then if same_vote current.vote vote then err already_cast else (do
      votes ← remove_vote current.vote current.power p.votes
      individual_votes ← remove_vote current.vote current.individual_power p.individual_votes
      ok (record p { votes = votes; individual_votes = individual_votes }))
    else err already_voted

abbrev pub is_none : Option Ballot → Bool
is_none none = true
is_none (some b) = false

module _ (cw : CwUtils) (chain : Chain) (block : BlockInfo) where
  -- A first vote takes back what the voter's delegates have voted with.
  unfoldable pub override_if_first :
      Bool → Addr → ℕ → SingleChoiceProposal → ℕ → Tallies → Outcome ContractError Tallies
  override_if_first false sender id p individual t = ok t
  override_if_first true sender id p individual t = std_or (
      handle_delegate_vote_override chain sender p.delegation_module id p.start_height individual t)

  -- The tallies of the proposal and the ballots once the vote is counted.
  unfoldable pub count_vote :
      Addr
      → ℕ
      → Vote
      → Option String
      → VotingPowerWithDelegation
      → SingleChoiceProposal
      → State
      → Outcome ContractError (SingleChoiceProposal × State)
  unfolding retract override_if_first
  count_vote sender id vote rationale power prop s = do
    let last = find id sender s.ballots
    p ← retract prop vote last
    let ballot : Ballot = record {
      power = power.total;
      individual_power = power.individual;
      vote = vote;
      rationale = rationale;
    }
    t ←
        override_if_first (is_none last) sender id p power.individual
          (record { ballots = put id sender ballot s.ballots; votes = p.votes })
    votes ← add_vote vote power.total t.votes
    individual_votes ← add_vote vote power.individual p.individual_votes
    ok (
      record p { votes = votes; individual_votes = individual_votes },
      record s { ballots = t.ballots },
    )

  unfoldable pub execute_vote :
      Addr → ℕ → Vote → Option String → State → Outcome ContractError (State × List SubMsg)
  unfolding count_vote
  execute_vote sender id vote rationale s = do
    prop ← ok_or (s.proposals id) (no_such_proposal id)
    guard (not (cw.is_expired prop.expiration block)) (expired id)
    power ← std_or (
        get_voting_power_with_delegation chain prop.delegation_module s.config.dao sender id
          prop.start_height)
    guard (not (power.individual == 0)) not_registered
    (counted, s') ← count_vote sender id vote rationale power prop s
    p ← std_or (update_status cw counted block)
    let change_hooks = proposal_status_changed_hooks s.proposal_hooks id prop.status p.status
    let vote_hooks = new_vote_hooks s.vote_hooks (record {
      proposal_id = id;
      voter = sender;
      vote = vote;
      power = power.total;
      individual_power = power.individual;
      height = prop.start_height;
      is_first_vote = is_none (find id sender s.ballots);
    })
    ok (record s' { proposals = save_proposal s.proposals id p }, change_hooks ++ vote_hooks)

unfoldable pub execute_update_rationale :
    Addr → ℕ → Option String → State → Outcome ContractError (State × List SubMsg)
execute_update_rationale sender id rationale s = do
  ballot ← ok_or (find id sender s.ballots) (no_such_vote id sender)
  ok (record s { ballots = put id sender (record ballot { rationale = rationale }) s.ballots }, [])
