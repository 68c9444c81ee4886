-- ===== src/Single/Contract/Propose.antt =====
-- contracts/proposal/dao-proposal-single/src/contract.rs: creating a proposal.
use dao_contracts.Prelude.{
  ℕ, ◌+◌, String, Option, none, some, List, [], ◌++◌, ltb, not, if◌then◌else◌, Outcome, ok, err,
  panic, guard, ◌>>=◌, ◌>>◌,
}
use dao_contracts.Cosmwasm.{
  Addr, CosmosMsg, BlockInfo, Expiration, CwUtils, after_period, StdError, u64_mod,
}
use dao_contracts.Voting.Votes.{Vote, zero_votes}
use dao_contracts.Voting.Status.{open_for_votes}
use dao_contracts.Voting.Policy.{ProposalCreationPolicy, anyone, module_may, is_permitted}
use dao_contracts.Single.Proposal.{SingleChoiceProposal, update_status}
use dao_contracts.Single.State.{
  State, ContractError, std_or, Chain, unauthorized, invalid_proposer, inactive_dao,
  proposal_too_large,
}
use dao_contracts.Single.Messages.{SubMsg, new_proposal_hooks}
use dao_contracts.Single.Contract.Vote.{save_proposal, execute_vote}

pub record SingleChoiceAutoVote : Type 0 where
  pub vote : Vote
  pub rationale : Option String

pub record ProposeMsg : Type 0 where
  pub title : String
  pub description : String
  pub msgs : List CosmosMsg
  pub proposer : Option Addr
  pub vote : Option SingleChoiceAutoVote

abbrev pub max_proposal_size : ℕ
max_proposal_size = 30000

-- `next_proposal_id`, which panics at the end of `u64`
unfoldable pub next_proposal_id : State → Outcome StdError ℕ
next_proposal_id s = if ltb (s.proposal_count + 1) u64_mod then ok (s.proposal_count + 1) else panic

-- `advance_proposal_id`
unfoldable pub advance_proposal_id : State → Outcome StdError (ℕ × State)
unfolding next_proposal_id
advance_proposal_id s = do id ← next_proposal_id s; ok (id, record s { proposal_count = id })

module _ (cw : CwUtils) (chain : Chain) (block : BlockInfo) where
  -- Only a pre-propose module names a proposer, and it must.
  unfoldable pub proposer_of :
      Addr → Option Addr → ProposalCreationPolicy → Outcome ContractError Addr
  proposer_of sender none anyone = ok sender
  proposer_of sender (some proposer) (module_may addr) = std_or (chain.addr_validate proposer)
  proposer_of sender _ _ = err invalid_proposer

  unfoldable pub new_proposal :
      Addr → Expiration → Option Expiration → ℕ → ProposeMsg → State → SingleChoiceProposal
  new_proposal proposer expiration min_voting_period total_power msg s = record {
    title = msg.title;
    description = msg.description;
    proposer = proposer;
    start_height = block.height;
    min_voting_period = min_voting_period;
    expiration = expiration;
    threshold = s.config.threshold;
    total_power = total_power;
    msgs = msg.msgs;
    status = open_for_votes;
    votes = zero_votes;
    individual_votes = zero_votes;
    allow_revoting = s.config.allow_revoting;
    veto = s.config.veto;
    delegation_module = s.delegation_module;
  }

  -- The vote that the proposer may cast at once.
  unfoldable pub auto_vote :
      Option SingleChoiceAutoVote → Addr → ℕ → State → Outcome ContractError (State × List SubMsg)
  auto_vote none proposer id s = ok (s, [])
  auto_vote (some v) proposer id s = execute_vote cw chain block proposer id v.vote v.rationale s

  unfoldable pub execute_propose :
      Addr → ProposeMsg → State → Outcome ContractError (State × List SubMsg)
  unfolding new_proposal
  execute_propose sender msg s = do
    guard (is_permitted s.creation_policy sender) unauthorized
    proposer ← proposer_of sender msg.proposer s.creation_policy
    active ← std_or (chain.is_active s.config.dao)
    guard active inactive_dao
    expiration ← std_or (cw.after s.config.max_voting_period block)
    total_power ← std_or (chain.total_power s.config.dao block.height)
    min_voting_period ← std_or (after_period cw s.config.min_voting_period block)
    p ← std_or (
        update_status cw (new_proposal proposer expiration min_voting_period total_power msg s)
          block)
    (id, s') ← std_or (advance_proposal_id s)
    size ← std_or (chain.proposal_size p)
    guard (not (ltb max_proposal_size size)) (proposal_too_large size)
    let hooks = new_proposal_hooks s.proposal_hooks id proposer
    (s'', vote_hooks) ←
        auto_vote msg.vote proposer id (record s' { proposals = save_proposal s'.proposals id p })
    ok (s'', hooks ++ vote_hooks)
