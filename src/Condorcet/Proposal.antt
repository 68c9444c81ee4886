-- ===== src/Condorcet/Proposal.antt =====
-- contracts/proposal/dao-proposal-condorcet/src/proposal.rs and config.rs: a proposal and its status.
use dao_contracts.Prelude.{
  ℕ, zero, suc, Bool, true, not, ◌&&◌, Option, none, some, List, [], ◌∷◌, if◌then◌else◌, Outcome,
  ok, panic, map_err, ◌>>=◌, ◌>>◌,
}
use dao_contracts.Cosmwasm.{
  Addr, StdError, CosmosMsg, BlockInfo, Duration, Expiration, CwUtils, after_period, sub128,
}
use dao_contracts.Voting.Threshold.{PercentageThreshold, ThresholdError, validate_quorum}
use dao_contracts.Voting.Votes.{does_vote_count_pass}
use dao_contracts.Voting.Veto.{VotingError, validate_voting_period}
use dao_contracts.Reply.{TagError, mask_proposal_execution_proposal_id}
use dao_contracts.Condorcet.Vote.{VoteError}
use dao_contracts.Condorcet.Tally.{Winner, Tally}

pub data ContractError : Type 0 where
  std : StdError → ContractError
  invalid_vote : VoteError → ContractError
  threshold : ThresholdError → ContractError
  voting : VotingError → ContractError
  tag : TagError → ContractError
  zero_voting_power unexecutable unclosable not_dao voted expired zero_choices : ContractError

-- `UncheckedConfig` has the same fields.
pub record Config : Type 0 where
  pub quorum : PercentageThreshold
  pub voting_period : Duration
  pub min_voting_period : Option Duration
  pub close_proposals_on_execution_failure : Bool

unfoldable pub into_checked : Config → Outcome ContractError Config
into_checked c = do
  map_err threshold (validate_quorum c.quorum)
  (min_voting_period, voting_period) ←
      map_err voting (validate_voting_period c.min_voting_period c.voting_period)
  ok (record c { voting_period = voting_period; min_voting_period = min_voting_period })

-- The messages of a choice
abbrev pub Choice : Type 0
Choice = List CosmosMsg

pub data Status : Type 0 where
  open_for_votes rejected : Status
  passed : (winner : ℕ) → Status
  executed closed execution_failed : Status

pub record Proposal : Type 0 where
  pub last_status : Status
  pub proposer : Addr
  pub quorum : PercentageThreshold
  pub min_voting_period : Option Expiration
  pub close_on_execution_failure : Bool
  pub total_power : ℕ
  pub id : ℕ
  pub choices : List Choice

-- The message to the DAO, with the id of its reply where a failure is reported
pub record SubMsg : Type 0 where
  pub to : Addr
  pub msgs : Choice
  pub reply_on_error : Option ℕ

module _ (cw : CwUtils) where
  unfoldable pub min_period_over : Option Expiration → BlockInfo → Bool
  min_period_over none block = true
  min_period_over (some min) block = cw.is_expired min block

  -- The status of an open proposal by its winner, after the minimum voting period
  unfoldable pub decide : (is_expired quorum : Bool) → Winner → Status
  decide is_expired quorum Winner.never = rejected
  decide is_expired quorum Winner.none = if is_expired then rejected else open_for_votes
  decide is_expired quorum (Winner.some winner) =
      if is_expired && quorum then passed winner else open_for_votes
  decide is_expired quorum (Winner.undisputed winner) =
      if quorum then passed winner else open_for_votes

  unfoldable pub open_status : {E : Type 0} → BlockInfo → Proposal → Tally → Outcome E Status
  unfolding min_period_over decide
  open_status block p t =
      if not (min_period_over p.min_voting_period block) then ok open_for_votes else (do
        let is_expired = cw.is_expired t.expiration block
        turnout ← sub128 p.total_power t.power_outstanding
        let quorum = does_vote_count_pass turnout p.total_power p.quorum
        ok (if is_expired && not quorum then rejected else decide is_expired quorum t.winner))

  unfoldable pub status_from :
      {E : Type 0} → Status → BlockInfo → Proposal → Tally → Outcome E Status
  unfolding open_status
  status_from open_for_votes block p t = open_status block p t
  status_from last block p t = ok last

  unfoldable pub status : {E : Type 0} → BlockInfo → Proposal → Tally → Outcome E Status
  unfolding status_from
  status block p t = status_from p.last_status block p t

  unfoldable pub update_status : {E : Type 0} → BlockInfo → Tally → Proposal → Outcome E Proposal
  update_status block t p = do s ← status block p t; ok (record p { last_status = s })

  unfoldable pub new :
      BlockInfo
      → Config
      → Addr
      → (id : ℕ) → List Choice
      → (total_power : ℕ) → Outcome StdError Proposal
  new block config proposer id choices total_power = do
    min_voting_period ← after_period cw config.min_voting_period block
    ok (record {
      last_status = open_for_votes;
      proposer = proposer;
      quorum = config.quorum;
      min_voting_period = min_voting_period;
      close_on_execution_failure = config.close_proposals_on_execution_failure;
      total_power = total_power;
      id = id;
      choices = choices;
    })

abbrev pub set_closed : Proposal → Proposal
set_closed p = record p { last_status = closed }

abbrev pub set_execution_failed : Proposal → Proposal
set_execution_failed p = record p { last_status = execution_failed }

-- `self.choices[winner]`, which panics out of range
unfoldable pub choice : {E : Type 0} → List Choice → ℕ → Outcome E Choice
choice [] i = panic
choice (c ∷ choices) zero = ok c
choice (c ∷ choices) (suc i) = choice choices i

unfoldable pub set_executed :
    {E : Type 0} → (dao : Addr) (winner : ℕ) → Proposal → Outcome E (Proposal × SubMsg)
unfolding choice
set_executed dao winner p = do
  msgs ← choice p.choices winner
  ok (
    record p { last_status = executed },
    record {
      to = dao;
      msgs = msgs;
      reply_on_error =
          if p.close_on_execution_failure
          then some (mask_proposal_execution_proposal_id p.id)
          else none;
    },
  )
