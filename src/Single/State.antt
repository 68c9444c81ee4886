-- ===== src/Single/State.antt =====
-- contracts/proposal/dao-proposal-single/src/state.rs and error.rs, the ballot of
-- packages/dao-voting/src/proposal.rs, and the queries that the contract sends to other contracts.
use dao_contracts.Prelude.{ℕ, String, Bool, Option, List, Outcome, map_err}
use dao_contracts.Cosmwasm.{Addr, StdError, Duration}
use dao_contracts.Voting.Threshold.{Threshold, ThresholdError}
use dao_contracts.Voting.Votes.{Vote}
use dao_contracts.Voting.Veto.{VetoConfig, VetoError, VotingError}
use dao_contracts.Voting.Policy.{ProposalCreationPolicy}
use dao_contracts.Hooks.{Hooks, HookError}
use dao_contracts.Reply.{TagError}
use dao_contracts.Single.Proposal.{SingleChoiceProposal}

pub record Config : Type 0 where
  pub threshold : Threshold
  pub max_voting_period : Duration
  pub min_voting_period : Option Duration
  pub only_members_execute : Bool
  pub allow_revoting : Bool
  pub dao : Addr
  pub close_proposal_on_execution_failure : Bool
  pub veto : Option VetoConfig

pub record Ballot : Type 0 where
  pub power : ℕ
  pub individual_power : ℕ
  pub vote : Vote
  pub rationale : Option String

-- An entry of `BALLOTS`, whose key is the pair of the proposal and the voter.
pub record Cast : Type 0 where
  pub proposal_id : ℕ
  pub voter : Addr
  pub ballot : Ballot

pub record State : Type 0 where
  pub config : Config
  pub proposal_count : ℕ
  pub proposals : ℕ → Option SingleChoiceProposal
  pub ballots : List Cast
  pub proposal_hooks : Hooks
  pub vote_hooks : Hooks
  pub creation_policy : ProposalCreationPolicy
  pub delegation_module : Option Addr

pub data ContractError : Type 0 where
  std : StdError → ContractError
  hook_error : HookError → ContractError
  veto_error : VetoError → ContractError
  threshold_error : ThresholdError → ContractError
  voting_error : VotingError → ContractError
  tag : TagError → ContractError
  no_such_proposal expired : ℕ → ContractError
  no_such_vote : ℕ → Addr → ContractError
  proposal_too_large : ℕ → ContractError
  unauthorized invalid_proposer inactive_dao already_cast already_voted : ContractError
  not_registered not_passed wrong_close_status : ContractError
  invalid_reply_id : ℕ → ContractError

abbrev pub std_or : {A : Type 0} → Outcome StdError A → Outcome ContractError A
std_or = map_err std

abbrev pub veto_or : {A : Type 0} → Outcome VetoError A → Outcome ContractError A
veto_or = map_err veto_error

pub record DelegationResponse : Type 0 where
  pub delegate : Addr
  pub percent : ℕ
  pub active : Bool

-- What other contracts and the chain answer. `is_active` is the activity of the voting module, with
-- the default that the contract takes; a failed query of `unvoted_delegated_power` is `none`.
pub record Chain : Type 0 where
  pub contract : Addr
  pub addr_validate : Addr → Outcome StdError Addr
  pub is_active : Addr → Outcome StdError Bool
  pub voting_power : Addr → Addr → ℕ → Outcome StdError ℕ
  pub total_power : Addr → ℕ → Outcome StdError ℕ
  pub unvoted_delegated_power : Addr → Addr → ℕ → ℕ → Option ℕ
  pub delegations : Addr → Addr → ℕ → Outcome StdError (List DelegationResponse)
  pub power_reduction : Addr → ℕ → ℕ → Addr → ℕ → Outcome StdError ℕ
  pub proposal_size : SingleChoiceProposal → Outcome StdError ℕ
