-- ===== src/Single/Contract/Admin.antt =====
-- contracts/proposal/dao-proposal-single/src/contract.rs: what only the DAO may call, and the
-- instantiation.
use dao_contracts.Prelude.{
  Bool, Option, none, some, List, [], ◌==◌, Outcome, ok, guard, map_err, ◌>>=◌, ◌>>◌,
}
use dao_contracts.Cosmwasm.{Addr, Duration}
use dao_contracts.Voting.Threshold.{Threshold}
use dao_contracts.Voting.Threshold
use dao_contracts.Voting.Veto.{VetoConfig, validate_voting_period}
use dao_contracts.Voting.Veto
use dao_contracts.Hooks.{add_hook, remove_hook}
use dao_contracts.Single.State.{
  State, ContractError, std_or, veto_or, Chain, hook_error, threshold_error, voting_error,
  unauthorized,
}
use dao_contracts.Single.Messages.{SubMsg, PreProposeInfo, into_initial_policy_and_messages}

-- The arguments that `InstantiateMsg` and `ExecuteMsg::UpdateConfig` share
pub record Settings : Type 0 where
  pub threshold : Threshold
  pub max_voting_period : Duration
  pub min_voting_period : Option Duration
  pub only_members_execute : Bool
  pub allow_revoting : Bool
  pub close_proposal_on_execution_failure : Bool
  pub veto : Option VetoConfig

module _ (chain : Chain) where
  unfoldable pub validate_veto : Option VetoConfig → Duration → Outcome ContractError Unit
  validate_veto none max_voting_period = ok tt
  validate_veto (some c) max_voting_period =
      veto_or (Veto.validate chain.addr_validate c max_voting_period)

  unfoldable pub validate_module : Option Addr → Outcome ContractError (Option Addr)
  validate_module none = ok none
  validate_module (some a) = do v ← std_or (chain.addr_validate a); ok (some v)

  unfoldable pub instantiate :
      Addr → Settings → PreProposeInfo → Option Addr → Outcome ContractError (State × List SubMsg)
  unfolding validate_veto validate_module
  instantiate sender m pre_propose_info delegation = do
    map_err threshold_error (Threshold.validate m.threshold)
    (min_voting_period, max_voting_period) ←
        map_err voting_error (validate_voting_period m.min_voting_period m.max_voting_period)
    let (initial_policy, pre_propose_messages) = into_initial_policy_and_messages pre_propose_info
    validate_veto m.veto max_voting_period
    delegation_module ← validate_module delegation
    ok (
      record {
        config = record {
          threshold = m.threshold;
          max_voting_period = max_voting_period;
          min_voting_period = min_voting_period;
          only_members_execute = m.only_members_execute;
          allow_revoting = m.allow_revoting;
          dao = sender;
          close_proposal_on_execution_failure = m.close_proposal_on_execution_failure;
          veto = m.veto;
        };
        proposal_count = 0;
        proposals = λ id. none;
        ballots = [];
        proposal_hooks = none;
        vote_hooks = none;
        creation_policy = initial_policy;
        delegation_module = delegation_module;
      },
      pre_propose_messages,
    )

  unfoldable pub execute_update_config :
      Addr → Settings → Addr → State → Outcome ContractError (State × List SubMsg)
  unfolding validate_veto
  execute_update_config sender m dao s = do
    guard (sender == s.config.dao) unauthorized
    map_err threshold_error (Threshold.validate m.threshold)
    dao' ← std_or (chain.addr_validate dao)
    (min_voting_period, max_voting_period) ←
        map_err voting_error (validate_voting_period m.min_voting_period m.max_voting_period)
    validate_veto m.veto max_voting_period
    ok (
      record s {
        config = record {
          threshold = m.threshold;
          max_voting_period = max_voting_period;
          min_voting_period = min_voting_period;
          only_members_execute = m.only_members_execute;
          allow_revoting = m.allow_revoting;
          dao = dao';
          close_proposal_on_execution_failure = m.close_proposal_on_execution_failure;
          veto = m.veto;
        };
      },
      [],
    )

  unfoldable pub execute_update_proposal_creation_policy :
      Addr → PreProposeInfo → State → Outcome ContractError (State × List SubMsg)
  execute_update_proposal_creation_policy sender new_info s = do
    guard (s.config.dao == sender) unauthorized
    let (initial_policy, messages) = into_initial_policy_and_messages new_info
    ok (record s { creation_policy = initial_policy }, messages)

  unfoldable pub execute_update_delegation_module :
      Addr → Addr → State → Outcome ContractError (State × List SubMsg)
  execute_update_delegation_module sender delegation s = do
    guard (s.config.dao == sender) unauthorized
    a ← std_or (chain.addr_validate delegation)
    ok (record s { delegation_module = some a }, [])

  unfoldable pub execute_add_proposal_hook :
      Addr → Addr → State → Outcome ContractError (State × List SubMsg)
  execute_add_proposal_hook sender address s = do
    guard (s.config.dao == sender) unauthorized
    a ← std_or (chain.addr_validate address)
    hooks ← map_err hook_error (add_hook s.proposal_hooks a)
    ok (record s { proposal_hooks = hooks }, [])

  unfoldable pub execute_remove_proposal_hook :
      Addr → Addr → State → Outcome ContractError (State × List SubMsg)
  execute_remove_proposal_hook sender address s = do
    guard (s.config.dao == sender) unauthorized
    a ← std_or (chain.addr_validate address)
    hooks ← map_err hook_error (remove_hook s.proposal_hooks a)
    ok (record s { proposal_hooks = hooks }, [])

  unfoldable pub execute_add_vote_hook :
      Addr → Addr → State → Outcome ContractError (State × List SubMsg)
  execute_add_vote_hook sender address s = do
    guard (s.config.dao == sender) unauthorized
    a ← std_or (chain.addr_validate address)
    hooks ← map_err hook_error (add_hook s.vote_hooks a)
    ok (record s { vote_hooks = hooks }, [])

  unfoldable pub execute_remove_vote_hook :
      Addr → Addr → State → Outcome ContractError (State × List SubMsg)
  execute_remove_vote_hook sender address s = do
    guard (s.config.dao == sender) unauthorized
    a ← std_or (chain.addr_validate address)
    hooks ← map_err hook_error (remove_hook s.vote_hooks a)
    ok (record s { vote_hooks = hooks }, [])
