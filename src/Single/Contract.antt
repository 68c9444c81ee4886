-- ===== src/Single/Contract.antt =====
-- contracts/proposal/dao-proposal-single/src/contract.rs: the entry points. The handlers and the
-- proofs are in the modules below.
pub mod Vote
pub mod Propose
pub mod Finish
pub mod Admin
use dao_contracts.Prelude.{
  ℕ, String, Option, none, some, List, [], Outcome, ok, err, map_err, ◌>>=◌,
}
use dao_contracts.Cosmwasm.{Addr, BlockInfo, CwUtils}
use dao_contracts.Voting.Votes
use dao_contracts.Voting.Policy.{ProposalCreationPolicy, anyone, module_may}
use dao_contracts.Reply.{
  tagged, failed_proposal_execution, failed_proposal_hook, failed_vote_hook,
  failed_pre_propose_module_hook, pre_propose_module_instantiation,
  failed_pre_propose_module_hook_id, TaggedReplyId,
}
use dao_contracts.Hooks.{remove_hook_by_index}
use dao_contracts.Single.State.{
  State, ContractError, Chain, std_or, tag, hook_error, invalid_reply_id,
}
use dao_contracts.Single.Messages.{SubMsg, PreProposeInfo}
use Vote.{execute_vote, execute_update_rationale}
use Propose.{ProposeMsg, execute_propose}
use Finish.{execute_veto, execute_close, execute_execute, reply_failed_execution}
use Admin.{
  Settings, execute_update_config, execute_update_proposal_creation_policy,
  execute_update_delegation_module, execute_add_proposal_hook, execute_remove_proposal_hook,
  execute_add_vote_hook, execute_remove_vote_hook,
}

pub data ExecuteMsg : Type 0 where
  propose : ProposeMsg → ExecuteMsg
  vote : ℕ → Votes.Vote → Option String → ExecuteMsg
  update_rationale : ℕ → Option String → ExecuteMsg
  execute_proposal close veto : ℕ → ExecuteMsg
  update_config : Settings → Addr → ExecuteMsg
  update_pre_propose_info : PreProposeInfo → ExecuteMsg
  update_delegation_module : Addr → ExecuteMsg
  add_proposal_hook remove_proposal_hook add_vote_hook remove_vote_hook : Addr → ExecuteMsg

-- The case of `reply` for a pre-propose module that failed: from then on anyone may propose.
unfoldable pub drop_module :
    ProposalCreationPolicy → State → Outcome ContractError (State × List SubMsg)
drop_module anyone s = err (invalid_reply_id failed_pre_propose_module_hook_id)
drop_module (module_may addr) s = ok (record s { creation_policy = anyone }, [])

module _ (cw : CwUtils) (chain : Chain) (block : BlockInfo) where
  unfoldable pub execute : Addr → ExecuteMsg → State → Outcome ContractError (State × List SubMsg)
  execute sender (propose msg) = execute_propose cw chain block sender msg
  execute sender (vote id v rationale) = execute_vote cw chain block sender id v rationale
  execute sender (update_rationale id rationale) = execute_update_rationale sender id rationale
  execute sender (execute_proposal id) = execute_execute cw block chain sender id
  execute sender (close id) = execute_close cw block sender id
  execute sender (veto id) = execute_veto cw block sender id
  execute sender (update_config m dao) = execute_update_config chain sender m dao
  execute sender (update_pre_propose_info i) =
      execute_update_proposal_creation_policy chain sender i
  execute sender (update_delegation_module a) = execute_update_delegation_module chain sender a
  execute sender (add_proposal_hook a) = execute_add_proposal_hook chain sender a
  execute sender (remove_proposal_hook a) = execute_remove_proposal_hook chain sender a
  execute sender (add_vote_hook a) = execute_add_vote_hook chain sender a
  execute sender (remove_vote_hook a) = execute_remove_vote_hook chain sender a

  -- `reply` by its tag; `instantiated` is the address in the reply to an instantiation.
  unfoldable pub reply_tagged :
      Addr → TaggedReplyId → State → Outcome ContractError (State × List SubMsg)
  reply_tagged instantiated (failed_proposal_execution id) s = reply_failed_execution id s
  reply_tagged instantiated (failed_proposal_hook index) s = do
    (removed, hooks) ← map_err hook_error (remove_hook_by_index s.proposal_hooks index)
    ok (record s { proposal_hooks = hooks }, [])
  reply_tagged instantiated (failed_vote_hook index) s = do
    (removed, hooks) ← map_err hook_error (remove_hook_by_index s.vote_hooks index)
    ok (record s { vote_hooks = hooks }, [])
  reply_tagged instantiated pre_propose_module_instantiation s = do
    a ← std_or (chain.addr_validate instantiated)
    ok (record s { creation_policy = module_may a }, [])
  reply_tagged instantiated failed_pre_propose_module_hook s = drop_module s.creation_policy s

  unfoldable pub reply : ℕ → Addr → State → Outcome ContractError (State × List SubMsg)
  unfolding reply_tagged
  reply id instantiated s = do
    tagged_id ← map_err tag (tagged id)
    reply_tagged instantiated tagged_id s
