-- ===== src/Single/Contract/Finish.antt =====
-- contracts/proposal/dao-proposal-single/src/contract.rs: what ends a proposal, by a veto, an
-- execution, a closure or a failed execution.
use dao_contracts.Prelude.{
  ℕ, Bool, true, not, some, List, [], ◌∷◌, ◌++◌, ◌==◌, if◌then◌else◌, Outcome, ok, err, guard,
  ok_or, ◌>>=◌, ◌>>◌,
}
use dao_contracts.Cosmwasm.{Addr, CosmosMsg, BlockInfo, CwUtils, not_found}
use dao_contracts.Voting.Status.{
  Status, open_for_votes, rejected, passed, executed, closed, execution_failed, vetoed,
  veto_timelock,
}
use dao_contracts.Voting.Veto.{
  VetoConfig, VetoError, check_early_execute_enabled, check_is_vetoer,
  check_veto_before_passed_enabled, invalid_proposal_status, no_veto_configuration, timelocked,
  timelock_expired,
}
use dao_contracts.Reply.{mask_proposal_execution_proposal_id}
use dao_contracts.Single.Proposal.{SingleChoiceProposal, update_status}
use dao_contracts.Single.State.{
  Config, State, ContractError, std, std_or, veto_error, veto_or, Chain, no_such_proposal,
  unauthorized, not_passed, wrong_close_status,
}
use dao_contracts.Single.Messages.{
  SubMsg, ReplyOn, execute_proposal_hook, proposal_status_changed_hooks, proposal_completed_hooks,
}
use dao_contracts.Single.Contract.Vote.{save_proposal}

-- The end of each of these handlers: the proposal is saved, and the hooks and the pre-propose module
-- are told.
unfoldable pub finish : ℕ → SingleChoiceProposal → Status → State → State × List SubMsg
finish id p new_status s = (
  record s { proposals = save_proposal s.proposals id (record p { status = new_status }) },
  proposal_status_changed_hooks s.proposal_hooks id p.status new_status
      ++ proposal_completed_hooks s.creation_policy id new_status,
)

module _ (cw : CwUtils) (block : BlockInfo) where
  -- The `match` of `execute_veto` on the status
  unfoldable pub check_vetoable : VetoConfig → Status → Outcome VetoError Unit
  check_vetoable c open_for_votes = check_veto_before_passed_enabled c
  check_vetoable c passed = err timelock_expired
  check_vetoable c (veto_timelock expiration) =
      if cw.is_expired expiration block then err timelock_expired else ok tt
  check_vetoable c status = err (invalid_proposal_status status)

  unfoldable pub execute_veto : Addr → ℕ → State → Outcome ContractError (State × List SubMsg)
  unfolding check_vetoable finish
  execute_veto sender id s = do
    prop ← ok_or (s.proposals id) (no_such_proposal id)
    p ← std_or (update_status cw prop block)
    c ← ok_or p.veto (veto_error no_veto_configuration)
    veto_or (check_is_vetoer c sender)
    veto_or (check_vetoable c p.status)
    ok (finish id p vetoed s)

  unfoldable pub execute_close : Addr → ℕ → State → Outcome ContractError (State × List SubMsg)
  unfolding finish
  execute_close sender id s = do
    prop ← ok_or (s.proposals id) (std not_found)
    p ← std_or (update_status cw prop block)
    elim p.status [ rejected ↦ ok (finish id p closed s) | _ ↦ err wrong_close_status ]

  module _ (chain : Chain) where
    -- Whether the sender may execute a passed proposal
    unfoldable pub can_execute : Config → Addr → SingleChoiceProposal → Outcome ContractError Bool
    can_execute config sender p =
        if config.only_members_execute
        then (do
          power ← std_or (chain.voting_power config.dao sender p.start_height)
          ok (not (power == 0)))
        else ok true

    -- The `match` of `execute_execute` on the status
    unfoldable pub check_executable :
        Bool → Addr → SingleChoiceProposal → Status → Outcome ContractError Unit
    check_executable sender_can_execute sender p passed = guard sender_can_execute unauthorized
    check_executable sender_can_execute sender p (veto_timelock _) = do
      c ← ok_or p.veto (veto_error no_veto_configuration)
      if not (c.vetoer == sender)
          then err (if sender_can_execute then veto_error timelocked else unauthorized)
          else veto_or (check_early_execute_enabled c)
    check_executable sender_can_execute sender p _ = err not_passed

    -- The messages of the proposal, sent through the DAO
    unfoldable pub execution_messages : ℕ → List CosmosMsg → Config → List SubMsg
    execution_messages id [] config = []
    execution_messages id (m ∷ msgs) config =
        (record {
          to = some config.dao;
          payload = execute_proposal_hook (m ∷ msgs);
          reply_on =
              if config.close_proposal_on_execution_failure
              then ReplyOn.error (mask_proposal_execution_proposal_id id)
              else ReplyOn.never;
        })
        ∷ []

    unfoldable pub execute_execute : Addr → ℕ → State → Outcome ContractError (State × List SubMsg)
    unfolding can_execute check_executable execution_messages finish
    execute_execute sender id s = do
      prop ← ok_or (s.proposals id) (no_such_proposal id)
      sender_can_execute ← can_execute s.config sender prop
      p ← std_or (update_status cw prop block)
      check_executable sender_can_execute sender p p.status
      let (s', hooks) = finish id p executed s
      ok (s', execution_messages id p.msgs s.config ++ hooks)

-- The `FailedProposalExecution` case of `reply`
unfoldable pub reply_failed_execution : ℕ → State → Outcome ContractError (State × List SubMsg)
reply_failed_execution id s = do
  p ← ok_or (s.proposals id) (no_such_proposal id)
  ok (
    record s { proposals = save_proposal s.proposals id (record p { status = execution_failed }) },
    [],
  )
