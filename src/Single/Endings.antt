-- ===== src/Single/Endings.antt =====
-- The theorems on the end of proposals at concrete inputs.
use dao_contracts.Prelude.{List, ◌∷◌, ℕ, ◌≡◌, refl, none, some, [], arith, ok}
use dao_contracts.Voting.Votes.{Vote, zero_votes, get, does_vote_count_pass, does_vote_count_fail}
use dao_contracts.Voting.Status.{open_for_votes, passed, rejected, executed, closed, vetoed}
use dao_contracts.Voting.Veto.{check_is_vetoer, check_veto_before_passed_enabled}
use dao_contracts.Voting.Policy.{is_permitted}
use dao_contracts.Single.Proposal.{
  SingleChoiceProposal, update_status, current_status, is_passed, tally_passes, votes_to_consider,
  is_rejected, tally_fails,
}
use dao_contracts.Single.State.{State}
use dao_contracts.Single.Ballots.{tally}
use dao_contracts.Reply.{mask_proposal_execution_proposal_id}
use dao_contracts.Single.Messages.{
  SubMsg, ReplyOn, execute_proposal_hook, proposal_status_changed_hooks, proposal_completed_hooks,
  new_proposal_hooks,
}
use dao_contracts.Single.Contract.{ExecuteMsg, execute}
use dao_contracts.Single.Contract.Vote.{save_proposal}
use dao_contracts.Single.Contract.Propose.{
  execute_propose, proposer_of, advance_proposal_id, auto_vote,
}
use dao_contracts.Single.Contract.Admin.{execute_update_config}
use dao_contracts.Single.Contract.Finish.{finish, execute_veto, execute_close, execute_execute}
use dao_contracts.Single.Proposal.Reasons.{IsRejected}
use dao_contracts.Single.Ended.{
  Ended, Sends, Executable, VetoableNow, execute_execute-Ended, execute_veto-Ended,
  execute_close-Ended,
}
use dao_contracts.Single.Final.Execute.{execute-keeps_final}
use dao_contracts.Single.Privileged.{ByDao, privileged-ByDao}
use dao_contracts.Single.Tallied.{IsTallied, votes_of, individual_votes_of}
use dao_contracts.Single.Samples.{
  utils, chain, block_at, start, with_proposal, vetoable, winning, losing, ended, proposal, half,
}

abbrev paying : SingleChoiceProposal
paying = record winning { msgs = "pay" ∷ [] }

-- What the DAO is sent, and whose failure is answered
abbrev payment : List SubMsg
payment =
    record {
      to = some 9;
      payload = execute_proposal_hook ("pay" ∷ []);
      reply_on = ReplyOn.error (mask_proposal_execution_proposal_id 1);
    }
    ∷ []

paying-executed :
    execute_execute utils (block_at 10) chain 2 1 (with_proposal paying)
    ≡ ok ((finish 1 (record paying { status = passed }) executed (with_proposal paying)).0, payment)
unfolding execute_execute update_status current_status is_passed tally_passes votes_to_consider
    does_vote_count_pass proposal_status_changed_hooks proposal_completed_hooks
paying-executed = refl

execute_execute-Ended_example :
    (before : SingleChoiceProposal) × Ended 1 executed
      (with_proposal paying)
      (finish 1 (record paying { status = passed }) executed (with_proposal paying)).0
      before
    × Sends start.config before.msgs payment
    × Executable utils (block_at 10) chain start.config 2 before
execute_execute-Ended_example =
    execute_execute-Ended utils (block_at 10) 2 1 (with_proposal paying) _ chain paying-executed

abbrev guarded : SingleChoiceProposal
guarded = record losing { votes = zero_votes; individual_votes = zero_votes; veto = some vetoable }

open-vetoed :
    execute_veto utils (block_at 10) 4 1 (with_proposal guarded)
    ≡ ok ((finish 1 guarded vetoed (with_proposal guarded)).0, [])
unfolding execute_veto update_status current_status is_passed tally_passes votes_to_consider
    does_vote_count_pass is_rejected tally_fails does_vote_count_fail check_is_vetoer
    check_veto_before_passed_enabled proposal_status_changed_hooks proposal_completed_hooks
open-vetoed = refl

execute_veto-Ended_example :
    (before : SingleChoiceProposal) × Ended 1 vetoed
      (with_proposal guarded)
      (finish 1 guarded vetoed (with_proposal guarded)).0
      before
    × VetoableNow utils (block_at 10) 4 before
execute_veto-Ended_example =
    execute_veto-Ended utils (block_at 10) 4 1 (with_proposal guarded) _ open-vetoed

losing-closed :
    execute_close utils (block_at 10) 2 1 (with_proposal losing)
    ≡ ok ((finish 1 (record losing { status = rejected }) closed (with_proposal losing)).0, [])
unfolding execute_close update_status current_status is_passed tally_passes votes_to_consider
    does_vote_count_pass is_rejected tally_fails does_vote_count_fail proposal_status_changed_hooks
    proposal_completed_hooks
losing-closed = refl

execute_close-Ended_example :
    (before : SingleChoiceProposal) × Ended 1 closed
      (with_proposal losing)
      (finish 1 (record losing { status = rejected }) closed (with_proposal losing)).0
      before
    × IsRejected utils (block_at 10) before
execute_close-Ended_example =
    execute_close-Ended utils (block_at 10) 2 1 (with_proposal losing) _ losing-closed

abbrev ended_state : State
ended_state = with_proposal ended

ended_no_votes :
    (j : ℕ) (o : Vote)
    → (get (votes_of (ended_state.proposals j)) o ≡ 0)
      × (get (individual_votes_of (ended_state.proposals j)) o ≡ 0)
unfolding get
ended_no_votes j Vote.yes = ground arith
ended_no_votes j Vote.no = ground arith
ended_no_votes j Vote.abstain = ground arith

ended_state-IsTallied : IsTallied ended_state
unfolding tally
ended_state-IsTallied = record {
  votes = λ j o. (ended_no_votes j o).0;
  individual_votes = λ j o. (ended_no_votes j o).1;
  fresh = λ j p. ground arith;
}

abbrev after_second : State
after_second = record ended_state {
  proposal_count = 2;
  proposals = save_proposal ended_state.proposals 2 (proposal half zero_votes open_for_votes);
}

second-proposed :
    execute utils chain
      (block_at 5)
      1
      (ExecuteMsg.propose (record {
        title = "raise";
        description = "pay more";
        msgs = [];
        proposer = none;
        vote = none;
      }))
      ended_state
    ≡ ok (after_second, [])
unfolding execute execute_propose is_permitted proposer_of update_status current_status is_passed
    tally_passes votes_to_consider does_vote_count_pass is_rejected tally_fails does_vote_count_fail
    advance_proposal_id auto_vote new_proposal_hooks
second-proposed = refl

execute-keeps_final_example :
    (q : SingleChoiceProposal) × (after_second.proposals 1 ≡ some q) × (q.status ≡ executed)
execute-keeps_final_example =
    execute-keeps_final utils chain (block_at 5) 1
      (ExecuteMsg.propose (record {
        title = "raise";
        description = "pay more";
        msgs = [];
        proposer = none;
        vote = none;
      }))
      ended_state (after_second, []) 1 ended ended_state-IsTallied refl refl second-proposed

hook_added :
    execute utils chain (block_at 5) 9 (ExecuteMsg.add_vote_hook 6) start
    ≡ ok (record start { vote_hooks = some (6 ∷ []) }, [])
unfolding execute dao_contracts.Single.Contract.Admin.execute_add_vote_hook
    dao_contracts.Hooks.add_hook
hook_added = refl

privileged-ByDao_example : ByDao 9 start (record start { vote_hooks = some (6 ∷ []) })
privileged-ByDao_example =
    privileged-ByDao utils chain (block_at 5) 9 (ExecuteMsg.add_vote_hook 6) start _ refl hook_added
