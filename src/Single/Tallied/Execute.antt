-- ===== src/Single/Tallied/Execute.antt =====
-- The entry points keep the invariant.
use dao_contracts.Prelude.{ℕ, ◌≡◌, refl, List, ok, map_err, >>=-eq-ok}
use dao_contracts.Cosmwasm.{Addr, BlockInfo, CwUtils}
use dao_contracts.Voting.Policy.{ProposalCreationPolicy, anyone, module_may}
use dao_contracts.Hooks.{remove_hook_by_index}
use dao_contracts.Reply.{
  TaggedReplyId, tagged, failed_proposal_execution, failed_proposal_hook, failed_vote_hook,
  failed_pre_propose_module_hook, pre_propose_module_instantiation,
}
use dao_contracts.Single.State.{State, Chain, std_or, tag, hook_error}
use dao_contracts.Single.Messages.{SubMsg}
use dao_contracts.Single.Contract.{
  ExecuteMsg, propose, vote, update_rationale, execute_proposal, close, veto, execute, drop_module,
  reply_tagged, reply,
}
use dao_contracts.Single.Finished.{
  execute_veto-Finished, execute_close-Finished, execute_execute-Finished,
}
use dao_contracts.Single.Privileged.{SameVotes, privileged-ByDao}
use dao_contracts.Single.Tallied.{IsTallied}
use dao_contracts.Single.Tallied.Voting.{execute_vote-IsTallied}
use dao_contracts.Single.Tallied.Steps.{
  Finished-IsTallied, returned-IsTallied, execute_update_rationale-IsTallied,
  reply_failed_execution-IsTallied, execute_propose-IsTallied,
}

SameVotes-IsTallied : (s t : State) → IsTallied s → SameVotes s t → IsTallied t
SameVotes-IsTallied s t inv same = record {
  votes = λ j o. rw (same.proposals, same.ballots) (inv.votes j o);
  individual_votes = λ j o. rw (same.proposals, same.ballots) (inv.individual_votes j o);
  fresh = λ j h. rw same.proposals (inv.fresh j (rw same.proposal_count at h));
}

-- Every message that is accepted keeps both tallies of every proposal equal to the sums of what its
-- ballots count.
pub execute-IsTallied :
    (cw : CwUtils) (chain : Chain) (block : BlockInfo) (sender : Addr) (msg : ExecuteMsg)
    (s : State) (r : State × List SubMsg)
    → IsTallied s
    → execute cw chain block sender msg s ≡ ok r
    → IsTallied r.0
unfolding execute
execute-IsTallied cw chain block sender (propose m) s r inv h =
    execute_propose-IsTallied cw chain block sender m s r inv h
execute-IsTallied cw chain block sender (vote id v rationale) s r inv h =
    execute_vote-IsTallied cw chain block sender id v rationale s r.0 r.1 inv h
execute-IsTallied cw chain block sender (update_rationale id rationale) s r inv h =
    execute_update_rationale-IsTallied sender id rationale s r inv h
execute-IsTallied cw chain block sender (execute_proposal id) s r inv h =
    Finished-IsTallied inv (execute_execute-Finished cw block sender id s r chain h)
execute-IsTallied cw chain block sender (close id) s r inv h =
    Finished-IsTallied inv (execute_close-Finished cw block sender id s r h)
execute-IsTallied cw chain block sender (veto id) s r inv h =
    Finished-IsTallied inv (execute_veto-Finished cw block sender id s r h)
execute-IsTallied cw chain block sender msg s r inv h =
    SameVotes-IsTallied s r.0 inv (privileged-ByDao cw chain block sender msg s r refl h).1

drop_module-IsTallied :
    (policy : ProposalCreationPolicy) (s : State) (r : State × List SubMsg)
    → IsTallied s
    → drop_module policy s ≡ ok r
    → IsTallied r.0
unfolding drop_module
drop_module-IsTallied anyone s r inv h = cc
drop_module-IsTallied (module_may addr) s r inv h = returned-IsTallied h (
    SameVotes-IsTallied s _ inv
      (record { proposals = refl; ballots = refl; proposal_count = refl }))

reply_tagged-IsTallied :
    (cw : CwUtils) (chain : Chain) (block : BlockInfo) (instantiated : Addr) (id : TaggedReplyId)
    (s : State) (r : State × List SubMsg)
    → IsTallied s
    → reply_tagged cw chain block instantiated id s ≡ ok r
    → IsTallied r.0
unfolding reply_tagged
reply_tagged-IsTallied cw chain block a (failed_proposal_execution id) s r inv h =
    reply_failed_execution-IsTallied id s r inv h
reply_tagged-IsTallied cw chain block a (failed_proposal_hook index) s r inv h =
    let (x, _, e) =
      >>=-eq-ok (map_err hook_error (remove_hook_by_index s.proposal_hooks index)) _ h in
    returned-IsTallied e (
      SameVotes-IsTallied s _ inv
        (record { proposals = refl; ballots = refl; proposal_count = refl }))
reply_tagged-IsTallied cw chain block a (failed_vote_hook index) s r inv h =
    let (x, _, e) = >>=-eq-ok (map_err hook_error (remove_hook_by_index s.vote_hooks index)) _ h in
    returned-IsTallied e (
      SameVotes-IsTallied s _ inv
        (record { proposals = refl; ballots = refl; proposal_count = refl }))
reply_tagged-IsTallied cw chain block a pre_propose_module_instantiation s r inv h =
    let (x, _, e) = >>=-eq-ok (std_or (chain.addr_validate a)) _ h in
    returned-IsTallied e (
      SameVotes-IsTallied s _ inv
        (record { proposals = refl; ballots = refl; proposal_count = refl }))
reply_tagged-IsTallied cw chain block a failed_pre_propose_module_hook s r inv h =
    drop_module-IsTallied s.creation_policy s r inv h

-- A reply that is accepted keeps the tallies equal to the sums of the ballots.
pub reply-IsTallied :
    (cw : CwUtils) (chain : Chain) (block : BlockInfo) (id : ℕ) (instantiated : Addr) (s : State)
    (r : State × List SubMsg)
    → IsTallied s
    → reply cw chain block id instantiated s ≡ ok r
    → IsTallied r.0
unfolding reply
reply-IsTallied cw chain block id a s r inv h =
    let (t, _, h') = >>=-eq-ok (map_err tag (tagged id)) _ h in
    reply_tagged-IsTallied cw chain block a t s r inv h'
