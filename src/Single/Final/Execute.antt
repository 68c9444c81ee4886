-- ===== src/Single/Final/Execute.antt =====
-- Finality at the entry points.
use dao_contracts.Prelude.{
  ℕ, ◌+◌, ◌≡◌, refl, ap, Bool, true, Option, none, some, List, String, arith, ok, ok_or, >>=-eq-ok,
  guard-eq-ok, map_err-eq-ok, ok-injective,
}
use mathlib.Core.Path.{subst}
use dao_contracts.Cosmwasm.{Addr, BlockInfo, CwUtils, after_period}
use dao_contracts.Voting.Status.{Status, rejected, passed, open_for_votes, veto_timelock}
use dao_contracts.Voting.Veto.{VetoConfig}
use dao_contracts.Single.Proposal.{SingleChoiceProposal, update_status}
use dao_contracts.Single.State.{State, Chain, std_or}
use dao_contracts.Single.Messages.{SubMsg}
use dao_contracts.Single.Ballots.{find}
use dao_contracts.Single.Contract.Vote.{save_proposal, execute_update_rationale}
use dao_contracts.Single.Contract.Propose.{
  ProposeMsg, SingleChoiceAutoVote, new_proposal, advance_proposal_id, proposer_of, auto_vote,
  execute_propose,
}
use dao_contracts.Single.Contract.{
  ExecuteMsg, propose, vote, update_rationale, execute_proposal, close, veto, execute,
}
use dao_contracts.Single.Finished.{
  StatusVetoable, StatusExecutable, execute_veto-Finished, execute_close-Finished,
  execute_execute-Finished,
}
use dao_contracts.Single.Privileged.{privileged-ByDao}
use dao_contracts.Single.Tallied.{IsTallied}
use dao_contracts.Single.Tallied.Steps.{advance-count}
use dao_contracts.Single.Final.{is_final, Kept, execute_vote-Kept, Finished-Kept}

vetoable-not-final :
    (cw : CwUtils) (block : BlockInfo) (c : VetoConfig) (st : Status)
    → StatusVetoable cw block c st
    → is_final st ≡ true
    → ⊥
vetoable-not-final cw block c open_for_votes v f = cc
vetoable-not-final cw block c (veto_timelock e) v f = cc
vetoable-not-final cw block c _ v f = v

executable-not-final :
    (can : Bool) (sender : Addr) (v : Option VetoConfig) (st : Status)
    → StatusExecutable can sender v st
    → is_final st ≡ true
    → ⊥
executable-not-final can sender v passed e f = cc
executable-not-final can sender v (veto_timelock t) e f = cc
executable-not-final can sender v _ e f = e

rejected-not-final : (st : Status) → st ≡ rejected → is_final st ≡ true → ⊥
rejected-not-final st e f = cc

-- A new proposal takes no stored proposal's place.
still_stored :
    (next : ℕ × State) (q : SingleChoiceProposal) (s : State) (id : ℕ) (p : SingleChoiceProposal)
    → IsTallied s
    → s.proposal_count + 1 ≡ next.0
    → next.1 ≡ record s { proposal_count = next.0 }
    → s.proposals id ≡ some p
    → save_proposal (next.1).proposals next.0 q id ≡ some p
still_stored next q s id p inv count state here =
    rw (ap (λ (t : State). t.proposals) state) (ground (arith, inv.fresh id))

module _ (cw : CwUtils) (chain : Chain) (block : BlockInfo) where
  auto_vote-Kept :
      (v : Option SingleChoiceAutoVote) (proposer : Addr) (j : ℕ) (s : State)
      (r : State × List SubMsg) (id : ℕ) (p : SingleChoiceProposal)
      → auto_vote cw chain block v proposer j s ≡ ok r
      → s.proposals id ≡ some p
      → is_final p.status ≡ true
      → Kept r.0 id p
  unfolding auto_vote
  auto_vote-Kept none proposer j s r id p h here final =
      subst (λ (x : State × List SubMsg). Kept x.0 id p) (ok-injective h) (p, here, refl)
  auto_vote-Kept (some v) proposer j s r id p h here final =
      execute_vote-Kept cw chain block proposer j v.vote v.rationale s r id p h here final

  propose-Kept :
      (sender : Addr) (msg : ProposeMsg) (s : State) (r : State × List SubMsg) (id : ℕ)
      (p : SingleChoiceProposal)
      → IsTallied s
      → execute_propose cw chain block sender msg s ≡ ok r
      → s.proposals id ≡ some p
      → is_final p.status ≡ true
      → Kept r.0 id p
  unfolding execute_propose
  propose-Kept sender msg s r id p inv h here final =
      let (_, h1) = guard-eq-ok _ _ _ h in
      let (proposer, _, h2) =
        >>=-eq-ok (proposer_of cw chain block sender msg.proposer s.creation_policy) _ h1 in
      let (active, _, h3) = >>=-eq-ok (std_or (chain.is_active s.config.dao)) _ h2 in
      let (_, h4) = guard-eq-ok _ _ _ h3 in
      let (end, _, h5) = >>=-eq-ok (std_or (cw.after s.config.max_voting_period block)) _ h4 in
      let (power, _, h6) = >>=-eq-ok (std_or (chain.total_power s.config.dao block.height)) _ h5 in
      let (least, _, h7) =
        >>=-eq-ok (std_or (after_period cw s.config.min_voting_period block)) _ h6 in
      let new = new_proposal cw chain block proposer end least power msg s in
      let (q, _, h8) = >>=-eq-ok (std_or (update_status cw new block)) _ h7 in
      let (next, advanced, h9) = >>=-eq-ok (std_or (advance_proposal_id s)) _ h8 in
      let (size, _, h10) = >>=-eq-ok (std_or (chain.proposal_size q)) _ h9 in
      let (_, h11) = guard-eq-ok _ _ _ h10 in
      let saved : State = record (next.1) {
        proposals = save_proposal (next.1).proposals next.0 q;
      } in
      let (voted, auto, e) =
        >>=-eq-ok (auto_vote cw chain block msg.vote proposer next.0 saved) _ h11 in
      let (count, state) = advance-count cw chain block s next (map_err-eq-ok _ _ advanced) in
      let start = still_stored next q s id p inv count state here in
      subst (λ (x : State × List SubMsg). Kept x.0 id p) (ok-injective e)
        (auto_vote-Kept msg.vote proposer next.0 saved voted id p auto start final)

rationale-Kept :
    (sender : Addr) (j : ℕ) (rationale : Option String) (s : State) (r : State × List SubMsg)
    (id : ℕ) (p : SingleChoiceProposal)
    → execute_update_rationale sender j rationale s ≡ ok r
    → s.proposals id ≡ some p
    → Kept r.0 id p
unfolding execute_update_rationale
rationale-Kept sender j rationale s r id p h here =
    let (b, _, e) = >>=-eq-ok (ok_or (find j sender s.ballots) _) _ h in
    subst (λ (x : State × List SubMsg). Kept x.0 id p) (ok-injective e) (p, here, refl)

-- Whatever message is accepted, a proposal that was executed, closed or vetoed, or whose execution
-- failed, is still stored with that status.
pub execute-keeps_final :
    (cw : CwUtils) (chain : Chain) (block : BlockInfo) (sender : Addr) (msg : ExecuteMsg)
    (s : State) (r : State × List SubMsg) (id : ℕ) (p : SingleChoiceProposal)
    → IsTallied s
    → s.proposals id ≡ some p
    → is_final p.status ≡ true
    → execute cw chain block sender msg s ≡ ok r
    → (q : SingleChoiceProposal) × (r.0.proposals id ≡ some q) × (q.status ≡ p.status)
unfolding execute
execute-keeps_final cw chain block sender (propose m) s r id p inv here final h =
    propose-Kept cw chain block sender m s r id p inv h here final
execute-keeps_final cw chain block sender (vote j v rationale) s r id p inv here final h =
    execute_vote-Kept cw chain block sender j v rationale s r id p h here final
execute-keeps_final cw chain block sender (update_rationale j rationale) s r id p inv here final h =
    rationale-Kept sender j rationale s r id p h here
execute-keeps_final cw chain block sender (execute_proposal j) s r id p inv here final h =
    Finished-Kept id p (λ q a f. executable-not-final a.0 sender q.veto q.status a.2 f)
      (execute_execute-Finished cw block sender j s r chain h) here final
execute-keeps_final cw chain block sender (close j) s r id p inv here final h =
    Finished-Kept id p (λ q a f. rejected-not-final q.status a f)
      (execute_close-Finished cw block sender j s r h) here final
execute-keeps_final cw chain block sender (veto j) s r id p inv here final h =
    Finished-Kept id p (λ q a f. vetoable-not-final cw block a.0 q.status a.3 f)
      (execute_veto-Finished cw block sender j s r h) here final
execute-keeps_final cw chain block sender msg s r id p inv here final h =
    let same = (privileged-ByDao cw chain block sender msg s r refl h).1 in
    (p, rw same.proposals here, refl)
