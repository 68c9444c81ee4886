-- ===== src/Single/Tallied/Steps.antt =====
-- Every other operation keeps the invariant.
use dao_contracts.Prelude.{
  ℕ, ◌+◌, ◌≡◌, refl, sym, ap, Option, none, some, List, arith, Outcome, ok, ok_or, >>=-eq-ok,
  guard-eq-ok, map_err-eq-ok, ok_or-eq-ok, ok-injective, String,
}
use mathlib.Core.Path.{subst}
use dao_contracts.Cosmwasm.{Addr, BlockInfo, CwUtils, after_period}
use dao_contracts.Voting.Votes.{zero_votes}
use dao_contracts.Voting.Status.{Status, execution_failed}
use dao_contracts.Single.Proposal.{SingleChoiceProposal, update_status}
use dao_contracts.Single.Proposal.Update.{update_status-sets}
use dao_contracts.Single.State.{Ballot, State, ContractError, Chain, std, std_or, no_such_proposal}
use dao_contracts.Single.Messages.{SubMsg}
use dao_contracts.Single.Ballots.{find, tally-put}
use dao_contracts.Single.Contract.Vote.{save_proposal, execute_update_rationale}
use dao_contracts.Single.Contract.Propose.{
  ProposeMsg, SingleChoiceAutoVote, new_proposal, next_proposal_id, advance_proposal_id,
  proposer_of, auto_vote, execute_propose,
}
use dao_contracts.Single.Contract.Finish.{finish, reply_failed_execution}
use dao_contracts.Single.Finished.{Finished}
use dao_contracts.Single.Tallied.{IsTallied, power_of, individual_of}
use dao_contracts.Single.Tallied.Voting.{Counted-refl, save-IsTallied, execute_vote-IsTallied}

-- A saved proposal whose tallies are as they were.
resave-IsTallied :
    (id : ℕ) (prop p : SingleChoiceProposal) (s : State)
    → IsTallied s
    → s.proposals id ≡ some prop
    → p.votes ≡ prop.votes
    → p.individual_votes ≡ prop.individual_votes
    → IsTallied (record s { proposals = save_proposal s.proposals id p })
resave-IsTallied id prop p s inv known v i =
    save-IsTallied id prop prop p s s inv known (Counted-refl id prop s) refl v i

pub Finished-IsTallied :
    {cw : CwUtils} {block : BlockInfo} {id : ℕ} {st : Status} {s s' : State}
    {Allowed : SingleChoiceProposal → Type 0}
    → IsTallied s
    → Finished cw block id st s s' Allowed
    → IsTallied s'
unfolding finish
Finished-IsTallied {cw} {block} {id} {st} {s} inv f =
    let sets = update_status-sets cw f.before f.current block f.updated in
    subst IsTallied (sym f.result) (
      resave-IsTallied id f.before (record (f.current) { status = st }) s inv f.known
        (sym (ap (λ (q : SingleChoiceProposal). q.votes) sets))
        (sym (ap (λ (q : SingleChoiceProposal). q.individual_votes) sets)))

-- What a handler that returned `r` leaves
pub returned-IsTallied :
    {r r' : State × List SubMsg}
    → ◌≡◌ {A = Outcome ContractError (State × List SubMsg)} (ok r) (ok r')
    → IsTallied r.0
    → IsTallied r'.0
returned-IsTallied e inv =
    subst IsTallied (ap (λ (x : State × List SubMsg). x.0) (ok-injective e)) inv

-- A new rationale leaves what a ballot counts.
pub execute_update_rationale-IsTallied :
    (sender : Addr) (id : ℕ) (rationale : Option String) (s : State) (r : State × List SubMsg)
    → IsTallied s
    → execute_update_rationale sender id rationale s ≡ ok r
    → IsTallied r.0
unfolding execute_update_rationale
execute_update_rationale-IsTallied sender id rationale s r inv h =
    let (b, found, e) = >>=-eq-ok (ok_or (find id sender s.ballots) _) _ h in
    let known = ok_or-eq-ok _ _ found in
    let new : Ballot = record b { rationale = rationale } in
    returned-IsTallied e (record {
      votes = λ j o. ground (arith, inv.votes j o, tally-put power_of id j o sender new s.ballots);
      individual_votes = λ j o.
          ground
            (arith, inv.individual_votes j o, tally-put individual_of id j o sender new s.ballots);
      fresh = inv.fresh;
    })

-- A failed execution changes a status alone.
pub reply_failed_execution-IsTallied :
    (id : ℕ) (s : State) (r : State × List SubMsg)
    → IsTallied s
    → reply_failed_execution id s ≡ ok r
    → IsTallied r.0
unfolding reply_failed_execution
reply_failed_execution-IsTallied id s r inv h =
    let (p, known, e) = >>=-eq-ok (ok_or (s.proposals id) (no_such_proposal id)) _ h in
    returned-IsTallied e (
      resave-IsTallied id p (record p { status = execution_failed }) s inv (ok_or-eq-ok _ _ known)
        refl refl)

-- A new proposal has no votes, and no ballots.
new_proposal-IsTallied :
    (p : SingleChoiceProposal) (id : ℕ) (s : State)
    → IsTallied s
    → s.proposal_count + 1 ≡ id
    → p.votes ≡ zero_votes
    → p.individual_votes ≡ zero_votes
    → IsTallied (record s { proposal_count = id; proposals = save_proposal s.proposals id p })
new_proposal-IsTallied p id s inv e v i = record {
  votes = λ j o. ground (arith, inv.votes j o, inv.fresh j);
  individual_votes = λ j o. ground (arith, inv.individual_votes j o, inv.fresh j);
  fresh = λ j h. ground (arith, inv.fresh j);
}

module _ (cw : CwUtils) (chain : Chain) (block : BlockInfo) where
  auto_vote-IsTallied :
      (v : Option SingleChoiceAutoVote) (proposer : Addr) (id : ℕ) (s : State)
      (r : State × List SubMsg)
      → IsTallied s
      → auto_vote cw chain block v proposer id s ≡ ok r
      → IsTallied r.0
  unfolding auto_vote
  auto_vote-IsTallied none proposer id s r inv h = returned-IsTallied h inv
  auto_vote-IsTallied (some v) proposer id s r inv h =
      execute_vote-IsTallied cw chain block proposer id v.vote v.rationale s r.0 r.1 inv h

  pub advance-count :
      (s : State) (r : ℕ × State)
      → advance_proposal_id s ≡ ok r
      → (s.proposal_count + 1 ≡ r.0) × (r.1 ≡ record s { proposal_count = r.0 })
  unfolding advance_proposal_id next_proposal_id
  advance-count s r h =
      let (id, next, e) = >>=-eq-ok (next_proposal_id s) _ h in
      let count : s.proposal_count + 1 ≡ id = ground arith in
      subst
        (λ (x : ℕ × State).
          (s.proposal_count + 1 ≡ x.0) × (x.1 ≡ record s { proposal_count = x.0 }))
        (ok-injective e) (count, refl)

  -- Creating a proposal keeps the invariant, also with the proposer's vote.
  pub execute_propose-IsTallied :
      (sender : Addr) (msg : ProposeMsg) (s : State) (r : State × List SubMsg)
      → IsTallied s
      → execute_propose cw chain block sender msg s ≡ ok r
      → IsTallied r.0
  unfolding execute_propose
  execute_propose-IsTallied sender msg s r inv h =
      let (_, h1) = guard-eq-ok _ _ _ h in
      let (proposer, _, h2) =
        >>=-eq-ok (proposer_of cw chain block sender msg.proposer s.creation_policy) _ h1 in
      let (active, _, h3) = >>=-eq-ok (std_or (chain.is_active s.config.dao)) _ h2 in
      let (_, h4) = guard-eq-ok _ _ _ h3 in
      let (end, _, h5) = >>=-eq-ok (std_or (cw.after s.config.max_voting_period block)) _ h4 in
      let (power, _, h6) = >>=-eq-ok (std_or (chain.total_power s.config.dao block.height)) _ h5 in
      let (least, _, h7) =
        >>=-eq-ok (std_or (after_period cw s.config.min_voting_period block)) _ h6 in
      let new = new_proposal cw chain block proposer end least power msg s in
      let (p, up, h8) = >>=-eq-ok (std_or (update_status cw new block)) _ h7 in
      let (next, advanced, h9) = >>=-eq-ok (std_or (advance_proposal_id s)) _ h8 in
      let (size, _, h10) = >>=-eq-ok (std_or (chain.proposal_size p)) _ h9 in
      let (_, h11) = guard-eq-ok _ _ _ h10 in
      let (voted, auto, e) =
        >>=-eq-ok
          (auto_vote cw chain block msg.vote proposer next.0
            (record (next.1) { proposals = save_proposal (next.1).proposals next.0 p }))
          _ h11 in
      let sets = update_status-sets cw new p block (map_err-eq-ok std _ up) in
      let (count, state) = advance-count s next (map_err-eq-ok std _ advanced) in
      let saved =
        new_proposal-IsTallied p next.0 s inv count
          (sym (ap (λ (q : SingleChoiceProposal). q.votes) sets))
          (sym (ap (λ (q : SingleChoiceProposal). q.individual_votes) sets)) in
      let start : IsTallied
          (record (next.1) { proposals = save_proposal (next.1).proposals next.0 p }) =
        subst
          (λ (t : State). IsTallied (record t { proposals = save_proposal t.proposals next.0 p }))
          (sym state) saved in
      returned-IsTallied e (auto_vote-IsTallied msg.vote proposer next.0 _ voted start auto)
