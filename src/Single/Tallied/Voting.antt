-- ===== src/Single/Tallied/Voting.antt =====
-- A vote keeps the invariant.
use dao_contracts.Prelude.{
  ℕ, ◌≡◌, ◌≢◌, refl, sym, ap, ok_or, Bool, true, false, Option, some, List, arith, String, ok,
  >>=-eq-ok, guard-eq-ok, map_err-eq-ok, ok_or-eq-ok, ok-injective,
}
use mathlib.Core.Path.{subst}
use dao_contracts.Cosmwasm.{Addr, BlockInfo, CwUtils}
use dao_contracts.Voting.Votes.{Vote, Votes, get, add_vote}
use dao_contracts.Voting.Votes.Tally.{add_vote_adds}
use dao_contracts.Single.Proposal.{SingleChoiceProposal, update_status}
use dao_contracts.Single.Proposal.Update.{update_status-sets}
use dao_contracts.Single.State.{Ballot, State, ContractError, Chain, std, std_or, no_such_proposal}
use dao_contracts.Single.Messages.{SubMsg}
use dao_contracts.Single.Ballots.{find, put, tally, tally-put, counted}
use dao_contracts.Single.Delegates.{
  Tallies, VotingPowerWithDelegation, get_voting_power_with_delegation,
}
use dao_contracts.Single.Contract.Vote.{
  retract, override_if_first, is_none, count_vote, execute_vote, save_proposal,
}
use dao_contracts.Single.Tallied.{IsTallied, Balanced, power_of, individual_of}
use dao_contracts.Single.Tallied.Retract.{Retracted, retract-Retracted}
use dao_contracts.Single.Tallied.Override.{Balanced-refl, override-Balanced}

module _ (cw : CwUtils) (chain : Chain) (block : BlockInfo) where
  override_if_first-Balanced :
      (first : Bool) (sender : Addr) (id : ℕ) (p : SingleChoiceProposal) (individual : ℕ)
      (t t' : Tallies)
      → override_if_first cw chain block first sender id p individual t ≡ ok t'
      → Balanced id t t'
  unfolding override_if_first
  override_if_first-Balanced false sender id p individual t t' h =
      subst (λ u. Balanced id t u) (ok-injective h) (Balanced-refl id t)
  override_if_first-Balanced true sender id p individual t t' h =
      override-Balanced chain sender p.delegation_module id p.start_height individual t t'
        (map_err-eq-ok std _ h)

-- What a counted vote leaves: the tallies of its proposal are the sums of the ballots, if they were
-- before, and the sums of the other proposals have not changed.
pub record Counted (id : ℕ) (prop p : SingleChoiceProposal) (s s' : State) : Type 0 where
  pub votes :
      (o : Vote)
      → get prop.votes o ≡ tally power_of id o s.ballots
      → get p.votes o ≡ tally power_of id o s'.ballots
  pub individual_votes :
      (o : Vote)
      → get prop.individual_votes o ≡ tally individual_of id o s.ballots
      → get p.individual_votes o ≡ tally individual_of id o s'.ballots
  pub others :
      (j : ℕ) (o : Vote)
      → id ≢ j
      → (tally power_of j o s'.ballots ≡ tally power_of j o s.ballots)
        × (tally individual_of j o s'.ballots ≡ tally individual_of j o s.ballots)

module _ (sender : Addr) (id : ℕ) (ballot : Ballot) (prop p0 : SingleChoiceProposal) (s : State)
    (t : Tallies) (v w : Votes)
    (retracted : (o : Vote) → Retracted prop (find id sender s.ballots) o p0)
    (overridden : Balanced id
      (record { ballots = put id sender ballot s.ballots; votes = p0.votes })
      t)
    (voted : add_vote {E = ContractError} ballot.vote ballot.power t.votes ≡ ok v)
    (individually : add_vote {E = ContractError} ballot.vote ballot.individual_power
        p0.individual_votes
      ≡ ok w) where
  count_votes_lem :
      Counted id prop
        (record p0 { votes = v; individual_votes = w })
        s
        (record s { ballots = t.ballots })
  count_votes_lem = record {
    votes = λ o before. ground (
      arith,
      retracted o,
      overridden.balance o,
      tally-put power_of id id o sender ballot s.ballots,
      add_vote_adds ballot.vote o ballot.power t.votes v voted,
    );
    individual_votes = λ o before. ground (
      arith,
      retracted o,
      overridden.individual id o,
      tally-put individual_of id id o sender ballot s.ballots,
      add_vote_adds ballot.vote o ballot.individual_power p0.individual_votes w individually,
    );
    others = λ j o n. ground (
      arith,
      overridden.others j o n,
      overridden.individual j o,
      tally-put power_of id j o sender ballot s.ballots,
      tally-put individual_of id j o sender ballot s.ballots,
    );
  }

pub Counted-refl : (id : ℕ) (p : SingleChoiceProposal) (s : State) → Counted id p p s s
Counted-refl id p s = record {
  votes = λ o e. e;
  individual_votes = λ o e. e;
  others = λ j o n. (refl, refl);
}

-- Saving a proposal under its id, with the ballots that belong to it.
pub save-IsTallied :
    (id : ℕ) (prop p p' : SingleChoiceProposal) (s s' : State)
    → IsTallied s
    → s.proposals id ≡ some prop
    → Counted id prop p s s'
    → s'.proposal_count ≡ s.proposal_count
    → p'.votes ≡ p.votes
    → p'.individual_votes ≡ p.individual_votes
    → IsTallied (record s' { proposals = save_proposal s.proposals id p' })
save-IsTallied id prop p p' s s' inv known c count same_votes same_individual = record {
  votes = λ j o.
      let before : get prop.votes o ≡ tally power_of id o s.ballots =
        rw known at (inv.votes id o) in
      ground (arith, before, inv.votes j o, c.votes o before, c.others j o);
  individual_votes = λ j o.
      let before : get prop.individual_votes o ≡ tally individual_of id o s.ballots =
        rw known at (inv.individual_votes id o) in
      ground (arith, before, inv.individual_votes j o, c.individual_votes o before, c.others j o);
  fresh = λ j h. ground (arith, inv.fresh j);
}

module _ (cw : CwUtils) (chain : Chain) (block : BlockInfo) where
  count_vote-Counted :
      (sender : Addr) (id : ℕ) (vote : Vote) (rationale : Option String)
      (power : VotingPowerWithDelegation) (prop p : SingleChoiceProposal) (s s' : State)
      → count_vote cw chain block sender id vote rationale power prop s ≡ ok (p, s')
      → Counted id prop p s s' × (s'.proposal_count ≡ s.proposal_count)
  unfolding count_vote
  count_vote-Counted sender id vote rationale power prop p s s' h =
      let last = find id sender s.ballots in
      let ballot : Ballot = record {
        power = power.total;
        individual_power = power.individual;
        vote = vote;
        rationale = rationale;
      } in
      let (p0, retracted, h1) = >>=-eq-ok (retract prop vote last) _ h in
      let (t, overridden, h2) =
        >>=-eq-ok
          (override_if_first cw chain block (is_none last) sender id p0 power.individual
            (record { ballots = put id sender ballot s.ballots; votes = p0.votes }))
          _ h1 in
      let (v, voted, h3) = >>=-eq-ok (add_vote vote power.total t.votes) _ h2 in
      let (w, individually, e) =
        >>=-eq-ok (add_vote vote power.individual p0.individual_votes) _ h3 in
      let c =
        count_votes_lem sender id ballot prop p0 s t v w
          (λ o. retract-Retracted prop p0 vote o last retracted)
          (override_if_first-Balanced cw chain block (is_none last) sender id p0 power.individual _
            t overridden)
          voted individually in
      let pair = ok-injective e in
      subst
        (λ (r : SingleChoiceProposal × State).
          Counted id prop r.0 s r.1 × (r.1.proposal_count ≡ s.proposal_count))
        pair (c, refl)

-- A vote that is accepted keeps every tally equal to the sum of the ballots, whether it is a first
-- vote, a changed one, or one that takes power back from delegates.
pub execute_vote-IsTallied :
    (cw : CwUtils) (chain : Chain) (block : BlockInfo) (sender : Addr) (id : ℕ) (vote : Vote)
    (rationale : Option String) (s s' : State) (msgs : List SubMsg)
    → IsTallied s
    → execute_vote cw chain block sender id vote rationale s ≡ ok (s', msgs)
    → IsTallied s'
unfolding execute_vote
execute_vote-IsTallied cw chain block sender id vote rationale s s' msgs inv h =
    let (prop, known, h1) = >>=-eq-ok (ok_or (s.proposals id) (no_such_proposal id)) _ h in
    let (_, h2) = guard-eq-ok _ _ _ h1 in
    let (power, _, h3) =
      >>=-eq-ok
        (std_or (
          get_voting_power_with_delegation chain prop.delegation_module s.config.dao sender id
            prop.start_height))
        _ h2 in
    let (_, h4) = guard-eq-ok _ _ _ h3 in
    let (r, counted, h5) =
      >>=-eq-ok (count_vote cw chain block sender id vote rationale power prop s) _ h4 in
    let (p, updated, e) = >>=-eq-ok (std_or (update_status cw r.0 block)) _ h5 in
    let (c, count) =
      count_vote-Counted cw chain block sender id vote rationale power prop r.0 s r.1 counted in
    let sets = update_status-sets cw r.0 p block (map_err-eq-ok std _ updated) in
    subst IsTallied (ap (λ (x : State × List SubMsg). x.0) (ok-injective e)) (
      save-IsTallied id prop r.0 p s r.1 inv (ok_or-eq-ok _ _ known) c count
        (sym (ap (λ (q : SingleChoiceProposal). q.votes) sets))
        (sym (ap (λ (q : SingleChoiceProposal). q.individual_votes) sets)))
