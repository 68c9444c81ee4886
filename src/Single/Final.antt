-- ===== src/Single/Final.antt =====
-- A proposal that has been executed, closed or vetoed, or whose execution has failed, stays so
-- whatever message follows: nothing is executed twice.
pub mod Execute
use dao_contracts.Prelude.{
  ℕ, ◌+◌, ◌<◌, ◌≡◌, refl, sym, ap, ◌∙◌, Bool, true, false, Option, none, some, List, String, arith,
  Outcome, ok, ok_or, ◌==◌, ==_iff, ◌>>=◌, >>=-eq-ok, guard-eq-ok, map_err-eq-ok, ok_or-eq-ok,
  ok-injective, Bool-cases, if-cases, inl, inr,
}
use mathlib.Core.Path.{subst}
use dao_contracts.Cosmwasm.{Addr, BlockInfo, CwUtils}
use dao_contracts.Voting.Votes.{Vote, add_vote, remove_vote, same_vote}
use dao_contracts.Voting.Status.{
  Status, open_for_votes, rejected, passed, executed, closed, execution_failed, vetoed,
  veto_timelock,
}
use dao_contracts.Single.Proposal.{SingleChoiceProposal, status_from, current_status, update_status}
use dao_contracts.Single.Proposal.Update.{update_status-current}
use dao_contracts.Single.State.{Ballot, State, ContractError, Chain, std, std_or, no_such_proposal}
use dao_contracts.Single.Messages.{SubMsg}
use dao_contracts.Single.Ballots.{find, put}
use dao_contracts.Single.Delegates.{
  Tallies, VotingPowerWithDelegation, get_voting_power_with_delegation,
}
use dao_contracts.Single.Contract.Vote.{
  save_proposal, retract, override_if_first, is_none, count_vote, execute_vote,
}
use dao_contracts.Single.Contract.Finish.{finish}
use dao_contracts.Single.Finished.{Finished}

abbrev pub is_final : Status → Bool
is_final executed = true
is_final closed = true
is_final execution_failed = true
is_final vetoed = true
is_final _ = false

status_from-final :
    (cw : CwUtils) (st : Status) (p : SingleChoiceProposal) (block : BlockInfo)
    → is_final st ≡ true
    → status_from cw st p block ≡ ok p.status
unfolding status_from
status_from-final cw executed p block h = refl
status_from-final cw closed p block h = refl
status_from-final cw execution_failed p block h = refl
status_from-final cw vetoed p block h = refl
status_from-final cw open_for_votes p block h = cc
status_from-final cw rejected p block h = cc
status_from-final cw passed p block h = cc
status_from-final cw (veto_timelock e) p block h = cc

-- Bringing a final status up to date leaves it.
update_status-final :
    (cw : CwUtils) (p q : SingleChoiceProposal) (block : BlockInfo)
    → is_final p.status ≡ true
    → update_status cw p block ≡ ok q
    → q.status ≡ p.status
unfolding current_status
update_status-final cw p q block final h =
    let now = (update_status-current cw p q block h).1 in
    ok-injective (sym now ∙ status_from-final cw p.status p block final)

some_inj : {A : Type 0} {a b : A} → some a ≡ some b → a ≡ b
some_inj h = cc

-- The proposal is still there, with the same status.
abbrev pub Kept : State → ℕ → SingleChoiceProposal → Type 0
Kept t id p = (q : SingleChoiceProposal) × (t.proposals id ≡ some q) × (q.status ≡ p.status)

-- Saving a proposal whose status is the old one, if that was final.
save-Kept :
    (id j : ℕ) (p prop new : SingleChoiceProposal) (s t : State)
    → s.proposals j ≡ some prop
    → t.proposals ≡ save_proposal s.proposals j new
    → (is_final prop.status ≡ true → new.status ≡ prop.status)
    → s.proposals id ≡ some p
    → is_final p.status ≡ true
    → Kept t id p
save-Kept id j p prop new s t known saved keeps here final = elim (Bool-cases (j == id)) [
  | inl e ↦
      let same : some prop ≡ some p = sym known ∙ ap s.proposals ((==_iff j id).0 e) ∙ here in
      let same' : prop ≡ p = some_inj same in
      (
        new,
        rw (saved, e),
        keeps (subst (λ (x : SingleChoiceProposal). is_final x.status ≡ true) (sym same') final)
            ∙ ap (λ (x : SingleChoiceProposal). x.status) same',
      )
  | inr n ↦ (p, rw (saved, n) here, refl)
]

final_as : {st st' : Status} → st' ≡ st → is_final st ≡ true → is_final st' ≡ true
final_as e f = subst (λ (x : Status). is_final x ≡ true) (sym e) f

retract-status :
    (prop p : SingleChoiceProposal) (vote : Vote) (last : Option Ballot)
    → retract prop vote last ≡ ok p
    → p.status ≡ prop.status
unfolding retract
retract-status prop p vote none h =
    ap (λ (x : SingleChoiceProposal). x.status) (sym (ok-injective h))
retract-status prop p vote (some b) h = elim (if-cases prop.allow_revoting _ _ h) [
  | inl (_, h') ↦ elim (if-cases (same_vote b.vote vote) _ _ h') [
    | inl (_, e) ↦ cc
    | inr (_, h1) ↦
        let (v, _, h2) = >>=-eq-ok (remove_vote b.vote b.power prop.votes) _ h1 in
        let (w, _, e) =
          >>=-eq-ok (remove_vote b.vote b.individual_power prop.individual_votes) _ h2 in
        ap (λ (x : SingleChoiceProposal). x.status) (sym (ok-injective e))
  ]
  | inr (_, e) ↦ cc
]

module _ (cw : CwUtils) (chain : Chain) (block : BlockInfo) where
  count_vote-status :
      (sender : Addr) (id : ℕ) (vote : Vote) (rationale : Option String)
      (power : VotingPowerWithDelegation) (prop : SingleChoiceProposal) (s : State)
      (r : SingleChoiceProposal × State)
      → count_vote cw chain block sender id vote rationale power prop s ≡ ok r
      → r.0.status ≡ prop.status
  unfolding count_vote
  count_vote-status sender id vote rationale power prop s r h =
      let last = find id sender s.ballots in
      let (p0, retracted, h1) = >>=-eq-ok (retract prop vote last) _ h in
      let ballot : Ballot = record {
        power = power.total;
        individual_power = power.individual;
        vote = vote;
        rationale = rationale;
      } in
      let (t, _, h2) =
        >>=-eq-ok
          (override_if_first cw chain block (is_none last) sender id p0 power.individual
            (record { ballots = put id sender ballot s.ballots; votes = p0.votes }))
          _ h1 in
      let (v, _, h3) = >>=-eq-ok (add_vote vote power.total t.votes) _ h2 in
      let (w, _, e) = >>=-eq-ok (add_vote vote power.individual p0.individual_votes) _ h3 in
      ap (λ (x : SingleChoiceProposal × State). x.0.status) (sym (ok-injective e))
      ∙ retract-status prop p0 vote last retracted

  pub execute_vote-Kept :
      (sender : Addr) (j : ℕ) (vote : Vote) (rationale : Option String) (s : State)
      (r : State × List SubMsg) (id : ℕ) (p : SingleChoiceProposal)
      → execute_vote cw chain block sender j vote rationale s ≡ ok r
      → s.proposals id ≡ some p
      → is_final p.status ≡ true
      → Kept r.0 id p
  unfolding execute_vote
  execute_vote-Kept sender j vote rationale s r id p h here final =
      let (prop, known, h1) = >>=-eq-ok (ok_or (s.proposals j) (no_such_proposal j)) _ h in
      let (_, h2) = guard-eq-ok _ _ _ h1 in
      let (power, _, h3) =
        >>=-eq-ok
          (std_or (
            get_voting_power_with_delegation chain prop.delegation_module s.config.dao sender j
              prop.start_height))
          _ h2 in
      let (_, h4) = guard-eq-ok _ _ _ h3 in
      let (c, counted, h5) =
        >>=-eq-ok (count_vote cw chain block sender j vote rationale power prop s) _ h4 in
      let (q, updated, e) = >>=-eq-ok (std_or (update_status cw c.0 block)) _ h5 in
      let status = count_vote-status sender j vote rationale power prop s c counted in
      save-Kept id j p prop q s r.0 (ok_or-eq-ok _ _ known)
        (ap (λ (x : State × List SubMsg). x.0.proposals) (sym (ok-injective e)))
        (λ f.
          update_status-final cw c.0 q block (final_as status f) (map_err-eq-ok std _ updated)
          ∙ status)
        here final

-- A handler that asks for a status that is not final finishes no final proposal.
pub Finished-Kept :
    {cw : CwUtils} {block : BlockInfo} {j : ℕ} {st : Status} {s s' : State}
    {Allowed : SingleChoiceProposal → Type 0} (id : ℕ) (p : SingleChoiceProposal)
    → ((q : SingleChoiceProposal) → Allowed q → is_final q.status ≡ true → ⊥)
    → Finished cw block j st s s' Allowed
    → s.proposals id ≡ some p
    → is_final p.status ≡ true
    → Kept s' id p
unfolding finish
Finished-Kept {cw} {block} {j} {st} {s} {s'} id p excluded f here final =
    save-Kept id j p f.before (record (f.current) { status = st }) s s' f.known
      (ap (λ (x : State). x.proposals) f.result)
      (λ is. absurd (
        excluded f.current f.allowed
          (rw (update_status-final cw f.before f.current block is f.updated) is)))
      here final
