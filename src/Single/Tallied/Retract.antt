-- ===== src/Single/Tallied/Retract.antt =====
-- What a changed vote takes off the tallies.
use dao_contracts.Prelude.{
  ◌+◌, ◌≡◌, Option, none, some, arith, ok, ◌>>=◌, >>=-eq-ok, if-cases, inl, inr,
}
use dao_contracts.Voting.Votes.{Vote, same_vote, get, remove_vote}
use dao_contracts.Voting.Votes.Tally.{remove_vote_removes}
use dao_contracts.Single.Proposal.{SingleChoiceProposal}
use dao_contracts.Single.State.{Ballot, ContractError}
use dao_contracts.Single.Ballots.{counted}
use dao_contracts.Single.Contract.Vote.{retract}
use dao_contracts.Single.Tallied.{power_of, individual_of}

-- The proposal's tallies are those after the retraction and what the last ballot counted.
abbrev pub Retracted : SingleChoiceProposal → Option Ballot → Vote → SingleChoiceProposal → Type 0
Retracted prop last o p =
    (get prop.votes o ≡ get p.votes o + counted power_of o last)
    × (get prop.individual_votes o ≡ get p.individual_votes o + counted individual_of o last)

remove_both :
    (prop p : SingleChoiceProposal) (b : Ballot) (o : Vote)
    → (do
      votes ← remove_vote {E = ContractError} b.vote b.power prop.votes
      individual_votes ← remove_vote b.vote b.individual_power prop.individual_votes
      ok (record prop { votes = votes; individual_votes = individual_votes }))
      ≡ ok p
    → Retracted prop (some b) o p
remove_both prop p b o h =
    let (v, hv, h') = >>=-eq-ok (remove_vote b.vote b.power prop.votes) _ h in
    let (w, hw, e) = >>=-eq-ok (remove_vote b.vote b.individual_power prop.individual_votes) _ h' in
    ground (
      arith,
      remove_vote_removes b.vote o b.power prop.votes v hv,
      remove_vote_removes b.vote o b.individual_power prop.individual_votes w hw,
    )

pub retract-Retracted :
    (prop p : SingleChoiceProposal) (vote o : Vote) (last : Option Ballot)
    → retract prop vote last ≡ ok p
    → Retracted prop last o p
unfolding retract
retract-Retracted prop p vote o none h = ground arith
retract-Retracted prop p vote o (some b) h = elim (if-cases prop.allow_revoting _ _ h) [
  | inl (_, h') ↦ elim (if-cases (same_vote b.vote vote) _ _ h') [
    | inl (_, e) ↦ cc
    | inr (_, e) ↦ remove_both prop p b o e
  ]
  | inr (_, e) ↦ cc
]
