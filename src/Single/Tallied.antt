-- ===== src/Single/Tallied.antt =====
-- The invariant of the proposal module: both tallies of a proposal are the sums of what its ballots
-- count. The proofs for the operations are in the modules below.
pub mod Retract
pub mod Override
pub mod Voting
pub mod Steps
pub mod Execute
use dao_contracts.Prelude.{ℕ, ◌+◌, ◌<◌, ◌≡◌, Bool, true, false, ◌≢◌, Option, none, some}
use dao_contracts.Voting.Votes.{Votes, Vote, zero_votes, get}
use dao_contracts.Single.Proposal.{SingleChoiceProposal}
use dao_contracts.Single.State.{Ballot, State}
use dao_contracts.Single.Ballots.{tally}
use dao_contracts.Single.Delegates.{Tallies}

abbrev pub power_of : Ballot → ℕ
power_of b = b.power

abbrev pub individual_of : Ballot → ℕ
individual_of b = b.individual_power

abbrev pub votes_of : Option SingleChoiceProposal → Votes
votes_of none = zero_votes
votes_of (some p) = p.votes

abbrev pub individual_votes_of : Option SingleChoiceProposal → Votes
individual_votes_of none = zero_votes
individual_votes_of (some p) = p.individual_votes

pub record IsTallied (s : State) : Type 0 where
  pub votes :
      (id : ℕ) (o : Vote) → get (votes_of (s.proposals id)) o ≡ tally power_of id o s.ballots
  pub individual_votes :
      (id : ℕ) (o : Vote)
      → get (individual_votes_of (s.proposals id)) o ≡ tally individual_of id o s.ballots
  pub fresh : (id : ℕ) → s.proposal_count < id → s.proposals id ≡ none

-- A change of the ballots and the tally of one proposal that keeps them in step, and the sums of
-- individual power and of the other proposals as they are.
pub record Balanced (id : ℕ) (t t' : Tallies) : Type 0 where
  pub balance :
      (o : Vote)
      → get t'.votes o + tally power_of id o t.ballots
        ≡ get t.votes o + tally power_of id o t'.ballots
  pub others :
      (id' : ℕ) (o : Vote)
      → id ≢ id'
      → tally power_of id' o t'.ballots ≡ tally power_of id' o t.ballots
  pub individual :
      (id' : ℕ) (o : Vote)
      → tally individual_of id' o t'.ballots ≡ tally individual_of id' o t.ballots
