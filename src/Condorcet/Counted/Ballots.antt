-- ===== src/Condorcet/Counted/Ballots.antt =====
-- contracts/proposal/dao-proposal-condorcet/src/contract.rs: every tally counts the ballots of its
-- proposal.
use dao_contracts.Prelude.{
  ℕ, ◌+◌, ◌≤◌, ◌<◌, ◌≡◌, ◌≢◌, refl, sym, inl, inr, some, List, [], ◌∷◌, All, arith, ◌==◌, ==_iff,
  Bool-cases, ==_apart, &&-eq-true, ||-eq-false, false, ◌&&◌, if◌then◌else◌, Outcome, ok, >>=-then,
  ok-injective,
}
use mathlib.Core.Path.{subst}
use dao_contracts.Cosmwasm.{Addr, StdError, Expiration, sub128}
use dao_contracts.Condorcet.Vote.{Vote}
use dao_contracts.Condorcet.Matrix.{M, add32, u32_mod}
use dao_contracts.Condorcet.Matrix
use dao_contracts.Condorcet.Matrix.Margins.{Represents}
use dao_contracts.Condorcet.Matrix.Empty.{new-Represents}
use dao_contracts.Condorcet.Tally.{Tally, find_winner, add_preferences, add_vote, expired}
use dao_contracts.Condorcet.Tally
use dao_contracts.Condorcet.Tally.Ranked.{ranked}
use dao_contracts.Condorcet.Tally.Refines.{Represents-ext}
use dao_contracts.Condorcet.Proposal.{ContractError, Proposal}
use dao_contracts.Condorcet.Contract.{
  Chain, find, put, last_key, Ballot, State, has_voted, save_ballot,
}
use dao_contracts.Condorcet.Counted.Entries.{last_key-put}

-- The power that the voting module reports
abbrev pub power_of : Outcome StdError ℕ → ℕ
power_of (ok power) = power
power_of _ = 0

-- What the ballots of a proposal count for a pair of choices
abbrev pub counted : (Addr → ℕ) → ℕ → List Ballot → ℕ → ℕ → ℕ
counted power id [] a b = 0
counted power id (v ∷ votes) a b =
    (if v.proposal_id == id then ranked (power v.voter) v.vote a b else 0)
    + counted power id votes a b

pub counted-fresh :
    (power : Addr → ℕ) (id last : ℕ) (votes : List Ballot) (a b : ℕ)
    → All (λ v. v.proposal_id ≤ last) votes
    → last < id
    → counted power id votes a b ≡ 0
counted-fresh power id last [] a b known less = refl
counted-fresh power id last (v ∷ votes) a b (first, known) less =
    ground (arith, counted-fresh power id last votes a b known less)

pub known_mono :
    (last last' : ℕ) (votes : List Ballot)
    → last ≤ last'
    → All (λ v. v.proposal_id ≤ last) votes
    → All (λ v. v.proposal_id ≤ last') votes
known_mono last last' [] le known = tt
known_mono last last' (v ∷ votes) le (first, known) =
    (omega arith, known_mono last last' votes le known)

-- A first ballot of a voter is one more for its proposal.
pub one_more :
    (power : Addr → ℕ) (ballot : Ballot) (p : ℕ) (votes : List Ballot) (a b : ℕ)
    → has_voted ballot.proposal_id ballot.voter votes ≡ false
    → power ballot.voter ≡ p
    → counted power ballot.proposal_id votes a b + ranked p ballot.vote a b
      ≡ counted power ballot.proposal_id (save_ballot ballot votes) a b
unfolding save_ballot has_voted
one_more power ballot p [] a b first e =
    rw (e, (==_iff ballot.proposal_id ballot.proposal_id).1 refl) (omega arith)
one_more power ballot p (v ∷ votes) a b first e =
    let (apart, later) =
      ||-eq-false (v.proposal_id == ballot.proposal_id && v.voter == ballot.voter)
        (has_voted ballot.proposal_id ballot.voter votes) first in
    rw apart (omega (arith, one_more power ballot p votes a b later e))

-- A ballot leaves the count of the other proposals, also if it replaces one.
pub other_vote :
    (power : Addr → ℕ) (j : ℕ) (ballot : Ballot) (votes : List Ballot) (a b : ℕ)
    → ballot.proposal_id ≢ j
    → counted power j votes a b ≡ counted power j (save_ballot ballot votes) a b
unfolding save_ballot
other_vote power j ballot [] a b differ = rw (==_apart ballot.proposal_id j differ) refl
other_vote power j ballot (v ∷ votes) a b differ =
    elim (Bool-cases (v.proposal_id == ballot.proposal_id && v.voter == ballot.voter)) [
      | inl same ↦
          let (of_it, _) = &&-eq-true _ _ same in
          let e = (==_iff v.proposal_id ballot.proposal_id).0 of_it in
          rw (same, e, ==_apart ballot.proposal_id j differ) refl
      | inr other ↦ rw other (omega (arith, other_vote power j ballot votes a b differ))
    ]

pub known-save_ballot :
    (last : ℕ) (ballot : Ballot) (votes : List Ballot)
    → ballot.proposal_id ≤ last
    → All (λ v. v.proposal_id ≤ last) votes
    → All (λ v. v.proposal_id ≤ last) (save_ballot ballot votes)
unfolding save_ballot
known-save_ballot last ballot [] le known = (le, tt)
known-save_ballot last ballot (v ∷ votes) le (first, known) =
    elim (Bool-cases (v.proposal_id == ballot.proposal_id && v.voter == ballot.voter)) [
      | inl same ↦ rw same (le, known)
      | inr other ↦ rw other (first, known-save_ballot last ballot votes le known)
    ]

-- A vote leaves the height at which the power is measured.
pub start_height-add_vote :
    (vote : Vote) (power : ℕ) (t t' : Tally)
    → add_vote {E = ContractError} vote power t ≡ ok t'
    → t'.start_height ≡ t.start_height
unfolding add_vote
start_height-add_vote vote power t t' h = >>=-then (add_preferences power [] vote t.m) _ h λ m e h1.
    >>=-then (sub128 t.power_outstanding power) _ h1 λ left e2 h2.
      >>=-then (find_winner m left) _ h2 λ winner e3 h3.
        subst (λ (k : Tally). k.start_height ≡ t.start_height) (ok-injective h3) refl

module _ (chain : Chain) where
  -- The power of a voter at a height
  abbrev pub power_at : ℕ → Addr → ℕ
  power_at height voter = power_of (chain.voting_power voter (some height))

  -- A tally stands for the ballots of its proposal, and its winner is up to date.
  abbrev pub Counts : ℕ → Tally → List Ballot → Type 0
  Counts id t votes =
      Represents ContractError t.m (counted (power_at t.start_height) id votes)
      × (find_winner {E = ContractError} t.m t.power_outstanding ≡ ok t.winner)

  pub record IsCounted (s : State) : Type 0 where
    pub tallies : (id : ℕ) (t : Tally) → find id s.tallies ≡ some t → Counts id t s.votes
    pub keys : last_key s.tallies ≤ last_key s.proposals
    pub known : All (λ v. v.proposal_id ≤ last_key s.proposals) s.votes

  -- A proposal is stored again.
  pub restored :
      (s : State) (id : ℕ) (p : Proposal)
      → IsCounted s
      → IsCounted (record s { proposals = put id p s.proposals })
  restored s id p c = record {
    tallies = c.tallies;
    keys = omega (arith, c.keys, last_key-put id p s.proposals);
    known =
        known_mono (last_key s.proposals) (last_key (put id p s.proposals)) s.votes
          (last_key-put id p s.proposals) c.known;
  }

  pub new-Counts :
      (id candidates total height : ℕ) (expiration : Expiration) (t : Tally) (votes : List Ballot)
      (last : ℕ)
      → Tally.new {E = ContractError} candidates total height expiration ≡ ok t
      → All (λ v. v.proposal_id ≤ last) votes
      → last < id
      → Counts id t votes
  unfolding Tally.new
  new-Counts id candidates total height expiration t votes last h known less =
      >>=-then (Matrix.new candidates) _ h λ m e h1.
        >>=-then (find_winner m total) _ h1 λ winner e2 h2.
          subst (λ k. Counts id k votes) (ok-injective h2)
            (
              Represents-ext ContractError m (λ a b. 0) (counted (power_at height) id votes)
                  (λ a b. sym (counted-fresh (power_at height) id last votes a b known less))
                  (new-Represents ContractError candidates m e).1,
              e2,
            )
