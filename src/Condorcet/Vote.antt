-- ===== src/Condorcet/Vote.antt =====
-- contracts/proposal/dao-proposal-condorcet/src/vote.rs: a ballot that ranks all candidates.
pub mod Ballots
use dao_contracts.Prelude.{
  ℕ, ◌+◌, ◌<◌, ◌≡◌, Bool, true, false, not, ◌||◌, List, [], ◌∷◌, ◌++◌, length, All, leb, ltb, ◌==◌,
  if◌then◌else◌, arith, Outcome, ok, err, guard, ◌>>=◌, ◌>>◌,
}
use dao_contracts.Voting.Policy.{contains}

pub data VoteError : Type 0 where
  duplicate_candidate invalid_candidate : (candidate : ℕ) → VoteError
  len_missmatch : (got expected : ℕ) → VoteError

-- The candidates from the most to the least favored one
abbrev pub Vote : Type 0
Vote = List ℕ

-- The loop over the candidates, with those that were seen
unfoldable pub check_from : ℕ → List ℕ → List ℕ → Outcome VoteError Vote
check_from candidates seen [] = ok seen
check_from candidates seen (v ∷ vote) =
    let rest = check_from candidates (seen ++ v ∷ []) vote in
    if leb candidates v
    then err (invalid_candidate v)
    else if contains seen v
    then err (duplicate_candidate v)
    else rest

unfoldable pub new : List ℕ → ℕ → Outcome VoteError Vote
unfolding check_from
new vote candidates = do
  guard (length vote == candidates) (len_missmatch (length vote) candidates)
  check_from candidates [] vote

-- All candidates of a list are below a bound.
abbrev pub AreBelow : ℕ → List ℕ → Type 0
AreBelow n l = All (λ v. v < n) l
