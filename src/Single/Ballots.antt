-- ===== src/Single/Ballots.antt =====
-- The map of ballots, and the sum of what its ballots for one proposal and one option count.
use dao_contracts.Prelude.{
  ℕ, ◌+◌, ◌≡◌, refl, Bool, ◌&&◌, Option, none, some, List, [], ◌∷◌, arith, ◌==◌, if◌then◌else◌,
}
use dao_contracts.Cosmwasm.{Addr}
use dao_contracts.Voting.Votes.{Vote, same_vote}
use dao_contracts.Single.State.{Ballot, Cast}

abbrev pub is_key : ℕ → Addr → Cast → Bool
is_key id voter c = c.proposal_id == id && c.voter == voter

-- `BALLOTS.may_load`
unfoldable pub find : ℕ → Addr → List Cast → Option Ballot
find id voter [] = none
find id voter (c ∷ cs) = if is_key id voter c then some c.ballot else find id voter cs

-- `BALLOTS.save`
unfoldable pub put : ℕ → Addr → Ballot → List Cast → List Cast
put id voter b [] = (record { proposal_id = id; voter = voter; ballot = b }) ∷ []
put id voter b (c ∷ cs) =
    if is_key id voter c then (record c { ballot = b }) ∷ cs else c ∷ put id voter b cs

-- What a ballot counts for an option of a proposal.
abbrev pub counts : (Ballot → ℕ) → Vote → Ballot → ℕ
counts f o b = if same_vote b.vote o then f b else 0

unfoldable pub tally : (Ballot → ℕ) → ℕ → Vote → List Cast → ℕ
tally f id o [] = 0
tally f id o (c ∷ cs) = (if c.proposal_id == id then counts f o c.ballot else 0) + tally f id o cs

abbrev pub counted : (Ballot → ℕ) → Vote → Option Ballot → ℕ
counted f o none = 0
counted f o (some b) = counts f o b

pub find-put :
    (id id' : ℕ) (voter voter' : Addr) (b : Ballot) (cs : List Cast)
    → find id' voter' (put id voter b cs)
      ≡ (if id == id' && voter == voter' then some b else find id' voter' cs)
unfolding find put
find-put id id' voter voter' b [] = refl
find-put id id' voter voter' b (c ∷ cs) = ground (arith, find-put id id' voter voter' b cs)

-- A ballot that is put replaces what the voter's last one counted, for its own proposal alone.
pub tally-put :
    (f : Ballot → ℕ) (id id' : ℕ) (o : Vote) (voter : Addr) (b : Ballot) (cs : List Cast)
    → tally f id' o (put id voter b cs) + (if id == id' then counted f o (find id voter cs) else 0)
      ≡ tally f id' o cs + (if id == id' then counts f o b else 0)
unfolding tally put find
tally-put f id id' o voter b [] = ground arith
tally-put f id id' o voter b (c ∷ cs) = ground (arith, tally-put f id id' o voter b cs)
