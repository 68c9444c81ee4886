-- ===== src/Voting/Votes/Tally.antt =====
-- Adding and removing votes.
use dao_contracts.Prelude.{ℕ, ◌+◌, ◌<◌, ◌≡◌, arith, if◌then◌else◌, ok, ◌>>=◌}
use dao_contracts.Cosmwasm.{u128_mod}
use dao_contracts.Voting.Votes.{Votes, Vote, add_vote, remove_vote, total, get, same_vote}

-- The number of votes cast, whatever it is.
abbrev pub cast : Votes → ℕ
cast v = v.yes + v.no + v.abstain

module _ {E : Type 0} where
  -- A total that fits `Uint128` is the sum.
  pub total-cast : (v : Votes) → cast v < u128_mod → total {E = E} v ≡ ok (cast v)
  unfolding total
  total-cast v h = ground arith

  -- An added vote counts for its option and for no other, and for the sum.
  pub add_vote_adds :
      (o o' : Vote) (power : ℕ) (v w : Votes)
      → add_vote {E = E} o power v ≡ ok w
      → (get w o' ≡ get v o' + (if same_vote o o' then power else 0)) × (cast w ≡ cast v + power)
  unfolding add_vote get
  add_vote_adds Vote.yes Vote.yes power v w h = ground arith
  add_vote_adds Vote.no Vote.yes power v w h = ground arith
  add_vote_adds Vote.abstain Vote.yes power v w h = ground arith
  add_vote_adds Vote.yes Vote.no power v w h = ground arith
  add_vote_adds Vote.no Vote.no power v w h = ground arith
  add_vote_adds Vote.abstain Vote.no power v w h = ground arith
  add_vote_adds Vote.yes Vote.abstain power v w h = ground arith
  add_vote_adds Vote.no Vote.abstain power v w h = ground arith
  add_vote_adds Vote.abstain Vote.abstain power v w h = ground arith

  -- A removed vote was there, and is taken from its option and no other, and from the sum.
  pub remove_vote_removes :
      (o o' : Vote) (power : ℕ) (v w : Votes)
      → remove_vote {E = E} o power v ≡ ok w
      → (get v o' ≡ get w o' + (if same_vote o o' then power else 0)) × (cast v ≡ cast w + power)
  unfolding remove_vote get
  remove_vote_removes Vote.yes Vote.yes power v w h = ground arith
  remove_vote_removes Vote.no Vote.yes power v w h = ground arith
  remove_vote_removes Vote.abstain Vote.yes power v w h = ground arith
  remove_vote_removes Vote.yes Vote.no power v w h = ground arith
  remove_vote_removes Vote.no Vote.no power v w h = ground arith
  remove_vote_removes Vote.abstain Vote.no power v w h = ground arith
  remove_vote_removes Vote.yes Vote.abstain power v w h = ground arith
  remove_vote_removes Vote.no Vote.abstain power v w h = ground arith
  remove_vote_removes Vote.abstain Vote.abstain power v w h = ground arith

  -- What was added can be removed again, and the tally is as before.
  pub remove_vote-add_vote :
      (o : Vote) (power : ℕ) (v : Votes)
      → get v o + power < u128_mod
      → (add_vote {E = E} o power v >>= remove_vote o power) ≡ ok v
  unfolding add_vote remove_vote get
  remove_vote-add_vote Vote.yes power v h = ground arith
  remove_vote-add_vote Vote.no power v h = ground arith
  remove_vote-add_vote Vote.abstain power v h = ground arith
