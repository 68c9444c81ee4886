-- ===== src/Voting/Votes.antt =====
-- packages/dao-voting/src/voting.rs: the tally and the comparison with a threshold. The proofs are
-- in the modules below.
pub mod Bounds
pub mod Exclusion
pub mod Stable
pub mod Tally
use dao_contracts.Prelude.{
  ℕ, ◌+◌, ◌-◌, ◌*◌, ◌/◌, ◌^◌, Bool, true, false, ltb, leb, ◌==◌, if◌then◌else◌, Outcome, ok, err,
  ◌>>=◌,
}
use dao_contracts.Cosmwasm.{Decimal, decimal_one, add128, sub128}
use dao_contracts.Voting.Threshold.{PercentageThreshold, majority, percent}

-- `PRECISION_FACTOR`
abbrev pub precision_factor : ℕ
precision_factor = 10 ^ 9

pub record Votes : Type 0 where
  pub yes : ℕ
  pub no : ℕ
  pub abstain : ℕ

pub data Vote : Type 0 where
  yes no abstain : Vote

-- `==` on `Vote`
abbrev pub same_vote : Vote → Vote → Bool
same_vote Vote.yes Vote.yes = true
same_vote Vote.no Vote.no = true
same_vote Vote.abstain Vote.abstain = true
same_vote _ _ = false

pub data VoteCmp : Type 0 where
  greater geq : VoteCmp

-- `total_power * passing_percentage`, scaled by the precision factor and rounded down. The products
-- are of type `Uint256`.
unfoldable pub scaled_threshold : ℕ → Decimal → ℕ
scaled_threshold total_power passing_percentage =
    total_power * precision_factor * passing_percentage / decimal_one

unfoldable pub compare_vote_count : ℕ → VoteCmp → ℕ → Decimal → Bool
unfolding scaled_threshold
compare_vote_count votes greater total_power p =
    ltb (scaled_threshold total_power p) (votes * precision_factor)
compare_vote_count votes geq total_power p =
    leb (scaled_threshold total_power p) (votes * precision_factor)

unfoldable pub does_vote_count_pass : ℕ → ℕ → PercentageThreshold → Bool
unfolding compare_vote_count
does_vote_count_pass vote_weights options majority =
    if options == 0 then false else ltb options (vote_weights * 2)
does_vote_count_pass vote_weights options (percent p) =
    if options == 0 then false else compare_vote_count vote_weights geq options p

-- `Decimal::one() - percent` panics on a percentage above one.
unfoldable pub does_vote_count_fail : {E : Type 0} → ℕ → ℕ → PercentageThreshold → Outcome E Bool
unfolding compare_vote_count
does_vote_count_fail no_votes options majority =
    if options == 0 then ok true else ok (leb options (no_votes * 2))
does_vote_count_fail no_votes options (percent p) =
    if options == 0
    then ok true
    else (do q ← sub128 decimal_one p; ok (compare_vote_count no_votes greater options q))

-- `Votes::zero`
abbrev pub zero_votes : Votes
zero_votes = record { yes = 0; no = 0; abstain = 0 }

module _ {E : Type 0} where
  unfoldable pub add_vote : Vote → ℕ → Votes → Outcome E Votes
  add_vote Vote.yes power v = do n ← add128 v.yes power; ok (record v { yes = n })
  add_vote Vote.no power v = do n ← add128 v.no power; ok (record v { no = n })
  add_vote Vote.abstain power v = do n ← add128 v.abstain power; ok (record v { abstain = n })

  unfoldable pub remove_vote : Vote → ℕ → Votes → Outcome E Votes
  remove_vote Vote.yes power v = do n ← sub128 v.yes power; ok (record v { yes = n })
  remove_vote Vote.no power v = do n ← sub128 v.no power; ok (record v { no = n })
  remove_vote Vote.abstain power v = do n ← sub128 v.abstain power; ok (record v { abstain = n })

  -- `Votes::total`
  unfoldable pub total : Votes → Outcome E ℕ
  total v = do cast ← add128 v.yes v.no; add128 cast v.abstain

-- `Votes::get`
unfoldable pub get : Votes → Vote → ℕ
get v Vote.yes = v.yes
get v Vote.no = v.no
get v Vote.abstain = v.abstain
