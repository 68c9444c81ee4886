-- ===== src/Single/Proposal/Reference.antt =====
-- What `is_passed` and `is_rejected` decide, as plain Boolean functions: on a well-formed proposal
-- the code returns their values and does not panic.
use dao_contracts.Prelude.{
  ℕ, ◌+◌, ◌-◌, ◌*◌, ◌≤◌, ◌<◌, ◌≡◌, refl, Bool, true, false, not, ◌&&◌, ◌||◌, arith, ok, leb, ltb,
  ◌==◌, if◌then◌else◌,
}
use dao_contracts.Cosmwasm.{StdError, BlockInfo, CwUtils, u128_mod, decimal_one}
use dao_contracts.Voting.Threshold.{
  PercentageThreshold, majority, percent, Threshold, absolute_percentage, threshold_quorum,
  absolute_count, Reachable, IsValid, Passing,
}
use dao_contracts.Voting.Votes.{
  Votes, greater, compare_vote_count, does_vote_count_fail, does_vote_count_pass,
}
use dao_contracts.Voting.Votes.Tally.{cast, total-cast}
use dao_contracts.Single.Proposal.{
  SingleChoiceProposal, votes_to_consider, options_of, tally_passes, is_unanimous, tally_rejects,
  quorum_fails, tally_fails, min_period_over, is_passed, is_rejected,
}

-- A tally within the total power, which is a `Uint128`.
abbrev pub Fits : ℕ → Votes → Type 0
Fits total_power v = (cast v ≤ total_power) × (total_power < u128_mod)

-- Neither tally exceeds the total power, and the threshold is one that `validate` accepts.
pub record IsWellFormed (p : SingleChoiceProposal) : Type 0 where
  pub votes_fit : Fits p.total_power p.votes
  pub individual_fit : Fits p.total_power p.individual_votes
  pub threshold_valid : IsValid p.threshold

-- The power that decides: the votes for and against once voting has closed, and before that all
-- but the abstentions.
abbrev pub options_at : ℕ → Votes → Bool → ℕ
options_at power v true = v.yes + v.no
options_at power v false = power - v.abstain

unfoldable pub passes : Threshold → ℕ → Votes → Bool → Bool
passes (absolute_percentage q) power v closed = does_vote_count_pass v.yes (power - v.abstain) q
passes (threshold_quorum t q) power v closed =
    does_vote_count_pass (cast v) power q
    && does_vote_count_pass v.yes (options_at power v closed) t
passes (absolute_count n) power v closed = leb n v.yes

abbrev pub misses : ℕ → ℕ → PercentageThreshold → Bool
misses nays options majority = leb options (nays * 2)
misses nays options (percent p) = compare_vote_count nays greater options (decimal_one - p)

abbrev pub rejects : ℕ → ℕ → PercentageThreshold → Bool
rejects nays options t =
    options == 0 || (if is_unanimous t then leb 1 nays else misses nays options t)

unfoldable pub fails : Threshold → ℕ → Votes → Bool → Bool
fails (absolute_percentage q) power v closed = rejects v.no (power - v.abstain) q
fails (threshold_quorum t q) power v closed =
    (closed && not (does_vote_count_pass (cast v) power q))
    || rejects v.no (options_at power v closed) t
fails (absolute_count n) power v closed = ltb (v.yes + (power - cast v)) n

options_of-options_at :
    (power : ℕ) (v : Votes) (closed : Bool)
    → Fits power v
    → options_of power v closed ≡ ok (options_at power v closed)
unfolding options_of
options_of-options_at power v true fits = ground (arith, total-cast {E = StdError} v)
options_of-options_at power v false fits = ground arith

tally_passes-passes :
    (t : Threshold) (power : ℕ) (v : Votes) (closed : Bool)
    → Fits power v
    → tally_passes t power v closed ≡ ok (passes t power v closed)
unfolding tally_passes passes
tally_passes-passes (absolute_percentage q) power v closed fits = ground arith
tally_passes-passes (threshold_quorum t q) power v closed fits =
    ground (arith, total-cast {E = StdError} v, options_of-options_at power v closed fits)
tally_passes-passes (absolute_count n) power v closed fits = refl

tally_rejects-rejects :
    (nays options : ℕ) (t : PercentageThreshold)
    → Reachable t
    → tally_rejects nays options t ≡ ok (rejects nays options t)
unfolding tally_rejects does_vote_count_fail
tally_rejects-rejects nays options majority r = ground arith
tally_rejects-rejects nays options (percent p) r = ground arith

pub Passing-Reachable : (t : PercentageThreshold) → Passing t → Reachable t
Passing-Reachable majority h = tt
Passing-Reachable (percent p) h = h.1

quorum_fails-rejects :
    (t : PercentageThreshold) (power : ℕ) (v : Votes) (met closed : Bool)
    → Fits power v
    → Reachable t
    → quorum_fails t power v met closed
      ≡ ok ((closed && not met) || rejects v.no (options_at power v closed) t)
unfolding quorum_fails
quorum_fails-rejects t power v true true fits r =
    rw (options_of-options_at power v true fits) (tally_rejects-rejects v.no _ t r)
quorum_fails-rejects t power v false true fits r = refl
quorum_fails-rejects t power v met false fits r =
    rw (options_of-options_at power v false fits) (tally_rejects-rejects v.no _ t r)

tally_fails-fails :
    (t : Threshold) (power : ℕ) (v : Votes) (closed : Bool)
    → Fits power v
    → IsValid t
    → tally_fails t power v closed ≡ ok (fails t power v closed)
unfolding tally_fails fails
tally_fails-fails (absolute_percentage q) power v closed fits h =
    ground (arith, tally_rejects-rejects v.no (power - v.abstain) q (Passing-Reachable q h))
tally_fails-fails (threshold_quorum t q) power v closed fits h =
    rw (total-cast {E = StdError} v (omega arith))
      (quorum_fails-rejects t power v _ closed fits (Passing-Reachable t h.0))
tally_fails-fails (absolute_count n) power v closed fits h =
    ground (arith, total-cast {E = StdError} v)

pub consider-Fits :
    (p : SingleChoiceProposal) (closed : Bool)
    → IsWellFormed p
    → Fits p.total_power (votes_to_consider p closed)
unfolding votes_to_consider
consider-Fits p true w = w.votes_fit
consider-Fits p false w = w.individual_fit

module _ (cw : CwUtils) (p : SingleChoiceProposal) (block : BlockInfo) where
  abbrev pub closed_at : Bool
  closed_at = cw.is_expired p.expiration block

  -- Revoting leaves everything undecided until voting has closed.
  abbrev pub undecided_at : Bool
  undecided_at = p.allow_revoting && not closed_at

  unfoldable pub passed_at : Bool
  passed_at =
      not undecided_at
      && min_period_over cw p.min_voting_period block
      && passes p.threshold p.total_power (votes_to_consider p closed_at) closed_at

  unfoldable pub rejected_at : Bool
  rejected_at =
      not undecided_at && fails p.threshold p.total_power (votes_to_consider p closed_at) closed_at

  -- On a well-formed proposal `is_passed` does not panic. It holds exactly if the vote is decided,
  -- the minimum voting period is over and the tally that counts passes the threshold.
  pub is_passed-passed_at : IsWellFormed p → is_passed cw p block ≡ ok passed_at
  unfolding is_passed passed_at
  is_passed-passed_at w = ground (
    arith,
    tally_passes-passes p.threshold p.total_power (votes_to_consider p closed_at) closed_at
        (consider-Fits p closed_at w),
  )

  -- On a well-formed proposal `is_rejected` does not panic. It holds exactly if the vote is decided
  -- and the tally that counts fails the threshold.
  pub is_rejected-rejected_at : IsWellFormed p → is_rejected cw p block ≡ ok rejected_at
  unfolding is_rejected rejected_at
  is_rejected-rejected_at w = ground (
    arith,
    tally_fails-fails p.threshold p.total_power (votes_to_consider p closed_at) closed_at
        (consider-Fits p closed_at w) w.threshold_valid,
  )
