-- ===== src/Single/Proposal/Early.antt =====
-- An early outcome is final: what the proposal reports before it expires holds whatever votes
-- follow.
use dao_contracts.Prelude.{
  ℕ, ◌-◌, ◌*◌, ◌%◌, ◌^◌, ◌≤◌, ◌<◌, ◌≡◌, Bool, true, false, not, ◌&&◌, arith, ok, &&-eq-true,
  &&-intro, ||-intro_right, Option, none, some,
}
use dao_contracts.Cosmwasm.{Expiration, BlockInfo, Later, CwUtils, decimal_one}
use dao_contracts.Voting.Threshold.{
  PercentageThreshold, majority, percent, Threshold, absolute_percentage, threshold_quorum,
  absolute_count, IsValid, Passing,
}
use dao_contracts.Voting.Votes.{Votes, does_vote_count_pass}
use dao_contracts.Voting.Votes.Tally.{cast}
use dao_contracts.Voting.Votes.Exclusion.{pass_percent_iff}
use dao_contracts.Voting.Votes.Stable.{
  compare_greater_mono, pass_options, does_vote_count_pass_mono,
}
use dao_contracts.Single.Proposal.{
  SingleChoiceProposal, votes_to_consider, is_unanimous, min_period_over, is_passed, is_rejected,
}
use dao_contracts.Single.Proposal.Reference.{
  Fits, IsWellFormed, options_at, passes, rejects, fails, passed_at, rejected_at,
  is_passed-passed_at, is_rejected-rejected_at,
}

-- No option has lost votes.
pub record Grows (v w : Votes) : Type 0 where
  pub yeas : v.yes ≤ w.yes
  pub nays : v.no ≤ w.no
  pub abstentions : v.abstain ≤ w.abstain

-- A percentage with at most nine decimals, the precision of the comparison.
abbrev pub IsFine : PercentageThreshold → Type 0
IsFine majority = Unit
IsFine (percent p) = p % 10 ^ 9 ≡ 0

abbrev pub HasFinePass : Threshold → Type 0
HasFinePass (absolute_percentage t) = IsFine t
HasFinePass (threshold_quorum t q) = IsFine t
HasFinePass (absolute_count n) = Unit

le_mul : (o p : ℕ) → 0 < o → p ≤ o * p
le_mul o p h = grind arith

fine_pos : (p : ℕ) → 0 < p → p % 10 ^ 9 ≡ 0 → 10 ^ 9 ≤ p
fine_pos p h e = omega arith

-- Nothing passes a fine threshold without a yes vote.
pass_needs_yes :
    (w o : ℕ) (t : PercentageThreshold)
    → Passing t
    → IsFine t
    → does_vote_count_pass w o t ≡ true
    → 0 < w
pass_needs_yes w o majority v f h = unfold does_vote_count_pass in ground arith
pass_needs_yes w o (percent p) v f h =
    let pos = pass_options w o (percent p) h in
    omega (arith, (pass_percent_iff w o p pos).0 h, le_mul o p pos, fine_pos p v.0 f)

options_grow :
    (power : ℕ) (v w : Votes) (closed : Bool)
    → Fits power w
    → Grows v w
    → 0 < v.yes
    → (options_at power w closed ≤ power - v.abstain) × (0 < options_at power w closed)
options_grow power v w true fits g h = omega arith
options_grow power v w false fits g h = omega arith

options_shrink :
    (power : ℕ) (v w : Votes) (closed : Bool)
    → Fits power w
    → Grows v w
    → options_at power w closed ≤ power - v.abstain
options_shrink power v w true fits g = omega arith
options_shrink power v w false fits g = omega arith

passes-Grows :
    (t : Threshold) (power : ℕ) (v w : Votes) (closed : Bool)
    → IsValid t
    → HasFinePass t
    → Fits power w
    → Grows v w
    → passes t power v false ≡ true
    → passes t power w closed ≡ true
unfolding passes
passes-Grows (absolute_percentage t) power v w closed valid fine fits g h =
    does_vote_count_pass_mono v.yes w.yes (power - v.abstain) (power - w.abstain) t g.yeas
      (omega arith) (omega (arith, pass_needs_yes v.yes (power - v.abstain) t valid fine h)) h
passes-Grows (threshold_quorum t q) power v w closed valid fine fits g h =
    let (quorum, majority_met) = &&-eq-true _ _ h in
    let some_yes = pass_needs_yes v.yes (power - v.abstain) t valid.0 fine majority_met in
    let (fewer, some_options) = options_grow power v w closed fits g some_yes in
    &&-intro
      (does_vote_count_pass_mono (cast v) (cast w) power power q (omega arith) (omega arith)
        (pass_options (cast v) power q quorum) quorum)
      (does_vote_count_pass_mono v.yes w.yes (power - v.abstain) (options_at power w closed) t
        g.yeas fewer some_options majority_met)
passes-Grows (absolute_count n) power v w closed valid fine fits g h = ground arith

rejects_grows :
    (n n' o o' : ℕ) (t : PercentageThreshold)
    → n ≤ n'
    → o' ≤ o
    → rejects n o t ≡ true
    → rejects n' o' t ≡ true
unfolding is_unanimous
rejects_grows n n' o o' majority hn ho h = ground arith
rejects_grows n n' o o' (percent p) hn ho h =
    ground (arith, compare_greater_mono n n' o o' (decimal_one - p) hn ho)

fails-Grows :
    (t : Threshold) (power : ℕ) (v w : Votes) (closed : Bool)
    → Fits power w
    → Grows v w
    → fails t power v false ≡ true
    → fails t power w closed ≡ true
unfolding fails
fails-Grows (absolute_percentage t) power v w closed fits g h =
    rejects_grows v.no w.no (power - v.abstain) (power - w.abstain) t g.nays (omega arith) h
fails-Grows (threshold_quorum t q) power v w closed fits g h =
    ||-intro_right (closed && not (does_vote_count_pass (cast w) power q)) (
      rejects_grows v.no w.no (power - v.abstain) (options_at power w closed) t g.nays
        (options_shrink power v w closed fits g) h)
fails-Grows (absolute_count n) power v w closed fits g h = ground arith

module _ (cw : CwUtils) (p : SingleChoiceProposal) (v w : Votes) (a b : BlockInfo)
    (before : IsWellFormed p) (after : IsWellFormed (record p { votes = v; individual_votes = w }))
    (open_still : cw.is_expired p.expiration a ≡ false) (more_votes : Grows p.individual_votes v)
    (more_individual_votes : Grows p.individual_votes w) (later : Later a b) where
  period_stays :
      min_period_over cw p.min_voting_period a ≡ true
      → min_period_over cw p.min_voting_period b ≡ true
  unfolding min_period_over
  period_stays h = period (p.min_voting_period) h
    where
      period :
          (m : Option Expiration) → min_period_over cw m a ≡ true → min_period_over cw m b ≡ true
      period none e = e
      period (some min) e = cw.is_expired_stays min a b later e

  -- A well-formed proposal that is reported as passed before it expires is passed at every later block,
  -- expired or not, whatever votes are added to the individual tally and whatever the tally with
  -- delegations is, as long as each counts at least the individual votes there were and fits the
  -- total power. The threshold has at most nine decimals.
  pub early_pass_stays :
      HasFinePass p.threshold
      → is_passed cw p a ≡ ok true
      → is_passed cw (record p { votes = v; individual_votes = w }) b ≡ ok true
  unfolding passed_at votes_to_consider
  early_pass_stays fine h = ground (
    arith,
    is_passed-passed_at cw p a before,
    is_passed-passed_at cw (record p { votes = v; individual_votes = w }) b after,
    period_stays,
    passes-Grows p.threshold p.total_power p.individual_votes v true before.threshold_valid fine
        after.votes_fit more_votes,
    passes-Grows p.threshold p.total_power p.individual_votes w false before.threshold_valid fine
        after.individual_fit more_individual_votes,
  )

  -- A well-formed proposal that is reported as rejected before it expires is rejected at every later
  -- block,
  -- under the same conditions on the tallies and for any threshold.
  pub early_rejection_stays :
      is_rejected cw p a ≡ ok true
      → is_rejected cw (record p { votes = v; individual_votes = w }) b ≡ ok true
  unfolding rejected_at votes_to_consider
  early_rejection_stays h = ground (
    arith,
    is_rejected-rejected_at cw p a before,
    is_rejected-rejected_at cw (record p { votes = v; individual_votes = w }) b after,
    fails-Grows p.threshold p.total_power p.individual_votes v true after.votes_fit more_votes,
    fails-Grows p.threshold p.total_power p.individual_votes w false after.individual_fit
        more_individual_votes,
  )
