-- ===== src/Single/Proposal/Exclusive.antt =====
-- No proposal is passed and rejected at once, if its threshold has at most nine decimals.
use dao_contracts.Prelude.{
  ℕ, ◌+◌, ◌-◌, ◌*◌, ◌/◌, ◌%◌, ◌^◌, ◌≤◌, ◌≡◌, ap, Bool, true, false, arith, ok, &&-eq-true,
}
use native.Mathlib.Nat.{le_refl}
use dao_contracts.Cosmwasm.{BlockInfo, CwUtils}
use dao_contracts.Voting.Threshold.{
  PercentageThreshold, majority, percent, Threshold, absolute_percentage, threshold_quorum,
  absolute_count, IsValid, Passing,
}
use dao_contracts.Voting.Votes.{Votes, compare_vote_count, does_vote_count_pass}
use dao_contracts.Voting.Votes.Exclusion.{mul_sub, pass_percent_iff}
use dao_contracts.Voting.Votes.Stable.{pass_options}
use dao_contracts.Single.Proposal.{
  SingleChoiceProposal, votes_to_consider, is_unanimous, is_passed, is_rejected,
}
use dao_contracts.Single.Proposal.Reference.{
  Fits, IsWellFormed, passes, rejects, fails, closed_at, passed_at, rejected_at, consider-Fits,
  is_passed-passed_at, is_rejected-rejected_at,
}
use dao_contracts.Single.Proposal.Early.{IsFine, HasFinePass}

fine_mul_by : (o p k : ℕ) → p ≡ 10 ^ 9 * k → o * p ≡ 10 ^ 9 * (o * k)
fine_mul_by o p k e = omega (arith, ap (λ (t : ℕ). o * t) e)

fine_mul : (o p : ℕ) → p % 10 ^ 9 ≡ 0 → o * p ≡ 10 ^ 9 * (o * (p / 10 ^ 9))
fine_mul o p h = let e : p ≡ 10 ^ 9 * (p / 10 ^ 9) = omega arith in fine_mul_by o p (p / 10 ^ 9) e

pass_not_rejects :
    (yeas nays options : ℕ) (t : PercentageThreshold)
    → Passing t
    → IsFine t
    → yeas + nays ≤ options
    → does_vote_count_pass yeas options t ≡ true
    → rejects nays options t ≡ false
unfolding is_unanimous
pass_not_rejects yeas nays options majority v f fits h = unfold does_vote_count_pass in ground arith
pass_not_rejects yeas nays options (percent p) v f fits h =
    let pos = pass_options yeas options (percent p) h in
    let met = (pass_percent_iff yeas options p pos).0 h in
    unfold compare_vote_count in ground (arith, met, mul_sub options p v.1, fine_mul options p f)

passes_not_fails :
    (t : Threshold) (power : ℕ) (v : Votes) (closed : Bool)
    → IsValid t
    → HasFinePass t
    → Fits power v
    → passes t power v closed ≡ true
    → fails t power v closed ≡ false
unfolding passes fails
passes_not_fails (absolute_percentage t) power v closed valid fine fits h =
    pass_not_rejects v.yes v.no (power - v.abstain) t valid fine (omega arith) h
passes_not_fails (threshold_quorum t q) power v true valid fine fits h =
    ground (arith, pass_not_rejects v.yes v.no (v.yes + v.no) t valid.0 fine (le_refl _))
passes_not_fails (threshold_quorum t q) power v false valid fine fits h =
    pass_not_rejects v.yes v.no (power - v.abstain) t valid.0 fine (omega arith)
      (&&-eq-true _ _ h).1
passes_not_fails (absolute_count n) power v closed valid fine fits h = ground arith

-- A well-formed proposal whose threshold has at most nine decimals is at no block both passed and
-- rejected.
pub passed_not_rejected :
    (cw : CwUtils) (p : SingleChoiceProposal) (block : BlockInfo)
    → IsWellFormed p
    → HasFinePass p.threshold
    → is_passed cw p block ≡ ok true
    → is_rejected cw p block ≡ ok false
unfolding passed_at rejected_at
passed_not_rejected cw p block w fine h =
    let closed = closed_at cw p block in
    ground (
      arith,
      is_passed-passed_at cw p block w,
      is_rejected-rejected_at cw p block w,
      passes_not_fails p.threshold p.total_power (votes_to_consider p closed) closed
          w.threshold_valid fine (consider-Fits p closed w),
    )
