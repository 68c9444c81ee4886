-- ===== src/Voting/Votes/Exclusion.antt =====
-- When a tally both passes and fails. The comment of `compare_vote_count` says never; rounding down
-- leaves a gap of 10^9 atomics.
use dao_contracts.Prelude.{ℕ, ◌+◌, ◌-◌, ◌*◌, ◌^◌, ◌≤◌, ◌<◌, ◌≡◌, ap, ◌↔◌, true, false, arith, ok}
use dao_contracts.Cosmwasm.{Decimal, decimal_one}
use dao_contracts.Voting.Threshold.{majority, percent}
use dao_contracts.Voting.Votes.{does_vote_count_pass, does_vote_count_fail}

mul_split : (o p q n : ℕ) → q + p ≡ n → o * q + o * p ≡ o * n
mul_split o p q n h = omega (arith, ap (λ (t : ℕ). o * t) h)

pub mul_sub : (o p : ℕ) → p ≤ decimal_one → o * (decimal_one - p) + o * p ≡ o * decimal_one
mul_sub o p h = mul_split o p (decimal_one - p) decimal_one (omega arith)

module _ (weight options : ℕ) (p : Decimal) (some_options : 0 < options) where
  -- A percentage is met up to less than 10^9 atomics of a vote.
  pub pass_percent_iff :
      (does_vote_count_pass weight options (percent p) ≡ true)
      ↔ (options * p < weight * decimal_one + 10 ^ 9)
  unfolding does_vote_count_pass
  pass_percent_iff = ground arith

  pub fail_percent_iff :
      {E : Type 0}
      → p ≤ decimal_one
      → (does_vote_count_fail {E = E} weight options (percent p) ≡ ok true)
        ↔ (options * decimal_one < weight * decimal_one + options * p)
  unfolding does_vote_count_fail
  fail_percent_iff h = ground (arith, mul_sub options p h)

-- Of a tally that fits its options, a percentage threshold is reported as passed and failed at once
-- exactly if nobody is undecided and the yes votes fall short of the percentage by less than 10^9
-- atomics of a vote.
pub passed_and_failed_iff :
    (yeas nays options : ℕ) (p : Decimal)
    → 0 < options
    → yeas + nays ≤ options
    → p ≤ decimal_one
    → ((does_vote_count_pass yeas options (percent p) ≡ true)
        × (does_vote_count_fail {E = ⊥} nays options (percent p) ≡ ok true))
      ↔ ((yeas + nays ≡ options)
          × (yeas * decimal_one < options * p)
          × (options * p < yeas * decimal_one + 10 ^ 9))
passed_and_failed_iff yeas nays options p pos fits h = (
  (λ both.
      let a = (pass_percent_iff yeas options p pos).0 both.0 in
      let b = (fail_percent_iff nays options p pos h).0 both.1 in (omega arith, omega arith, a)),
  (λ gap. (
    (pass_percent_iff yeas options p pos).1 gap.2,
    (fail_percent_iff nays options p pos h).1 (omega arith),
  )),
)

-- A simple majority is never passed and failed at once.
pub majority-exclusion :
    {E : Type 0} (yeas nays options : ℕ)
    → yeas + nays ≤ options
    → does_vote_count_pass yeas options majority ≡ true
    → does_vote_count_fail {E = E} nays options majority ≡ ok false
unfolding does_vote_count_pass does_vote_count_fail
majority-exclusion yeas nays options fits h = ground arith
