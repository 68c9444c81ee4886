-- ===== src/Voting/Votes/Stable.antt =====
-- More yes votes and fewer options keep a tally passed; more no votes and fewer options keep it
-- failed.
use dao_contracts.Prelude.{ℕ, zero, suc, ◌+◌, ◌-◌, ◌*◌, ◌≤◌, ◌<◌, ◌≡◌, refl, true, arith, ok}
use mathlib.Core.Path.{subst₂}
use dao_contracts.Cosmwasm.{Decimal, decimal_one}
use dao_contracts.Voting.Threshold.{PercentageThreshold, majority, percent, Reachable}
use dao_contracts.Voting.Votes.{
  greater, compare_vote_count, does_vote_count_pass, does_vote_count_fail,
}
use dao_contracts.Voting.Votes.Exclusion.{pass_percent_iff, fail_percent_iff}

mul_le : (a b p : ℕ) → a ≤ b → a * p ≤ b * p
mul_le a b p h = grind arith

pub pass_options : (w o : ℕ) (t : PercentageThreshold) → does_vote_count_pass w o t ≡ true → 0 < o
unfolding does_vote_count_pass
pass_options w o majority h = ground arith
pass_options w o (percent p) h = ground arith

pub does_vote_count_pass_mono :
    (w w' o o' : ℕ) (t : PercentageThreshold)
    → w ≤ w'
    → o' ≤ o
    → 0 < o'
    → does_vote_count_pass w o t ≡ true
    → does_vote_count_pass w' o' t ≡ true
unfolding does_vote_count_pass
does_vote_count_pass_mono w w' o o' majority hw ho pos h = ground arith
does_vote_count_pass_mono w w' o o' (percent p) hw ho pos h =
    (pass_percent_iff w' o' p pos).1
      (omega (arith, (pass_percent_iff w o p (omega arith)).0 h, mul_le o' o p ho))

expand : (o d p q : ℕ) → o * (p + q) + (o + d) * p ≤ (o + d) * (p + q) + o * p
expand o d p q = omega arith

-- Fewer options take away at most as much from the percentage as from the whole.
fewer_options : (o o' n p : ℕ) → o' ≤ o → p ≤ n → o' * n + o * p ≤ o * n + o' * p
fewer_options o o' n p ho hp =
    let eo : o' + (o - o') ≡ o = omega arith in
    let en : p + (n - p) ≡ n = omega arith in
    subst₂ (λ x y. o' * y + x * p ≤ x * y + o' * p) eo en (expand o' (o - o') p (n - p))

pub does_vote_count_fail_mono :
    {E : Type 0} (w w' o o' : ℕ) (t : PercentageThreshold)
    → Reachable t
    → w ≤ w'
    → o' ≤ o
    → does_vote_count_fail {E = E} w o t ≡ ok true
    → does_vote_count_fail {E = E} w' o' t ≡ ok true
unfolding does_vote_count_fail
does_vote_count_fail_mono w w' o o' majority r hw ho h = ground arith
does_vote_count_fail_mono w w' o zero (percent p) r hw ho h = refl
does_vote_count_fail_mono w w' o (suc o') (percent p) r hw ho h =
    (fail_percent_iff w' (suc o') p (omega arith) r).1 (
      omega (
        arith,
        (fail_percent_iff w o p (omega arith) r).0 h,
        fewer_options o (suc o') decimal_one p ho r,
      ))

pub compare_greater_mono :
    (w w' o o' : ℕ) (q : Decimal)
    → w ≤ w'
    → o' ≤ o
    → compare_vote_count w greater o q ≡ true
    → compare_vote_count w' greater o' q ≡ true
unfolding compare_vote_count
compare_greater_mono w w' o o' q hw ho h = ground (arith, mul_le o' o q ho)
