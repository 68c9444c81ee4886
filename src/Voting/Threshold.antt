-- ===== src/Voting/Threshold.antt =====
-- packages/dao-voting/src/threshold.rs
use dao_contracts.Prelude.{
  ℕ, ◌≤◌, ◌<◌, ◌≡◌, ◌↔◌, arith, ltb, ◌==◌, if◌then◌else◌, Outcome, ok, err, ◌>>◌,
}
use dao_contracts.Cosmwasm.{Decimal, decimal_one}

pub data ActiveThreshold : Type 0 where
  absolute_count : ℕ → ActiveThreshold
  percentage : Decimal → ActiveThreshold

pub data ActiveThresholdError : Type 0 where
  invalid_absolute_count invalid_active_percentage zero_active_count : ActiveThresholdError

pub data ThresholdError : Type 0 where
  zero_threshold unreachable_threshold : ThresholdError

pub data PercentageThreshold : Type 0 where
  majority : PercentageThreshold
  percent : Decimal → PercentageThreshold

pub data Threshold : Type 0 where
  absolute_percentage : PercentageThreshold → Threshold
  threshold_quorum : PercentageThreshold → PercentageThreshold → Threshold
  absolute_count : ℕ → Threshold

pub assert_valid_absolute_count_threshold : ℕ → ℕ → Outcome ActiveThresholdError Unit
assert_valid_absolute_count_threshold count supply =
    if count == 0
    then err zero_active_count
    else if ltb supply count
    then err invalid_absolute_count
    else ok tt

pub assert_valid_percentage_threshold : Decimal → Outcome ActiveThresholdError Unit
assert_valid_percentage_threshold p =
    if p == 0
    then err invalid_active_percentage
    else if ltb decimal_one p
    then err invalid_active_percentage
    else ok tt

unfoldable pub validate_percentage : PercentageThreshold → Outcome ThresholdError Unit
validate_percentage (percent p) =
    if p == 0
    then err zero_threshold
    else if ltb decimal_one p
    then err unreachable_threshold
    else ok tt
validate_percentage majority = ok tt

unfoldable pub validate_quorum : PercentageThreshold → Outcome ThresholdError Unit
validate_quorum majority = ok tt
validate_quorum (percent q) = if ltb decimal_one q then err unreachable_threshold else ok tt

-- `Threshold::validate`
unfoldable pub validate : Threshold → Outcome ThresholdError Unit
unfolding validate_percentage validate_quorum
validate (absolute_percentage p) = validate_percentage p
validate (threshold_quorum t q) = validate_percentage t >> validate_quorum q
validate (Threshold.absolute_count t) = if t == 0 then err zero_threshold else ok tt

-- A percentage that can be reached, and one that moreover asks for something.
abbrev pub Reachable : PercentageThreshold → Type 0
Reachable majority = Unit
Reachable (percent p) = p ≤ decimal_one

abbrev pub Passing : PercentageThreshold → Type 0
Passing majority = Unit
Passing (percent p) = (0 < p) × (p ≤ decimal_one)

-- What the doc comment of `validate` asks for.
abbrev pub IsValid : Threshold → Type 0
IsValid (absolute_percentage p) = Passing p
IsValid (threshold_quorum t q) = Passing t × Reachable q
IsValid (Threshold.absolute_count t) = 0 < t

-- `validate` accepts exactly the thresholds whose passing percentages lie above 0% and at most at
-- 100%, whose quorum is at most 100%, and whose absolute count is not zero.
pub validate_iff : (t : Threshold) → (validate t ≡ ok tt) ↔ IsValid t
unfolding validate validate_percentage validate_quorum
validate_iff (absolute_percentage majority) = ground arith
validate_iff (absolute_percentage (percent p)) = ground arith
validate_iff (threshold_quorum majority majority) = ground arith
validate_iff (threshold_quorum majority (percent q)) = ground arith
validate_iff (threshold_quorum (percent p) majority) = ground arith
validate_iff (threshold_quorum (percent p) (percent q)) = ground arith
validate_iff (Threshold.absolute_count t) = ground arith
