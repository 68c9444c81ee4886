-- ===== src/Voting/Veto.antt =====
-- packages/dao-voting/src/veto.rs, and `validate_voting_period` of voting.rs
use dao_contracts.Prelude.{
  Bool, Option, none, some, leb, ◌==◌, guard, Outcome, ok, err, ◌>>=◌, ◌>>◌, map_err,
}
use dao_contracts.Cosmwasm.{Addr, StdError, Duration, height, time}
use dao_contracts.Voting.Status.{Status}

pub data VetoError : Type 0 where
  std : StdError → VetoError
  invalid_proposal_status : Status → VetoError
  no_early_execute no_veto_configuration no_veto_before_passed timelocked timelock_expired :
      VetoError
  timelock_duration_unit_mismatch unauthorized : VetoError

pub record VetoConfig : Type 0 where
  pub timelock_duration : Duration
  pub vetoer : Addr
  pub early_execute : Bool
  pub veto_before_passed : Bool

unfoldable pub check_units : Duration → Duration → Outcome VetoError Unit
check_units (time _) (time _) = ok tt
check_units (height _) (height _) = ok tt
check_units _ _ = err timelock_duration_unit_mismatch

-- `VetoConfig::validate`, over the chain's validation of an address
unfoldable pub validate :
    (Addr → Outcome StdError Addr) → VetoConfig → Duration → Outcome VetoError Unit
unfolding check_units
validate addr_validate c max_voting_period = do
  vetoer ← map_err std (addr_validate c.vetoer)
  check_units c.timelock_duration max_voting_period

unfoldable pub check_early_execute_enabled : VetoConfig → Outcome VetoError Unit
check_early_execute_enabled c = guard c.early_execute no_early_execute

unfoldable pub check_is_vetoer : VetoConfig → Addr → Outcome VetoError Unit
check_is_vetoer c sender = guard (c.vetoer == sender) unauthorized

unfoldable pub check_veto_before_passed_enabled : VetoConfig → Outcome VetoError Unit
check_veto_before_passed_enabled c = guard c.veto_before_passed no_veto_before_passed

pub data VotingError : Type 0 where
  duration_units_conflict invalid_min_voting_period : VotingError

unfoldable pub check_min : Duration → Duration → Outcome VotingError Unit
check_min (time a) (time b) = guard (leb a b) invalid_min_voting_period
check_min (height a) (height b) = guard (leb a b) invalid_min_voting_period
check_min _ _ = err duration_units_conflict

unfoldable pub validate_voting_period :
    Option Duration → Duration → Outcome VotingError (Option Duration × Duration)
unfolding check_min
validate_voting_period none max = ok (none, max)
validate_voting_period (some min) max = do check_min min max; ok (some min, max)
