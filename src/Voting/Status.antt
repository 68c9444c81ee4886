-- ===== src/Voting/Status.antt =====
-- packages/dao-voting/src/status.rs
use dao_contracts.Prelude.{Bool, true, false, ◌==◌}
use dao_contracts.Cosmwasm.{Expiration, at_height, at_time, never}

pub data Status : Type 0 where
  open_for_votes rejected passed executed closed execution_failed vetoed : Status
  veto_timelock : Expiration → Status

unfoldable pub same_expiration : Expiration → Expiration → Bool
same_expiration (at_height a) (at_height b) = a == b
same_expiration (at_time a) (at_time b) = a == b
same_expiration never never = true
same_expiration _ _ = false

-- Whether two statuses print alike, which is how the hooks compare them.
unfoldable pub same_status : Status → Status → Bool
unfolding same_expiration
same_status open_for_votes open_for_votes = true
same_status rejected rejected = true
same_status passed passed = true
same_status executed executed = true
same_status closed closed = true
same_status execution_failed execution_failed = true
same_status vetoed vetoed = true
same_status (veto_timelock a) (veto_timelock b) = same_expiration a b
same_status _ _ = false
