-- ===== src/Single/Proposal.antt =====
-- contracts/proposal/dao-proposal-single/src/proposal.rs: a proposal and its status. The proofs are
-- in the modules below.
pub mod Reference
pub mod Early
pub mod Exclusive
pub mod Update
pub mod Reasons
pub mod Decided
use dao_contracts.Prelude.{
  ℕ, ◌+◌, String, Bool, true, false, not, ◌&&◌, Option, none, some, List, ltb, leb, ◌==◌,
  if◌then◌else◌, Outcome, ok, ◌>>=◌,
}
use dao_contracts.Cosmwasm.{
  Addr, CosmosMsg, StdError, Expiration, BlockInfo, CwUtils, decimal_one, add128, sub128,
}
use dao_contracts.Voting.Threshold.{
  PercentageThreshold, majority, percent, Threshold, absolute_percentage, threshold_quorum,
  absolute_count,
}
use dao_contracts.Voting.Votes.{Votes, does_vote_count_pass, does_vote_count_fail, total}
use dao_contracts.Voting.Status.{Status, open_for_votes, rejected, passed, veto_timelock}
use dao_contracts.Voting.Veto.{VetoConfig}

pub record SingleChoiceProposal : Type 0 where
  pub title : String
  pub description : String
  pub proposer : Addr
  pub start_height : ℕ
  pub min_voting_period : Option Expiration
  pub expiration : Expiration
  pub threshold : Threshold
  pub total_power : ℕ
  pub msgs : List CosmosMsg
  pub status : Status
  pub votes : Votes
  pub individual_votes : Votes
  pub allow_revoting : Bool
  pub veto : Option VetoConfig
  pub delegation_module : Option Addr

-- `votes_to_consider`
unfoldable pub votes_to_consider : SingleChoiceProposal → Bool → Votes
votes_to_consider p true = p.votes
votes_to_consider p false = p.individual_votes

-- The options of a quorum vote: the votes cast once voting has closed, and all the power before.
unfoldable pub options_of : ℕ → Votes → Bool → Outcome StdError ℕ
options_of total_power v true = do cast ← total v; sub128 cast v.abstain
options_of total_power v false = sub128 total_power v.abstain

-- The last `match` of `is_passed`.
unfoldable pub tally_passes : Threshold → ℕ → Votes → Bool → Outcome StdError Bool
unfolding options_of
tally_passes (absolute_percentage percentage) total_power v is_expired = do
  options ← sub128 total_power v.abstain
  ok (does_vote_count_pass v.yes options percentage)
tally_passes (threshold_quorum threshold quorum) total_power v is_expired = do
  cast ← total v
  if not (does_vote_count_pass cast total_power quorum) then ok false else do
    options ← options_of total_power v is_expired
    ok (does_vote_count_pass v.yes options threshold)
tally_passes (absolute_count threshold) total_power v is_expired = ok (leb threshold v.yes)

-- `percentage == PercentageThreshold::Percent(Decimal::percent(100))`
unfoldable pub is_unanimous : PercentageThreshold → Bool
is_unanimous majority = false
is_unanimous (percent p) = p == decimal_one

-- A 100% threshold fails by a single no vote, and with no options at all.
unfoldable pub tally_rejects : ℕ → ℕ → PercentageThreshold → Outcome StdError Bool
unfolding is_unanimous
tally_rejects no_votes options percentage =
    if is_unanimous percentage
    then (if options == 0 then ok true else ok (leb 1 no_votes))
    else does_vote_count_fail no_votes options percentage

-- The `match` on whether the quorum is met and voting has closed.
unfoldable pub quorum_fails : PercentageThreshold → ℕ → Votes → Bool → Bool → Outcome StdError Bool
unfolding tally_rejects options_of
quorum_fails threshold total_power v true true = do
  options ← options_of total_power v true
  tally_rejects v.no options threshold
quorum_fails threshold total_power v false true = ok true
quorum_fails threshold total_power v _ false = do
  options ← options_of total_power v false
  tally_rejects v.no options threshold

-- The last `match` of `is_rejected`.
unfoldable pub tally_fails : Threshold → ℕ → Votes → Bool → Outcome StdError Bool
unfolding quorum_fails tally_rejects
tally_fails (absolute_percentage percentage) total_power v is_expired = do
  options ← sub128 total_power v.abstain
  tally_rejects v.no options percentage
tally_fails (threshold_quorum threshold quorum) total_power v is_expired = do
  cast ← total v
  quorum_fails threshold total_power v (does_vote_count_pass cast total_power quorum) is_expired
tally_fails (absolute_count threshold) total_power v is_expired = do
  cast ← total v
  outstanding ← sub128 total_power cast
  reachable ← add128 v.yes outstanding
  ok (ltb reachable threshold)

module _ (cw : CwUtils) where
  -- Whether the minimum voting period, if there is one, is over.
  unfoldable pub min_period_over : Option Expiration → BlockInfo → Bool
  min_period_over none block = true
  min_period_over (some min) block = cw.is_expired min block

  unfoldable pub is_passed : SingleChoiceProposal → BlockInfo → Outcome StdError Bool
  unfolding min_period_over
  is_passed p block =
      let is_expired = cw.is_expired p.expiration block in
      if p.allow_revoting && not is_expired
      then ok false
      else if not (min_period_over p.min_voting_period block)
      then ok false
      else tally_passes p.threshold p.total_power (votes_to_consider p is_expired) is_expired

  unfoldable pub is_rejected : SingleChoiceProposal → BlockInfo → Outcome StdError Bool
  is_rejected p block =
      let is_expired = cw.is_expired p.expiration block in
      if p.allow_revoting && not is_expired
      then ok false
      else tally_fails p.threshold p.total_power (votes_to_consider p is_expired) is_expired

  -- The status of a proposal that has just been found to have passed.
  unfoldable pub status_when_passed :
      Option VetoConfig → Expiration → BlockInfo → Outcome StdError Status
  status_when_passed none expiration block = ok passed
  status_when_passed (some veto_config) expiration block = do
    timelock ← cw.add expiration veto_config.timelock_duration
    ok (if cw.is_expired timelock block then passed else veto_timelock timelock)

  unfoldable pub status_when_open : SingleChoiceProposal → BlockInfo → Outcome StdError Status
  unfolding status_when_passed
  status_when_open p block = do
    is_passed_now ← is_passed p block
    if is_passed_now
        then status_when_passed p.veto p.expiration block
        else if cw.is_expired p.expiration block
        then ok rejected
        else do
          is_rejected_now ← is_rejected p block
          ok (if is_rejected_now then rejected else p.status)

  unfoldable pub status_from : Status → SingleChoiceProposal → BlockInfo → Outcome StdError Status
  unfolding status_when_open
  status_from open_for_votes p block = status_when_open p block
  status_from (veto_timelock expiration) p block =
      ok (if cw.is_expired expiration block then passed else p.status)
  status_from _ p block = ok p.status

  unfoldable pub current_status : SingleChoiceProposal → BlockInfo → Outcome StdError Status
  unfolding status_from
  current_status p block = status_from p.status p block

  unfoldable pub update_status :
      SingleChoiceProposal → BlockInfo → Outcome StdError SingleChoiceProposal
  update_status p block = do
    new_status ← current_status p block
    ok (record p { status = new_status })
