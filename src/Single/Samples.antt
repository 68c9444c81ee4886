-- ===== src/Single/Samples.antt =====
-- A chain, proposals and states for the tests of the proposal module.
use dao_contracts.Prelude.{
  ℕ, ◌+◌, ◌≡◌, Bool, true, false, none, [], ◌∷◌, arith, leb, Outcome, ok, err,
}
use dao_contracts.Cosmwasm.{
  BlockInfo, Duration, Expiration, at_height, at_time, never, Later, CwUtils, StdError,
}
use dao_contracts.Voting.Threshold.{
  majority, percent, Threshold, absolute_percentage, threshold_quorum,
}
use dao_contracts.Voting.Votes.{Votes, Vote, zero_votes}
use dao_contracts.Voting.Status.{Status, open_for_votes, executed}
use dao_contracts.Voting.Policy.{anyone}
use dao_contracts.Voting.Veto.{VetoConfig}
use dao_contracts.Single.Proposal.{SingleChoiceProposal}
use dao_contracts.Single.State.{State, Chain}
use dao_contracts.Single.Contract.Vote.{save_proposal}
use dao_contracts.Single.Contract.Admin.{Settings}

-- An instance of the functions of cw_utils, by height and time.
abbrev pub expires : Expiration → BlockInfo → Bool
expires (at_height h) b = leb h b.height
expires (at_time t) b = leb t b.time
expires never b = false

abbrev pub from_now : Duration → BlockInfo → Outcome StdError Expiration
from_now (Duration.height d) b = ok (at_height (b.height + d))
from_now (Duration.time d) b = ok (at_time (b.time + d))

abbrev pub extended : Expiration → Duration → Outcome StdError Expiration
extended (at_height h) (Duration.height d) = ok (at_height (h + d))
extended (at_time t) (Duration.time d) = ok (at_time (t + d))
extended never d = ok never
extended _ _ = err StdError.generic_err

pub expires_stays :
    (e : Expiration) (a b : BlockInfo) → Later a b → expires e a ≡ true → expires e b ≡ true
expires_stays (at_height h) a b l e = ground arith
expires_stays (at_time t) a b l e = ground arith
expires_stays never a b l e = e

abbrev pub utils : CwUtils
utils = record {
  is_expired = expires;
  after = from_now;
  add = extended;
  is_expired_stays = expires_stays;
}

abbrev pub block_at : ℕ → BlockInfo
block_at h = record { height = h; time = h }

-- Every member has a power of 10, of 30 in all, and nobody delegates.
abbrev pub chain : Chain
chain = record {
  contract = 7;
  addr_validate = λ a. ok a;
  is_active = λ dao. ok true;
  voting_power = λ dao voter height. ok 10;
  total_power = λ dao height. ok 30;
  unvoted_delegated_power = λ dm voter id height. none;
  delegations = λ dm delegator height. ok [];
  power_reduction = λ dm id height delegate vp. ok vp;
  proposal_size = λ p. ok 200;
}

abbrev pub settings : Settings
settings = record {
  threshold = absolute_percentage majority;
  max_voting_period = Duration.height 100;
  min_voting_period = none;
  only_members_execute = true;
  allow_revoting = false;
  close_proposal_on_execution_failure = true;
  veto = none;
}

-- A proposal of a total power of 30, with the given votes.
abbrev pub proposal : Threshold → Votes → Status → SingleChoiceProposal
proposal t v st = record {
  title = "raise";
  description = "pay more";
  proposer = 1;
  start_height = 5;
  min_voting_period = none;
  expiration = at_height 105;
  threshold = t;
  total_power = 30;
  msgs = [];
  status = st;
  votes = v;
  individual_votes = v;
  allow_revoting = false;
  veto = none;
  delegation_module = none;
}

abbrev pub votes_at : ℕ → ℕ → ℕ → Votes
votes_at y n a = record { yes = y; no = n; abstain = a }

abbrev pub sixty : Threshold
sixty = threshold_quorum (percent 600000000000000000) (percent 200000000000000000)

abbrev pub ahead : SingleChoiceProposal
ahead = proposal sixty (votes_at 20 0 0) open_for_votes

abbrev pub behind : SingleChoiceProposal
behind = proposal sixty (votes_at 0 20 0) open_for_votes

abbrev pub mixed : Votes
mixed = votes_at 20 5 5

abbrev pub mixed_against : Votes
mixed_against = votes_at 5 20 5

abbrev pub half : Threshold
half = absolute_percentage majority

abbrev pub start : State
start = record {
  config = record {
    threshold = half;
    max_voting_period = Duration.height 100;
    min_voting_period = none;
    only_members_execute = true;
    allow_revoting = false;
    dao = 9;
    close_proposal_on_execution_failure = true;
    veto = none;
  };
  proposal_count = 0;
  proposals = λ id. none;
  ballots = [];
  proposal_hooks = none;
  vote_hooks = none;
  creation_policy = anyone;
  delegation_module = none;
}

abbrev pub proposed : State
proposed = record start {
  proposal_count = 1;
  proposals = save_proposal start.proposals 1 (proposal half zero_votes open_for_votes);
}

abbrev pub voted : State
voted = record proposed {
  proposals = save_proposal proposed.proposals 1 (proposal half (votes_at 10 0 0) open_for_votes);
  ballots =
      (record {
        proposal_id = 1;
        voter = 2;
        ballot = record { power = 10; individual_power = 10; vote = Vote.yes; rationale = none };
      })
      ∷ [];
}

-- A module whose only proposal has passed by majority, with no ballot kept.
abbrev pub with_proposal : SingleChoiceProposal → State
with_proposal p = record start { proposal_count = 1; proposals = save_proposal start.proposals 1 p }

abbrev pub vetoable : VetoConfig
vetoable = record {
  timelock_duration = Duration.height 10;
  vetoer = 4;
  early_execute = true;
  veto_before_passed = true;
}

abbrev pub winning : SingleChoiceProposal
winning = proposal half (votes_at 20 0 0) open_for_votes

abbrev pub losing : SingleChoiceProposal
losing = proposal half (votes_at 0 20 0) open_for_votes

abbrev pub ended : SingleChoiceProposal
ended = proposal half zero_votes executed
