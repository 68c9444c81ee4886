-- ===== src/Condorcet/Tests.antt =====
-- Condorcet proposals at concrete inputs: two choices and none of the above, three voters of one, two
-- and three tokens.
use dao_contracts.Prelude.{
  ℕ, ◌+◌, ◌≡◌, ◌↔◌, refl, true, false, none, List, [], ◌∷◌, arith, ◌==◌, if◌then◌else◌, ok,
}
use dao_contracts.Cosmwasm.{StdError, BlockInfo, Duration, Expiration, CwUtils}
use dao_contracts.Voting.Threshold.{PercentageThreshold}
use dao_contracts.Condorcet.Cell.{Cell, positive, negative, above, below}
use dao_contracts.Condorcet.Cell as Cell
use dao_contracts.Condorcet.Vote.{Vote}
use dao_contracts.Condorcet.Vote
use dao_contracts.Condorcet.Vote.Ballots.{IsRanking, new_iff}
use dao_contracts.Condorcet.Matrix.{M, index, increment, decrement}
use dao_contracts.Condorcet.Matrix.Index.{index-injective}
use dao_contracts.Condorcet.Matrix.Margins.{Represents}
use dao_contracts.Condorcet.Matrix.Empty.{new-Represents}
use dao_contracts.Condorcet.Matrix
use dao_contracts.Condorcet.Tally.{Winner, undisputed, Tally, find_winner, add_vote}
use dao_contracts.Condorcet.Tally.Ranked.{ranked}
use dao_contracts.Condorcet.Tally.Refines.{add_vote-Represents}
use dao_contracts.Condorcet.Tally.Undisputed.{undisputed_stays}
use dao_contracts.Condorcet.Proposal.{Config, Status, Proposal}
use dao_contracts.Condorcet.Contract.{Chain, State, instantiate, execute, propose, vote_for}
use dao_contracts.Condorcet.Counted.Ballots.{IsCounted}
use dao_contracts.Condorcet.Reachable.{instantiated, executed, Reachable-IsCounted}

abbrev ranking : List ℕ
ranking = 1 ∷ 0 ∷ 2 ∷ []

accepted : Vote.new ranking 3 ≡ ok ranking
unfolding Vote.new dao_contracts.Voting.Policy.contains
accepted = refl

new_iff_example : (Vote.new ranking 3 ≡ ok ranking) ↔ IsRanking 3 ranking
new_iff_example = new_iff ranking 3

index_two : index {E = StdError} 4 3 1 ≡ ok 4
unfolding index
index_two = refl

index-injective_example : ◌≡◌ {A = ℕ} 3 3 × ◌≡◌ {A = ℕ} 1 1
index-injective_example =
    index-injective {E = StdError} 4 3 1 3 1 4 (omega arith) (omega arith) index_two index_two

abbrev empty_matrix : M
empty_matrix = record { cells = Cell.zero ∷ Cell.zero ∷ Cell.zero ∷ []; n = 3 }

abbrev empty_tally : Tally
empty_tally = record {
  m = empty_matrix;
  expiration = Expiration.never;
  start_height = 1;
  power_outstanding = 6;
  winner = Winner.none;
}

is_new : Matrix.new {E = StdError} 3 ≡ ok empty_matrix
unfolding Matrix.new
is_new = refl

empty-Represents : Represents StdError empty_matrix (λ a b. 0)
empty-Represents = (new-Represents StdError 3 empty_matrix is_new).1

-- The voter with four of six tokens ranks 1 first.
abbrev won_tally : Tally
won_tally = record empty_tally {
  m = record { cells = positive 4 ∷ negative 4 ∷ negative 4 ∷ []; n = 3 };
  power_outstanding = 2;
  winner = undisputed 1;
}

first_vote : add_vote {E = StdError} ranking 4 empty_tally ≡ ok won_tally
unfolding add_vote decrement Matrix.change_above Cell.increment Cell.decrement Matrix.stats
    Matrix.get Matrix.get_above
first_vote = refl

ranking-IsRanking : IsRanking 3 ranking
ranking-IsRanking = (new_iff ranking 3).0 accepted

add_vote-Represents_example :
    ◌≡◌ {A = ℕ} 3 3
    × Represents StdError won_tally.m (λ a b. 0 + ranked 4 ranking a b)
    × ◌≡◌ {A = ℕ} (2 + 4) 6
    × (find_winner {E = StdError} won_tally.m 2 ≡ ok (undisputed 1))
add_vote-Represents_example =
    add_vote-Represents StdError ranking 4 empty_tally won_tally (λ a b. 0) empty-Represents
      (ranking-IsRanking.known) first_vote

-- The other two tokens rank 0 first.
abbrev second_ranking : List ℕ
second_ranking = 0 ∷ 1 ∷ 2 ∷ []

abbrev final_tally : Tally
final_tally = record empty_tally {
  m = record { cells = positive 2 ∷ negative 6 ∷ negative 6 ∷ []; n = 3 };
  power_outstanding = 0;
  winner = undisputed 1;
}

second_vote : add_vote {E = StdError} second_ranking 2 won_tally ≡ ok final_tally
unfolding add_vote decrement Matrix.change_above Cell.decrement Matrix.stats Matrix.get
    Matrix.get_above
second_vote = refl

second_accepted : Vote.new second_ranking 3 ≡ ok second_ranking
unfolding Vote.new dao_contracts.Voting.Policy.contains
second_accepted = refl

undisputed_stays_example : final_tally.winner ≡ undisputed 1
undisputed_stays_example =
    undisputed_stays StdError second_ranking 2 1 won_tally final_tally
      (λ a b. 0 + ranked 4 ranking a b)
      (add_vote-Represents StdError ranking 4 empty_tally won_tally (λ a b. 0) empty-Represents
        (ranking-IsRanking.known) first_vote).1
      (add_vote-Represents StdError ranking 4 empty_tally won_tally (λ a b. 0) empty-Represents
        (ranking-IsRanking.known) first_vote).3
      ((new_iff second_ranking 3).0 second_accepted) second_vote

-- Nothing expires.
abbrev utils : CwUtils
utils = record {
  is_expired = λ e block. false;
  after = λ d block. ok Expiration.never;
  add = λ e d. ok Expiration.never;
  is_expired_stays = λ e a b later h. h;
}

abbrev chain : Chain
chain = record {
  voting_power = λ voter height. ok (if voter == 1 then 4 else 2);
  total_power = λ height. ok 6;
}

abbrev block : BlockInfo
block = record { height = 1; time = 1 }

abbrev config : Config
config = record {
  quorum = PercentageThreshold.majority;
  voting_period = Duration.height 10;
  min_voting_period = none;
  close_proposals_on_execution_failure = true;
}

abbrev state_0 : State
state_0 = record { dao = 9; config = config; tallies = []; proposals = []; votes = [] }

starts : instantiate 9 config ≡ ok state_0
unfolding instantiate dao_contracts.Condorcet.Proposal.into_checked
    dao_contracts.Voting.Threshold.validate_quorum dao_contracts.Voting.Veto.validate_voting_period
starts = refl

abbrev proposal : Proposal
proposal = record {
  last_status = Status.open_for_votes;
  proposer = 1;
  quorum = PercentageThreshold.majority;
  min_voting_period = none;
  close_on_execution_failure = true;
  total_power = 6;
  id = 1;
  choices = [] ∷ [] ∷ [] ∷ [];
}

abbrev state_1 : State
state_1 = record state_0 { tallies = (1, empty_tally) ∷ []; proposals = (1, proposal) ∷ [] }

abbrev state_2 : State
state_2 = record state_1 {
  tallies = (1, won_tally) ∷ [];
  votes = record { proposal_id = 1; voter = 1; vote = ranking } ∷ [];
}

proposes : execute utils chain block 1 (propose ([] ∷ [] ∷ [])) state_0 ≡ ok (state_1, [])
unfolding execute dao_contracts.Condorcet.Contract.execute_propose
    dao_contracts.Condorcet.Contract.next_proposal_id dao_contracts.Condorcet.Contract.last_key
    dao_contracts.Condorcet.Tally.new Matrix.new Matrix.stats Matrix.get Matrix.get_above
    dao_contracts.Condorcet.Proposal.update_status dao_contracts.Condorcet.Proposal.status
    dao_contracts.Condorcet.Proposal.new dao_contracts.Condorcet.Contract.put
proposes = refl

votes : execute utils chain block 1 (vote_for 1 ranking) state_1 ≡ ok (state_2, [])
unfolding execute dao_contracts.Condorcet.Contract.execute_vote
    dao_contracts.Condorcet.Contract.find dao_contracts.Condorcet.Contract.has_voted
    dao_contracts.Condorcet.Contract.save_ballot dao_contracts.Condorcet.Tally.expired Vote.new
    dao_contracts.Voting.Policy.contains add_vote decrement Matrix.change_above Cell.increment
    Cell.decrement Matrix.stats Matrix.get Matrix.get_above dao_contracts.Condorcet.Contract.put
votes = refl

Reachable-IsCounted_example : IsCounted chain state_2
Reachable-IsCounted_example = Reachable-IsCounted utils chain state_2 (
    executed block 1 (vote_for 1 ranking) []
      (executed block 1 (propose ([] ∷ [] ∷ [])) [] (instantiated 9 config starts) proposes) votes)
