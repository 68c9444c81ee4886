-- ===== src/Condorcet/Contract.antt =====
-- contracts/proposal/dao-proposal-condorcet/src/contract.rs and state.rs.
use dao_contracts.Prelude.{
  ℕ, ◌%◌, Bool, true, false, not, ◌&&◌, ◌||◌, Option, none, some, List, [], ◌∷◌, ◌++◌, length, ltb,
  ◌==◌, if◌then◌else◌, Outcome, ok, err, panic, guard, ok_or, map_err, ◌>>=◌, ◌>>◌,
}
use dao_contracts.Cosmwasm.{Addr, StdError, not_found, BlockInfo, CwUtils}
use dao_contracts.Reply.{TaggedReplyId, failed_proposal_execution, tagged}
use dao_contracts.Condorcet.Vote.{Vote}
use dao_contracts.Condorcet.Vote
use dao_contracts.Condorcet.Matrix.{add32, u32_mod}
use dao_contracts.Condorcet.Tally.{Tally, add_vote, expired}
use dao_contracts.Condorcet.Tally
use dao_contracts.Condorcet.Proposal.{
  ContractError, invalid_vote, tag, zero_voting_power, unexecutable, unclosable, not_dao, voted,
  zero_choices, Config, into_checked, Choice, Status, passed, rejected, Proposal, SubMsg,
  update_status, set_closed, set_execution_failed, set_executed,
}
use dao_contracts.Condorcet.Proposal

-- The answers of the voting module of the DAO; the height is that of the query.
pub record Chain : Type 0 where
  pub voting_power : Addr → Option ℕ → Outcome StdError ℕ
  pub total_power : Option ℕ → Outcome StdError ℕ

-- A map with u32 keys, as its entries
abbrev pub Entries : Type 0 → Type 0
Entries V = List (ℕ × V)

module _ {V : Type 0} where
  unfoldable pub find : ℕ → Entries V → Option V
  find k [] = none
  find k ((j, v) ∷ entries) = if j == k then some v else find k entries

  unfoldable pub put : ℕ → V → Entries V → Entries V
  put k v [] = (k, v) ∷ []
  put k v ((j, w) ∷ entries) =
      let rest = put k v entries in if j == k then (k, v) ∷ entries else (j, w) ∷ rest

  -- The largest key, or zero
  unfoldable pub last_key : Entries V → ℕ
  last_key [] = 0
  last_key ((j, v) ∷ entries) = let rest = last_key entries in if ltb rest j then j else rest

  abbrev pub load : ℕ → Entries V → Outcome ContractError V
  load k entries = ok_or (find k entries) (ContractError.std not_found)

pub record Ballot : Type 0 where
  pub proposal_id : ℕ
  pub voter : Addr
  pub vote : Vote

pub record State : Type 0 where
  pub dao : Addr
  pub config : Config
  pub tallies : Entries Tally
  pub proposals : Entries Proposal
  pub votes : List Ballot

unfoldable pub has_voted : ℕ → Addr → List Ballot → Bool
has_voted proposal_id voter [] = false
has_voted proposal_id voter (b ∷ votes) =
    b.proposal_id == proposal_id && b.voter == voter || has_voted proposal_id voter votes

-- The ballot of a voter on a proposal is one entry of the map, which a second one would replace.
unfoldable pub save_ballot : Ballot → List Ballot → List Ballot
save_ballot ballot [] = ballot ∷ []
save_ballot ballot (b ∷ votes) =
    let rest = save_ballot ballot votes in
    if b.proposal_id == ballot.proposal_id && b.voter == ballot.voter
    then ballot ∷ votes
    else b ∷ rest

unfoldable pub next_proposal_id : {E : Type 0} → Entries Proposal → Outcome E ℕ
next_proposal_id proposals = add32 (last_key proposals) 1

pub data ExecuteMsg : Type 0 where
  propose : List Choice → ExecuteMsg
  vote_for : (proposal_id : ℕ) (vote : List ℕ) → ExecuteMsg
  execute_proposal close : (proposal_id : ℕ) → ExecuteMsg
  set_config : Config → ExecuteMsg

unfoldable pub instantiate : (sender : Addr) → Config → Outcome ContractError State
instantiate sender msg = do
  config ← into_checked msg
  ok (record { dao = sender; config = config; tallies = []; proposals = []; votes = [] })

unfoldable pub is_empty : List Choice → Bool
is_empty [] = true
is_empty (_ ∷ _) = false

module _ (cw : CwUtils) (chain : Chain) (block : BlockInfo) (sender : Addr) where
  unfoldable pub execute_propose : List Choice → State → Outcome ContractError State
  unfolding is_empty
  execute_propose choices s = do
    power ← map_err ContractError.std (chain.voting_power sender none)
    guard (not (power == 0)) zero_voting_power
    id ← next_proposal_id s.proposals
    total_power ← map_err ContractError.std (chain.total_power none)
    guard (not (is_empty choices)) zero_choices
    let all = choices ++ [] ∷ []
    end ← map_err ContractError.std (cw.after s.config.voting_period block)
    tally ← Tally.new (length all) total_power block.height end
    first ← map_err ContractError.std (Proposal.new cw block s.config sender id all total_power)
    proposal ← update_status cw block tally first
    ok (record s { tallies = put id tally s.tallies; proposals = put id proposal s.proposals })

  unfoldable pub execute_vote : ℕ → List ℕ → State → Outcome ContractError State
  execute_vote proposal_id vote s = do
    tally ← load proposal_id s.tallies
    power ← map_err ContractError.std (chain.voting_power sender (some tally.start_height))
    guard (not (power == 0)) zero_voting_power
    guard (not (has_voted proposal_id sender s.votes)) voted
    guard (not (expired cw tally block)) ContractError.expired
    checked ← map_err invalid_vote (Vote.new vote tally.m.n)
    tally' ← add_vote checked power tally
    ok (record s {
      tallies = put proposal_id tally' s.tallies;
      votes =
          save_ballot (record { proposal_id = proposal_id; voter = sender; vote = checked })
            s.votes;
    })

  -- By the status
  unfoldable pub execute_passed :
      Status → ℕ → Proposal → State → Outcome ContractError (State × List SubMsg)
  execute_passed (passed winner) proposal_id p s = do
    (p', msg) ← set_executed s.dao winner p
    ok (record s { proposals = put proposal_id p' s.proposals }, msg ∷ [])
  execute_passed _ proposal_id p s = err unexecutable

  unfoldable pub execute_execute : ℕ → State → Outcome ContractError (State × List SubMsg)
  unfolding execute_passed
  execute_execute proposal_id s = do
    tally ← load proposal_id s.tallies
    power ← map_err ContractError.std (chain.voting_power sender (some tally.start_height))
    guard (not (power == 0)) zero_voting_power
    proposal ← load proposal_id s.proposals
    p ← update_status cw block tally proposal
    execute_passed p.last_status proposal_id p s

  unfoldable pub close_rejected : Status → ℕ → Proposal → State → Outcome ContractError State
  close_rejected rejected proposal_id p s =
      ok (record s { proposals = put proposal_id (set_closed p) s.proposals })
  close_rejected _ proposal_id p s = err unclosable

  unfoldable pub execute_close : ℕ → State → Outcome ContractError State
  unfolding close_rejected
  execute_close proposal_id s = do
    tally ← load proposal_id s.tallies
    proposal ← load proposal_id s.proposals
    p ← update_status cw block tally proposal
    close_rejected p.last_status proposal_id p s

  unfoldable pub execute_set_config : Config → State → Outcome ContractError State
  execute_set_config config s = do
    guard (sender == s.dao) not_dao
    checked ← into_checked config
    ok (record s { config = checked })

  unfoldable pub execute : ExecuteMsg → State → Outcome ContractError (State × List SubMsg)
  execute (propose choices) s = do s' ← execute_propose choices s; ok (s', [])
  execute (vote_for proposal_id vote) s = do s' ← execute_vote proposal_id vote s; ok (s', [])
  execute (execute_proposal proposal_id) s = execute_execute proposal_id s
  execute (close proposal_id) s = do s' ← execute_close proposal_id s; ok (s', [])
  execute (set_config config) s = do s' ← execute_set_config config s; ok (s', [])

-- The replies that the contract does not know of panic.
unfoldable pub reply_tagged : TaggedReplyId → State → Outcome ContractError State
reply_tagged (failed_proposal_execution proposal_id) s = do
  p ← load (proposal_id % u32_mod) s.proposals
  ok (record s { proposals = put (proposal_id % u32_mod) (set_execution_failed p) s.proposals })
reply_tagged _ s = panic

unfoldable pub reply : ℕ → State → Outcome ContractError State
unfolding reply_tagged
reply id s = do t ← map_err tag (tagged id); reply_tagged t s
