-- ===== src/Condorcet/Reachable.antt =====
-- contracts/proposal/dao-proposal-condorcet/src/contract.rs: the tallies are right in every state
-- that the contract can get into.
use dao_contracts.Prelude.{arith, ℕ, ◌≡◌, some, List, [], ok, >>=-then, ok-injective}
use mathlib.Core.Path.{subst}
use dao_contracts.Cosmwasm.{Addr, BlockInfo, CwUtils}
use dao_contracts.Condorcet.Proposal.{Config, into_checked, SubMsg}
use dao_contracts.Condorcet.Contract.{
  Chain, State, find, last_key, ExecuteMsg, instantiate, execute, reply,
}
use dao_contracts.Condorcet.Counted.Ballots.{IsCounted}
use dao_contracts.Condorcet.Counted.Messages.{execute-IsCounted, reply-IsCounted}

find-nil : {V : Type 0} (k : ℕ) (v : V) → find k [] ≡ some v → ⊥
unfolding find
find-nil k v h = cc

module _ (cw : CwUtils) (chain : Chain) where
  -- The states that the contract can get into
  pub data Reachable : State → Type 0 where
    instantiated :
        (sender : Addr) (config : Config) {s : State}
        → instantiate sender config ≡ ok s
        → Reachable s
    executed :
        (block : BlockInfo) (sender : Addr) (m : ExecuteMsg) {s s' : State} (msgs : List SubMsg)
        → Reachable s
        → execute cw chain block sender m s ≡ ok (s', msgs)
        → Reachable s'
    replied : (id : ℕ) {s s' : State} → Reachable s → reply id s ≡ ok s' → Reachable s'

  instantiate-IsCounted :
      (sender : Addr) (config : Config) (s : State)
      → instantiate sender config ≡ ok s
      → IsCounted chain s
  unfolding instantiate last_key
  instantiate-IsCounted sender config s h = >>=-then (into_checked config) _ h λ checked _ h1.
      subst (IsCounted chain) (ok-injective h1) (record {
        tallies = λ id t found. absurd (find-nil id t found);
        keys = omega arith;
        known = tt;
      })

  -- In every state that the contract can get into, the margins of every tally are those of the
  -- ballots of its proposal, each with the power of its voter at the start of the proposal, and the
  -- winner is up to date. The voting module gives the same answers throughout.
  pub Reachable-IsCounted : (s : State) → Reachable s → IsCounted chain s
  Reachable-IsCounted s (instantiated sender config made) =
      instantiate-IsCounted sender config s made
  Reachable-IsCounted s' (executed block sender m {s = s} msgs before done) =
      execute-IsCounted chain cw block sender s (Reachable-IsCounted s before) m (s', msgs) done
  Reachable-IsCounted s' (replied id {s = s} before done) =
      reply-IsCounted chain id s s' (Reachable-IsCounted s before) done
