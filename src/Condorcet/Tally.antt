-- ===== src/Condorcet/Tally.antt =====
-- contracts/proposal/dao-proposal-condorcet/src/tally.rs: the votes of a proposal.
pub mod Ranked
pub mod Refines
pub mod Undisputed
use dao_contracts.Prelude.{
  ℕ, ◌+◌, Bool, true, false, List, [], ◌∷◌, ◌++◌, ltb, if◌then◌else◌, Outcome, ok, panic, ◌>>=◌,
}
use dao_contracts.Cosmwasm.{Expiration, BlockInfo, CwUtils, sub128}
use dao_contracts.Condorcet.Matrix.{M, Stats, positive_column, no_positive_column, stats, decrement}
use dao_contracts.Condorcet.Matrix
use dao_contracts.Condorcet.Vote.{Vote}

pub data Winner : Type 0 where
  never none : Winner
  some undisputed : (col : ℕ) → Winner

pub record Tally : Type 0 where
  pub m : M
  pub expiration : Expiration
  pub start_height : ℕ
  pub power_outstanding : ℕ
  pub winner : Winner

-- The winner by the statistics of the matrix
unfoldable pub winner_of : ℕ → Stats → Winner
winner_of power_outstanding (positive_column col min_margin) =
    if ltb power_outstanding min_margin then undisputed col else some col
winner_of power_outstanding (no_positive_column no_winnable_columns) =
    if no_winnable_columns then never else none

module _ {E : Type 0} where
  unfoldable pub find_winner : M → ℕ → Outcome E Winner
  unfolding winner_of
  find_winner m power_outstanding = do
    s ← stats m power_outstanding
    ok (winner_of power_outstanding s)

  unfoldable pub new : ℕ → ℕ → ℕ → Expiration → Outcome E Tally
  unfolding find_winner
  new candidates total_power start_height expiration = do
    m ← Matrix.new candidates
    winner ← find_winner m total_power
    ok (record {
      m = m;
      expiration = expiration;
      start_height = start_height;
      power_outstanding = total_power;
      winner = winner;
    })

  -- The inner loop: the candidate is defeated by those that stand before it.
  unfoldable pub add_defeats : ℕ → ℕ → List ℕ → M → Outcome E M
  add_defeats power preference [] m = ok m
  add_defeats power preference (favored ∷ before) m = do
    m' ← decrement m preference favored power
    add_defeats power preference before m'

  -- The outer loop, with the candidates that stand before
  unfoldable pub add_preferences : ℕ → List ℕ → Vote → M → Outcome E M
  unfolding add_defeats
  add_preferences power before [] m = ok m
  add_preferences power before (preference ∷ vote) m = do
    m' ← add_defeats power preference before m
    add_preferences power (before ++ preference ∷ []) vote m'

  unfoldable pub add_vote : Vote → ℕ → Tally → Outcome E Tally
  unfolding add_preferences find_winner
  add_vote vote power t = do
    m ← add_preferences power [] vote t.m
    power_outstanding ← sub128 t.power_outstanding power
    winner ← find_winner m power_outstanding
    ok (record t { m = m; power_outstanding = power_outstanding; winner = winner })

unfoldable pub expired : CwUtils → Tally → BlockInfo → Bool
expired cw t block = cw.is_expired t.expiration block
