-- ===== src/Vesting/Solvent.antt =====
-- The accounts of a vesting payment: what the contract holds, at hand, staked or unbonding, is what
-- the receiver and the owner may still take out.
pub mod Parts
pub mod Claims
pub mod Cancel
pub mod Slash
pub mod Settles
pub mod Money
pub mod Stake
pub mod Execute
pub mod Instantiate
pub mod Reachable
use dao_contracts.Prelude.{ℕ, ◌+◌, ◌-◌, ◌≤◌, ◌≡◌, List, [], ◌∷◌, ◌==◌, if◌then◌else◌}
use dao_contracts.Vesting.State.{
  WyndUtils, Status, unfunded, funded, canceled, Vest, Payment, Msg, transfer,
}
use dao_contracts.StakeTracker.{total_staked}
use dao_contracts.Vesting.Payment.{total}

-- The tokens that messages transfer out of the contract
abbrev pub transferred : List Msg → ℕ
transferred [] = 0
transferred (transfer d to amount ∷ msgs) = amount + transferred msgs
transferred (_ ∷ msgs) = transferred msgs

module _ (wynd : WyndUtils) where
  -- The books balance: nothing is held before the funding; then what is held, was claimed or was
  -- slashed is the total; in a canceled payment what is held is what the owner may withdraw and what
  -- the receiver is still owed, where the slashes are taken off.
  abbrev pub Balances : Status → Vest → ℕ → Type 0
  Balances unfunded v held = (v.claimed ≡ 0) × (v.slashed ≡ 0) × (held ≡ 0)
  Balances funded v held = v.claimed + v.slashed + held ≡ total wynd v
  Balances (canceled owner_withdrawable) v held =
      held ≡ owner_withdrawable + (total wynd v - v.claimed - v.slashed)

  -- An unfunded payment has staked nothing, and what has vested is at most the total.
  pub record IsSolvent (p : Payment) (held : ℕ) : Type 0 where
    pub balanced : Balances p.vesting.status p.vesting held
    pub unstaked : p.vesting.status ≡ unfunded → (t : ℕ) → total_staked p.staking t ≡ 0
    pub bounded : (x : ℕ) → wynd.value p.vesting.vested x ≤ total wynd p.vesting

  -- What an operation does to the books: the messages pay out no more than is held, and the rest is
  -- what the payment still owes.
  abbrev pub Pays : Payment → List Msg → ℕ → Type 0
  Pays p msgs held = (transferred msgs ≤ held) × IsSolvent p (held - transferred msgs)
