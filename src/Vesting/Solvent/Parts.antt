-- ===== src/Vesting/Solvent/Parts.antt =====
-- contracts/external/cw-vesting/src/vesting.rs: what a successful computation of an amount shows.
use dao_contracts.Prelude.{
  ℕ, ◌+◌, ◌-◌, ◌≤◌, ◌<◌, ◌≡◌, ◌||◌, arith, ltb, ◌==◌, if◌then◌else◌, ok, err,
}
use dao_contracts.Cosmwasm.{add128, sub128}
use dao_contracts.Vesting.State.{WyndUtils, funded, Vest, ContractError}
use dao_contracts.Vesting.Payment.{total, vested_at, liquid_of, owed}

-- An amount that is not refused
pub granted :
    {A : Type 0} (amount most : ℕ) (e : ContractError) (a b : A)
    → (if ltb most amount || amount == 0 then err e else ok a) ≡ ok b
    → (amount ≤ most) × (0 < amount) × (a ≡ b)
granted amount most e a b h = ground arith

pub added : (a b n : ℕ) → add128 {E = ContractError} a b ≡ ok n → n ≡ a + b
added a b n h = ground arith

pub subtracted : (a b n : ℕ) → sub128 {E = ContractError} a b ≡ ok n → (b ≤ a) × (n ≡ a - b)
subtracted a b n h = ground arith

module _ (wynd : WyndUtils) where
  pub owed-parts :
      (v : Vest) (t n : ℕ)
      → owed wynd v t ≡ ok n
      → (v.claimed ≤ vested_at wynd v t) × (n ≡ vested_at wynd v t - v.claimed - v.slashed)
  unfolding owed
  owed-parts v t n h = ground arith

  -- What is at hand in a funded payment is what is held and not staked.
  pub funded-parts :
      (v : Vest) (staked n : ℕ)
      → liquid_of wynd funded v staked ≡ ok n
      → v.claimed + staked + v.slashed + n ≡ total wynd v
  unfolding liquid_of
  funded-parts v staked n h = ground arith
