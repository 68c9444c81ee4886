-- ===== src/Vesting/Limits.antt =====
-- contracts/external/cw-vesting/src/vesting.rs: what the receiver can claim, and what is taken for
-- being at hand in a canceled payment.
use dao_contracts.Prelude.{
  ℕ, ◌+◌, ◌-◌, ◌≤◌, ◌<◌, ◌≡◌, sym, ap, Option, arith, min, ok, >>=-then, ok-injective,
}
use mathlib.Core.Path.{subst}
use dao_contracts.Cosmwasm.{add128}
use dao_contracts.StakeTracker.{total_staked}
use dao_contracts.Vesting.State.{
  Timestamp, seconds, WyndUtils, canceled, Vest, Payment, Msg, transfer,
}
use dao_contracts.Vesting.Payment.{
  requested, total, vested_at, liquid_of, liquid, owed, distributable, distribute,
}
use dao_contracts.Vesting.Solvent.{Balances}
use dao_contracts.Vesting.Solvent.Parts.{granted, added, owed-parts}

module _ (wynd : WyndUtils) where
  -- What a distribution pays
  pub record Distributes (t : Timestamp) (p : Payment) (r : Payment × Msg) : Type 0 where
    pub amount : ℕ
    pub positive : 0 < amount
    pub paid : r.1 ≡ transfer p.vesting.denom p.vesting.recipient amount
    pub claimed :
        r.0 ≡ record p { vesting = record (p.vesting) { claimed = p.vesting.claimed + amount } }
    pub vested : p.vesting.claimed + amount + p.vesting.slashed ≤ vested_at wynd p.vesting t

  -- A distribution pays the receiver a positive amount that is added to what is claimed and changes
  -- nothing else; what is then claimed and slashed is at most what has vested.
  pub distribute-Distributes :
      (t : Timestamp) (request : Option ℕ) (p : Payment) (r : Payment × Msg)
      → distribute wynd t request p ≡ ok r
      → Distributes t p r
  unfolding distribute distributable
  distribute-Distributes t request p r h = >>=-then (distributable wynd p t) _ h λ most e1 h1.
      let amount = requested request most in
      >>=-then (liquid wynd p.vesting (total_staked p.staking (seconds t))) _ e1 λ at_hand e2 h2.
        >>=-then (owed wynd p.vesting t) _ h2 λ claimable e3 e4.
          >>=-then (add128 p.vesting.claimed amount) _ h1 λ claimed e5 h5.
            let (within, positive, last) = granted amount most _ _ _ h5 in
            let parts = owed-parts wynd p.vesting t claimable e3 in
            let smaller = ok-injective e4 in
            record {
              amount = amount;
              positive = positive;
              paid = ap (λ (x : Payment × Msg). x.1) (sym last);
              claimed =
                  rw (← added p.vesting.claimed amount claimed e5)
                    (ap (λ (x : Payment × Msg). x.0) (sym last));
              vested = omega arith;
            }

  canceled-parts :
      (x : ℕ) (v : Vest) (staked n : ℕ)
      → liquid_of wynd (canceled x) v staked ≡ ok n
      → (v.claimed ≤ total wynd v) × (n + staked ≡ x + (total wynd v - v.claimed))
  unfolding liquid_of
  canceled-parts x v staked n l = ground arith

  -- In a canceled payment whose books balance, what the code takes to be at hand exceeds what is
  -- held and not staked by the slashes that were counted, up to what the receiver has not claimed.
  pub liquid-surplus :
      (x : ℕ) (v : Vest) (held staked at_hand : ℕ)
      → v.status ≡ canceled x
      → Balances wynd (canceled x) v held
      → liquid wynd v staked ≡ ok at_hand
      → at_hand + staked ≡ held + min (total wynd v - v.claimed) v.slashed
  unfolding liquid
  liquid-surplus x v held staked at_hand status b l =
      let parts =
        canceled-parts x v staked at_hand
          (subst (λ st. liquid_of wynd st v staked ≡ ok at_hand) status l) in
      omega arith
