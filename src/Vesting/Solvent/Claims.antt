-- ===== src/Vesting/Solvent/Claims.antt =====
-- contracts/external/cw-vesting/src/vesting.rs: the receiver's and the owner's claims keep the accounts.
use dao_contracts.Prelude.{
  ℕ, ◌+◌, ◌-◌, ◌≤◌, ◌≡◌, sym, Option, List, [], ◌∷◌, arith, min, ok, >>=-eq-ok, >>=-then,
  ok-injective,
}
use mathlib.Core.Path.{subst}
use dao_contracts.Cosmwasm.{Addr, add128}
use dao_contracts.StakeTracker.{total_staked}
use dao_contracts.Vesting.State.{
  seconds, WyndUtils, Status, unfunded, funded, canceled, Vest, Payment, Msg,
}
use dao_contracts.Vesting.Payment.{
  requested, pay, total, vested_at, liquid_of, liquid, owed, distributable, distribute,
  withdraw_from, withdraw_canceled_payment,
}
use dao_contracts.Vesting.Solvent.{transferred, Balances, IsSolvent, Pays}
use dao_contracts.Vesting.Solvent.Parts.{granted, added, owed-parts, funded-parts}

module _ (wynd : WyndUtils) where
  pub claim-Balances :
      (st : Status) (v : Vest) (held at_hand staked t amount claimable : ℕ)
      → Balances wynd st v held
      → liquid_of wynd st v staked ≡ ok at_hand
      → owed wynd v t ≡ ok claimable
      → amount ≤ min at_hand claimable
      → vested_at wynd v t ≤ total wynd v
      → (amount ≤ held)
        × Balances wynd st (record v { claimed = v.claimed + amount }) (held - amount)
  unfolding liquid_of
  claim-Balances unfunded v held at_hand staked t amount claimable b l o le bound = ground arith
  claim-Balances funded v held at_hand staked t amount claimable b l o le bound =
      let parts = funded-parts wynd v staked at_hand l in (omega arith, omega arith)
  claim-Balances (canceled x) v held at_hand staked t amount claimable b l o le bound =
      let parts = owed-parts wynd v t claimable o in (omega arith, omega arith)

  -- The books after a claim of some of what is at hand
  claimed-Pays :
      (p : Payment) (msgs : List Msg) (held claimed amount : ℕ)
      → IsSolvent wynd p held
      → transferred msgs ≡ amount
      → claimed ≡ p.vesting.claimed + amount
      → (amount ≤ held)
        × Balances wynd p.vesting.status
            (record (p.vesting) { claimed = p.vesting.claimed + amount })
            (held - amount)
      → Pays wynd (record p { vesting = record (p.vesting) { claimed = claimed } }) msgs held
  claimed-Pays p msgs held claimed amount s sent sum (le, balanced) = (
    omega arith,
    record { balanced = rw (sent, sum) balanced; unstaked = s.unstaked; bounded = s.bounded },
  )

  pub distribute-Pays :
      (t : ℕ) (request : Option ℕ) (p : Payment) (r : Payment × Msg) (held : ℕ)
      → IsSolvent wynd p held
      → distribute wynd t request p ≡ ok r
      → Pays wynd r.0 (r.1 ∷ []) held
  unfolding distribute distributable liquid
  distribute-Pays t request p r held s h =
      let staked = total_staked p.staking (seconds t) in
      let (most, e1, h1) = >>=-eq-ok (distributable wynd p t) _ h in
      let (at_hand, e2, h2) = >>=-eq-ok (liquid wynd p.vesting staked) _ e1 in
      let (claimable, e3, e4) = >>=-eq-ok (owed wynd p.vesting t) _ h2 in
      let amount = requested request most in
      let (claimed, e5, h5) = >>=-eq-ok (add128 p.vesting.claimed amount) _ h1 in
      let (within, some', last) = granted amount most _ _ _ h5 in
      subst (λ (x : Payment × Msg). Pays wynd x.0 (x.1 ∷ []) held) last
        (claimed-Pays p (pay p.vesting p.vesting.recipient amount ∷ []) held claimed amount s
          (omega arith) (added p.vesting.claimed amount claimed e5)
          (claim-Balances p.vesting.status p.vesting held at_hand staked t amount claimable
            s.balanced e2 e3 (subst (λ m. amount ≤ m) (sym (ok-injective e4)) within)
            (s.bounded _)))

  -- The owner's part of a canceled payment
  withdrawn-Balances :
      (x : ℕ) (v : Vest) (held at_hand amount : ℕ)
      → Balances wynd (canceled x) v held
      → amount ≤ min at_hand x
      → (amount ≤ held) × Balances wynd (canceled (x - amount)) v (held - amount)
  withdrawn-Balances x v held at_hand amount b le = (omega arith, omega arith)

  withdraw_from-Pays :
      (st : Status) (t : ℕ) (request : Option ℕ) (owner : Addr) (p : Payment) (r : Payment × Msg)
      (held : ℕ)
      → Balances wynd st p.vesting held
      → IsSolvent wynd p held
      → withdraw_from wynd st t request owner p ≡ ok r
      → Pays wynd r.0 (r.1 ∷ []) held
  unfolding withdraw_from
  withdraw_from-Pays unfunded t request owner p r held b s h = cc
  withdraw_from-Pays funded t request owner p r held b s h = cc
  withdraw_from-Pays (canceled x) t request owner p r held b s h =
      let staked = total_staked p.staking (seconds t) in
      >>=-then (liquid wynd p.vesting staked) _ h λ at_hand e1 h1.
        let amount = requested request (min at_hand x) in
        let (within, some', last) = granted amount (min at_hand x) _ _ _ h1 in
        let (le, balanced) = withdrawn-Balances x p.vesting held at_hand amount b within in
        subst (λ (y : Payment × Msg). Pays wynd y.0 (y.1 ∷ []) held) last
          (omega arith, record { balanced = omega arith; unstaked = λ u. cc; bounded = s.bounded })

  pub withdraw_canceled_payment-Pays :
      (t : ℕ) (request : Option ℕ) (owner : Addr) (p : Payment) (r : Payment × Msg) (held : ℕ)
      → IsSolvent wynd p held
      → withdraw_canceled_payment wynd t request owner p ≡ ok r
      → Pays wynd r.0 (r.1 ∷ []) held
  unfolding withdraw_canceled_payment
  withdraw_canceled_payment-Pays t request owner p r held s h =
      withdraw_from-Pays p.vesting.status t request owner p r held s.balanced s h
