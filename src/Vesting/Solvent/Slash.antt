-- ===== src/Vesting/Solvent/Slash.antt =====
-- contracts/external/cw-vesting/src/vesting.rs: a slash and the funding keep the accounts.
use dao_contracts.Prelude.{
  else-eq-ok, ℕ, ◌-◌, ◌≤◌, ◌≡◌, ◌≢◌, refl, sym, Bool, arith, ltb, ◌==◌, if-cases, ltb→lt, inl, inr,
  ok, >>=-then, ok-injective,
}
use mathlib.Core.Path.{subst}
use dao_contracts.Cosmwasm.{add128}
use dao_contracts.Vesting.State.{
  seconds, WyndUtils, Status, unfunded, funded, canceled, Vest, Payment,
}
use dao_contracts.Vesting.Payment.{total, slash_vest, slash_stake, register_slash, set_funded}
use dao_contracts.Vesting.Solvent.{Balances, IsSolvent}
use dao_contracts.Vesting.Solvent.Parts.{added}

module _ (wynd : WyndUtils) where
  -- The vest after a slash of what is held
  abbrev Slashed : Vest → Vest → ℕ → Type 0
  Slashed v v' held =
      (v'.status ≢ unfunded) × Balances wynd v'.status v' held × (v'.vested ≡ v.vested)

  slash_vest-Slashed :
      (st : Status) (amount : ℕ) (v v' : Vest) (held : ℕ)
      → Balances wynd st v held
      → v.status ≡ st
      → amount ≤ held
      → slash_vest st amount v ≡ ok v'
      → Slashed v v' (held - amount)
  unfolding slash_vest
  slash_vest-Slashed unfunded amount v v' held b st le h = cc
  slash_vest-Slashed funded amount v v' held b st le h =
      >>=-then (add128 v.slashed amount) _ h λ slashed e k.
        subst (λ w. Slashed v w (held - amount)) (ok-injective k)
          (λ u. cc, rw st (omega (arith, added v.slashed amount slashed e)), refl)
  slash_vest-Slashed (canceled x) amount v v' held b st le h =
      elim (if-cases (ltb x amount) _ _ h) [
        | inl (more, k) ↦ >>=-then (add128 v.slashed (amount - x)) _ k λ slashed e k'.
            subst (λ w. Slashed v w (held - amount)) (ok-injective k')
              (
                λ u. cc,
                omega (arith, added v.slashed (amount - x) slashed e, ltb→lt x amount more),
                refl,
              )
        | inr (less, k) ↦
            let enough : amount ≤ x = ground arith in
            subst (λ w. Slashed v w (held - amount)) (ok-injective k) (λ u. cc, omega arith, refl)
      ]

  pub register_slash-IsSolvent :
      (validator t amount : ℕ) (during_unbonding : Bool) (p p' : Payment) (held : ℕ)
      → IsSolvent wynd p held
      → amount ≤ held
      → register_slash validator t amount during_unbonding p ≡ ok p'
      → IsSolvent wynd p' (held - amount)
  unfolding register_slash
  register_slash-IsSolvent validator t amount during_unbonding p p' held s le h =
      let (_, h1) = else-eq-ok (amount == 0) _ _ h in
      >>=-then (slash_vest p.vesting.status amount p.vesting) _ h1 λ v' e h2.
        >>=-then (slash_stake during_unbonding (seconds t) validator amount p.staking) _ h2
          λ staking _ h3.
            let (funded', balanced, curve) =
              slash_vest-Slashed p.vesting.status amount p.vesting v' held s.balanced refl le e in
            subst (λ q. IsSolvent wynd q (held - amount))
              {x = record { vesting = v'; staking = staking }} (ok-injective h3)
              (record {
                balanced = balanced;
                unstaked = λ u. absurd (funded' u);
                bounded =
                    subst (λ c. (x : ℕ) → wynd.value c x ≤ (wynd.range c).1) (sym curve) s.bounded;
              })

  pub set_funded-IsSolvent :
      (p : Payment)
      → IsSolvent wynd p 0
      → p.vesting.status ≡ unfunded
      → IsSolvent wynd (set_funded p) (total wynd p.vesting)
  unfolding set_funded
  set_funded-IsSolvent p s u =
      let none_held = subst (λ st. Balances wynd st p.vesting 0) u s.balanced in
      record { balanced = omega arith; unstaked = λ f. cc; bounded = s.bounded }
