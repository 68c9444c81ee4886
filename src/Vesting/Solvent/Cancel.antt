-- ===== src/Vesting/Solvent/Cancel.antt =====
-- contracts/external/cw-vesting/src/vesting.rs: a cancellation keeps the accounts.
use dao_contracts.Prelude.{
  else-eq-ok, ℕ, ◌+◌, ◌-◌, ◌≤◌, ◌≡◌, refl, ap, false, List, ◌∷◌, ◌++◌, arith, min, ok, >>=-then,
  ok-injective,
}
use mathlib.Core.Path.{subst}
use dao_contracts.Cosmwasm.{Addr, add128, sub128}
use dao_contracts.StakeTracker.{total_staked}
use dao_contracts.Vesting.State.{
  seconds, WyndUtils, Status, unfunded, funded, canceled, Vest, Payment, ContractError, Msg,
  set_withdraw_address,
}
use dao_contracts.Vesting.Payment.{
  pay_some, vested_at, cancel_vest, liquid_of, liquid, owed, is_canceled, cancel,
}
use dao_contracts.Vesting.Solvent.{transferred, Balances, IsSolvent, Pays}
use dao_contracts.Vesting.Solvent.Parts.{added, subtracted, owed-parts, funded-parts}

module _ (wynd : WyndUtils) where
  -- What a cancellation leaves in the contract is what is staked, which the owner and the receiver
  -- share.
  settled-Balances :
      (st : Status) (v : Vest) (held staked at_hand t claimable outstanding : ℕ)
      → Balances wynd st v held
      → (st ≡ unfunded → staked ≡ 0)
      → is_canceled st ≡ false
      → liquid_of wynd st v staked ≡ ok at_hand
      → owed wynd v t ≡ ok claimable
      → vested_at wynd v t - (v.claimed + min claimable at_hand) - v.slashed ≡ outstanding
      → outstanding ≤ staked
      → (at_hand ≤ held)
        × (held - at_hand
            ≡ staked
              - outstanding
              + (vested_at wynd v t - (v.claimed + min claimable at_hand) - v.slashed))
  unfolding liquid_of is_canceled
  settled-Balances unfunded v held staked at_hand t claimable outstanding b u c l o out le =
      let none_staked = u refl in let no_liquid = ok-injective l in (omega arith, omega arith)
  settled-Balances funded v held staked at_hand t claimable outstanding b u c l o out le =
      let parts = funded-parts wynd v staked at_hand l in (omega arith, omega arith)
  settled-Balances (canceled x) v held staked at_hand t claimable outstanding b u c l o out le = cc

  paid_out :
      (v : Vest) (owner : Addr) (to_owner to_vestee : ℕ)
      → transferred (
          set_withdraw_address owner ∷ pay_some v owner to_owner
          ++ pay_some v v.recipient to_vestee)
        ≡ to_owner + to_vestee
  paid_out v owner to_owner to_vestee = ground arith

  canceled-Pays :
      (t : ℕ) (owner : Addr) (p : Payment)
      (held at_hand claimable claimed outstanding owner_outstanding : ℕ)
      → IsSolvent wynd p held
      → is_canceled p.vesting.status ≡ false
      → liquid wynd p.vesting (total_staked p.staking (seconds t)) ≡ ok at_hand
      → owed wynd p.vesting t ≡ ok claimable
      → add128 {E = ContractError} p.vesting.claimed (min claimable at_hand) ≡ ok claimed
      → owed wynd (record (p.vesting) { claimed = claimed }) t ≡ ok outstanding
      → sub128 {E = ContractError} (total_staked p.staking (seconds t)) outstanding
        ≡ ok owner_outstanding
      → Pays wynd
          (record p {
            vesting =
                cancel_vest wynd (record (p.vesting) { claimed = claimed }) t owner_outstanding;
          })
          (set_withdraw_address owner
              ∷ pay_some
                  (record (p.vesting) { claimed = claimed })
                  owner
                  (at_hand - min claimable at_hand)
            ++ pay_some
                (record (p.vesting) { claimed = claimed })
                p.vesting.recipient
                (min claimable at_hand))
          held
  unfolding liquid cancel_vest
  canceled-Pays t owner p held at_hand claimable claimed outstanding owner_outstanding s active e1
        e2 e3 e4 e5 =
      let v' : Vest = record (p.vesting) { claimed = claimed } in
      let staked = total_staked p.staking (seconds t) in
      let (le, left) = subtracted staked outstanding owner_outstanding e5 in
      let sum = added p.vesting.claimed (min claimable at_hand) claimed e3 in
      let parts = owed-parts wynd v' t outstanding e4 in
      let all = ap (λ (ends : ℕ × ℕ). ends.1) (wynd.range-constant (vested_at wynd v' t)) in
      let out = paid_out v' owner (at_hand - min claimable at_hand) (min claimable at_hand) in
      let (within, books) =
        settled-Balances p.vesting.status p.vesting held staked at_hand t claimable outstanding
          s.balanced (λ u. s.unstaked u _) active e1 e2 (omega arith) le in
      (
        omega arith,
        record {
          balanced = omega (arith, all);
          unstaked = λ u. cc;
          bounded = λ x. omega (arith, wynd.value-constant (vested_at wynd v' t) x, all);
        },
      )

  pub cancel-Pays :
      (t : ℕ) (owner : Addr) (p : Payment) (r : Payment × List Msg) (held : ℕ)
      → IsSolvent wynd p held
      → cancel wynd t owner p ≡ ok r
      → Pays wynd r.0 r.1 held
  unfolding cancel
  cancel-Pays t owner p r held s h =
      let (active, h0) = else-eq-ok (is_canceled p.vesting.status) _ _ h in
      >>=-then (liquid wynd p.vesting (total_staked p.staking (seconds t))) _ h0 λ at_hand e1 h1.
        >>=-then (owed wynd p.vesting t) _ h1 λ claimable e2 h2.
          >>=-then (add128 p.vesting.claimed (min claimable at_hand)) _ h2 λ claimed e3 h3.
            >>=-then (owed wynd (record (p.vesting) { claimed = claimed }) t) _ h3
              λ outstanding e4 h4.
                >>=-then (sub128 (total_staked p.staking (seconds t)) outstanding) _ h4
                  λ owner_outstanding e5 h5.
                    subst (λ (x : Payment × List Msg). Pays wynd x.0 x.1 held) (ok-injective h5)
                      (canceled-Pays t owner p held at_hand claimable claimed outstanding
                        owner_outstanding s active e1 e2 e3 e4 e5)
