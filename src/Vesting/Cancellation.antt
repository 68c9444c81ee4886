-- ===== src/Vesting/Cancellation.antt =====
-- contracts/external/cw-vesting/src/vesting.rs: when a payment can be canceled.
use dao_contracts.Prelude.{
  ℕ, ◌+◌, ◌-◌, ◌≤◌, ◌<◌, ◌≡◌, refl, ap, false, arith, lt→ltb, le→leb, min, ok, panic, Returns,
  >>=-Returns, >>=-eq-panic, >>=-eq_next, ◌∙◌,
}
use mathlib.Core.Path.{subst}
use dao_contracts.Cosmwasm.{Addr, add128, sub128, u128_mod}
use dao_contracts.StakeTracker.{total_staked}
use dao_contracts.Vesting.State.{
  Timestamp, seconds, WyndUtils, unfunded, funded, Vest, Payment, ContractError,
}
use dao_contracts.Vesting.Payment.{total, vested_at, liquid_of, liquid, owed, is_canceled, cancel}
use dao_contracts.Vesting.Solvent.{Balances, IsSolvent}

module _ (wynd : WyndUtils) where
  owed-ok :
      (v : Vest) (t : ℕ)
      → v.claimed ≤ vested_at wynd v t
      → owed wynd v t ≡ ok (vested_at wynd v t - v.claimed - v.slashed)
  unfolding owed
  owed-ok v t le = rw (le→leb _ _ le)

  funded-ok :
      (v : Vest) (staked : ℕ)
      → v.claimed + staked + v.slashed ≤ total wynd v
      → liquid_of wynd funded v staked ≡ ok (total wynd v - v.claimed - staked - v.slashed)
  unfolding liquid_of
  funded-ok v staked le = ground arith

  add-ok : (a b : ℕ) → a + b < u128_mod → add128 {E = ContractError} a b ≡ ok (a + b)
  add-ok a b lt = rw (lt→ltb _ _ lt)

  sub-ok : (a b : ℕ) → b ≤ a → sub128 {E = ContractError} a b ≡ ok (a - b)
  sub-ok a b le = rw (le→leb _ _ le)

  sub-panic : (a b : ℕ) → a < b → sub128 {E = ContractError} a b ≡ panic
  sub-panic a b lt = ground arith

  -- The steps of a cancellation, once the amounts are known
  steps :
      (t : Timestamp) (owner : Addr) (p : Payment) (at_hand claimable : ℕ)
      → is_canceled p.vesting.status ≡ false
      → liquid wynd p.vesting (total_staked p.staking (seconds t)) ≡ ok at_hand
      → owed wynd p.vesting t ≡ ok claimable
      → p.vesting.claimed + min claimable at_hand ≤ vested_at wynd p.vesting t
      → vested_at wynd p.vesting t < u128_mod
      → vested_at wynd p.vesting t - (p.vesting.claimed + min claimable at_hand) - p.vesting.slashed
        ≤ total_staked p.staking (seconds t)
      → Returns (cancel wynd t owner p)
  unfolding cancel
  steps t owner p at_hand claimable active e1 e2 within small covered =
      let staked = total_staked p.staking (seconds t) in
      let claimed = p.vesting.claimed + min claimable at_hand in
      let v' : Vest = record (p.vesting) { claimed = claimed } in
      rw active (
        >>=-Returns (liquid wynd p.vesting staked) _ at_hand e1 (
          >>=-Returns (owed wynd p.vesting t) _ claimable e2 (
            >>=-Returns (add128 p.vesting.claimed (min claimable at_hand)) _ claimed
              (add-ok p.vesting.claimed (min claimable at_hand) (omega arith))
              (>>=-Returns (owed wynd v' t) _ _ (owed-ok v' t within) (
                >>=-Returns (sub128 staked (vested_at wynd v' t - claimed - v'.slashed)) _ _
                  (sub-ok _ _ covered) (_, refl))))))

  -- Where less is staked than the receiver is still owed, the subtraction panics.
  short :
      (t : Timestamp) (owner : Addr) (p : Payment) (at_hand claimable : ℕ)
      → is_canceled p.vesting.status ≡ false
      → liquid wynd p.vesting (total_staked p.staking (seconds t)) ≡ ok at_hand
      → owed wynd p.vesting t ≡ ok claimable
      → p.vesting.claimed + min claimable at_hand ≤ vested_at wynd p.vesting t
      → vested_at wynd p.vesting t < u128_mod
      → total_staked p.staking (seconds t)
        < vested_at wynd p.vesting t
          - (p.vesting.claimed + min claimable at_hand)
          - p.vesting.slashed
      → cancel wynd t owner p ≡ panic
  unfolding cancel
  short t owner p at_hand claimable active e1 e2 within small missing =
      let staked = total_staked p.staking (seconds t) in
      let claimed = p.vesting.claimed + min claimable at_hand in
      let v' : Vest = record (p.vesting) { claimed = claimed } in
      rw active (
        >>=-eq_next (liquid wynd p.vesting staked) _ at_hand e1 (
          >>=-eq_next (owed wynd p.vesting t) _ claimable e2 (
            >>=-eq_next (add128 p.vesting.claimed (min claimable at_hand)) _ claimed
              (add-ok p.vesting.claimed (min claimable at_hand) (omega arith))
              (>>=-eq_next (owed wynd v' t) _ _ (owed-ok v' t within) (
                >>=-eq-panic (sub128 staked (vested_at wynd v' t - claimed - v'.slashed)) _
                  (sub-panic staked _ missing))))))

  -- The cancellation of a funded payment whose books balance succeeds at any time, if what is staked
  -- is held, no more is claimed than has vested, and the total is a 128-bit number.
  pub cancel-Returns :
      (t : Timestamp) (owner : Addr) (p : Payment) (held : ℕ)
      → p.vesting.status ≡ funded
      → IsSolvent wynd p held
      → total_staked p.staking (seconds t) ≤ held
      → p.vesting.claimed ≤ vested_at wynd p.vesting t
      → total wynd p.vesting < u128_mod
      → Returns (cancel wynd t owner p)
  unfolding liquid is_canceled
  cancel-Returns t owner p held status s staked claimed small =
      let v = p.vesting in
      let books = subst (λ st. Balances wynd st v held) status s.balanced in
      let limit = s.bounded (seconds t - seconds v.start_time) in
      let at_hand = total wynd v - v.claimed - total_staked p.staking (seconds t) - v.slashed in
      let claimable = vested_at wynd v t - v.claimed - v.slashed in
      steps t owner p at_hand claimable (ap is_canceled status)
        (ap (λ st. liquid_of wynd st v (total_staked p.staking (seconds t))) status
          ∙ funded-ok v (total_staked p.staking (seconds t)) (omega arith))
        (owed-ok v t claimed) (omega arith) (omega arith) (omega arith)

  -- A payment that is not funded yet can be canceled exactly while nothing has vested: from then on
  -- the cancellation panics.
  pub cancel-unfunded :
      (t : Timestamp) (owner : Addr) (p : Payment) (held : ℕ)
      → p.vesting.status ≡ unfunded
      → IsSolvent wynd p held
      → total wynd p.vesting < u128_mod
      → (vested_at wynd p.vesting t ≡ 0 → Returns (cancel wynd t owner p))
        × (0 < vested_at wynd p.vesting t → cancel wynd t owner p ≡ panic)
  unfolding liquid liquid_of is_canceled
  cancel-unfunded t owner p held status s small =
      let v = p.vesting in
      let vested = vested_at wynd v t in
      let books = subst (λ st. Balances wynd st v held) status s.balanced in
      let none_staked = s.unstaked status (seconds t) in
      let limit = s.bounded (seconds t - seconds v.start_time) in
      let at_hand = ap (λ st. liquid_of wynd st v (total_staked p.staking (seconds t))) status in
      let claimable = owed-ok v t (omega arith) in
      (
        λ none_vested.
            steps t owner p 0 (vested - v.claimed - v.slashed) (ap is_canceled status) at_hand
              claimable (omega arith) (omega arith) (omega arith),
        λ some_vested.
            short t owner p 0 (vested - v.claimed - v.slashed) (ap is_canceled status) at_hand
              claimable (omega arith) (omega arith) (omega arith),
      )
