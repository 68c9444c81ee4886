-- ===== src/Vesting/Solvent/Instantiate.antt =====
-- contracts/external/cw-vesting/src/contract.rs: the accounts balance after the instantiation.
use dao_contracts.Prelude.{
  else-eq-ok, ℕ, ◌*◌, ◌^◌, ◌≤◌, ◌≡◌, refl, sym, ◌∙◌, not, List, arith, leb, ◌==◌, ==_iff, Outcome,
  ok, map_err, >>=-then, guard-eq-ok, map_err-eq-ok, ok-injective,
}
use mathlib.Core.Path.{subst}
use dao_contracts.Cosmwasm.{BlockInfo, add64}
use dao_contracts.Denom.{CheckedDenom, into_checked}
use dao_contracts.StakeTracker.{empty, total_staked}
use dao_contracts.Wormhole.{load}
use dao_contracts.Vesting.State.{
  WyndUtils, Curve, curve, unfunded, Schedule, Vest, VestInit, Payment, PaymentError, denom,
  payment_error, std_or, Msg,
}
use dao_contracts.Vesting.Payment.{requested, curve_of, into_curve, new, total, set_funded}
use dao_contracts.Vesting.Contract.{
  Funds, Chain, InstantiateMsg, State, fund_initially, instantiate,
}
use dao_contracts.Vesting.Solvent.{IsSolvent}
use dao_contracts.Vesting.Solvent.Slash.{set_funded-IsSolvent}

total_staked-empty : (t : ℕ) → total_staked empty t ≡ 0
unfolding total_staked load
total_staked-empty t = refl

module _ {Ownership : Type 0} (wynd : WyndUtils) (chain : Chain Ownership) where
  -- What is paid at the instantiation
  abbrev pub funding : CheckedDenom → Funds → Outcome PaymentError ℕ
  funding (CheckedDenom.native d) funds = chain.must_pay funds d
  funding (CheckedDenom.cw20 _) funds = ok 0

  into_curve-bounded :
      (schedule : Schedule) (all duration : ℕ) (c : Curve)
      → into_curve wynd schedule all duration ≡ ok c
      → (x : ℕ) → wynd.value c x ≤ (wynd.range c).1
  unfolding into_curve
  into_curve-bounded schedule all duration c h x =
      >>=-then (curve_of wynd schedule all duration) _ h λ c' _ h1.
        >>=-then (map_err curve (wynd.validate_monotonic_increasing c')) _ h1 λ _ e h2.
          let (_, h3) = else-eq-ok _ _ _ h2 in
          subst (λ k. wynd.value k x ≤ (wynd.range k).1) (ok-injective h3)
            (wynd.value_le c' x (map_err-eq-ok curve (wynd.validate_monotonic_increasing c') e))

  new-IsSolvent :
      (init : VestInit) (v : Vest)
      → new wynd init ≡ ok v
      → (v.status ≡ unfunded) × IsSolvent wynd (record { vesting = v; staking = empty }) 0
  unfolding new
  new-IsSolvent init v h =
      let (_, h1) = else-eq-ok (init.total == 0) _ _ h in
      let (_, h2) = else-eq-ok (init.duration_seconds == 0) _ _ h1 in
      >>=-then (into_curve wynd init.schedule init.total init.duration_seconds) _ h2 λ c e h3.
        subst
          (λ w. (w.status ≡ unfunded) × IsSolvent wynd (record { vesting = w; staking = empty }) 0)
          (ok-injective h3)
          (
            refl,
            record {
              balanced = omega arith;
              unstaked = λ u t. total_staked-empty t;
              bounded = into_curve-bounded init.schedule init.total init.duration_seconds c e;
            },
          )

  funded-IsSolvent :
      (d : CheckedDenom) (funds : Funds) (p : Payment) (r : Payment × List Msg) (held : ℕ)
      → p.vesting.status ≡ unfunded
      → IsSolvent wynd p 0
      → fund_initially wynd chain d funds p ≡ ok r
      → funding d funds ≡ ok held
      → IsSolvent wynd r.0 held
  unfolding fund_initially
  funded-IsSolvent (CheckedDenom.native d) funds p r held first solvent h paid =
      >>=-then (map_err payment_error (chain.must_pay funds d)) _ h λ sent e h1.
        let (right, h2) = guard-eq-ok (total wynd p.vesting == sent) _ _ h1 in
        let all = (==_iff (total wynd p.vesting) sent).0 right in
        let sum : sent ≡ held = ok-injective (sym (map_err-eq-ok payment_error _ e) ∙ paid) in
        >>=-then (std_or chain.bonded_denom) _ h2 λ bonded _ h3.
          subst (λ (x : Payment × List Msg). IsSolvent wynd x.0 held) (ok-injective h3)
            (subst (λ n. IsSolvent wynd (set_funded p) n) (all ∙ sum)
              (set_funded-IsSolvent wynd p solvent first))
  funded-IsSolvent (CheckedDenom.cw20 a) funds p r held first solvent h paid =
      >>=-then (map_err payment_error (chain.nonpayable funds)) _ h λ _ _ h1.
        subst (λ (x : Payment × List Msg). IsSolvent wynd x.0 held) (ok-injective h1)
          (subst (λ n. IsSolvent wynd p n) (ok-injective paid) solvent)

  -- Funding leaves the denomination.
  funded-denom :
      (d : CheckedDenom) (funds : Funds) (p : Payment) (r : Payment × List Msg)
      → fund_initially wynd chain d funds p ≡ ok r
      → (r.0).vesting.denom ≡ p.vesting.denom
  unfolding fund_initially set_funded
  funded-denom (CheckedDenom.native d) funds p r h =
      >>=-then (map_err payment_error (chain.must_pay funds d)) _ h λ sent e h1.
        let (_, h2) = guard-eq-ok (total wynd p.vesting == sent) _ _ h1 in
        >>=-then (std_or chain.bonded_denom) _ h2 λ bonded _ h3.
          subst (λ (x : Payment × List Msg). (x.0).vesting.denom ≡ p.vesting.denom)
            (ok-injective h3) refl
  funded-denom (CheckedDenom.cw20 a) funds p r h =
      >>=-then (map_err payment_error (chain.nonpayable funds)) _ h λ _ _ h1.
        subst (λ (x : Payment × List Msg). (x.0).vesting.denom ≡ p.vesting.denom) (ok-injective h1)
          refl

  new-denom : (init : VestInit) (v : Vest) → new wynd init ≡ ok v → v.denom ≡ init.denom
  unfolding new
  new-denom init v h =
      let (_, h1) = else-eq-ok (init.total == 0) _ _ h in
      let (_, h2) = else-eq-ok (init.duration_seconds == 0) _ _ h1 in
      >>=-then (into_curve wynd init.schedule init.total init.duration_seconds) _ h2
        λ c e h3. subst (λ w. w.denom ≡ init.denom) (ok-injective h3) refl

  started-IsSolvent :
      (init : VestInit) (v : Vest) (funds : Funds) (r : Payment × List Msg) (held : ℕ)
      → new wynd init ≡ ok v
      → fund_initially wynd chain init.denom funds (record { vesting = v; staking = empty }) ≡ ok r
      → funding (r.0).vesting.denom funds ≡ ok held
      → IsSolvent wynd r.0 held
  started-IsSolvent init v funds r held made h paid =
      let p : Payment = record { vesting = v; staking = empty } in
      let (first, solvent) = new-IsSolvent init v made in
      let same = funded-denom init.denom funds p r h ∙ new-denom init v made in
      funded-IsSolvent init.denom funds p r held first solvent h
        (subst (λ d. funding d funds ≡ ok held) same paid)

  pub instantiate-IsSolvent :
      (block : BlockInfo) (funds : Funds) (m : InstantiateMsg) (r : State Ownership × List Msg)
      (held : ℕ)
      → instantiate wynd chain block funds m ≡ ok r
      → funding (r.0).payment.vesting.denom funds ≡ ok held
      → IsSolvent wynd (r.0).payment held
  unfolding instantiate
  instantiate-IsSolvent block funds m r held h paid =
      >>=-then (std_or (chain.initialize_owner m.owner)) _ h λ ownership _ h1.
        >>=-then (map_err denom (into_checked chain.addr_validate chain.token_info m.denom)) _ h1
          λ checked _ h2. >>=-then (std_or (chain.addr_validate m.recipient)) _ h2 λ recipient _ h3.
            >>=-then
              (add64 (requested m.start_time block.time) (m.vesting_duration_seconds * 10 ^ 9)) _ h3
              λ end _ h4.
                let (_, h5) = guard-eq-ok (not (leb end block.time)) _ _ h4 in
                let init : VestInit = record {
                  total = m.total;
                  schedule = m.schedule;
                  start_time = requested m.start_time block.time;
                  duration_seconds = m.vesting_duration_seconds;
                  denom = checked;
                  recipient = recipient;
                  title = m.title;
                  description = m.description;
                } in
                >>=-then (new wynd init) _ h5 λ v e h6.
                  >>=-then
                    (fund_initially wynd chain checked funds
                      (record { vesting = v; staking = empty }))
                    _ h6
                    λ x e' h7.
                      let same = ok-injective h7 in
                      subst (λ (y : State Ownership × List Msg). IsSolvent wynd (y.0).payment held)
                        same
                        (started-IsSolvent init v funds x held e e' (
                          subst
                            (λ (y : State Ownership × List Msg).
                              funding (y.0).payment.vesting.denom funds ≡ ok held)
                            (sym same) paid))
