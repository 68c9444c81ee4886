-- ===== src/StakeTracker/Totals.antt =====
-- The total is the sum over the validators after every change but the slash of unbonding tokens.
use dao_contracts.Prelude.{
  ℕ, ◌+◌, ◌≡◌, ap, Bool, true, false, List, [], arith, ltb, ◌==◌, ==_iff, if◌then◌else◌, Outcome,
  ok, >>=-eq-ok, ok-injective,
}
use mathlib.Core.Path.{subst, ◌∙◌}
use dao_contracts.Cosmwasm.{add128, sub128, add64}
use dao_contracts.Voting.Policy.{contains}
use dao_contracts.Hooks.{IsUnique}
use dao_contracts.Wormhole.{Snapshots, update, increment, decrement, pointwise}
use dao_contracts.Wormhole.History.{IsSorted}
use dao_contracts.Wormhole.Refines.{update-IsSorted, update-refines}
use dao_contracts.StakeTracker.{
  Validator, StakeTracker, Change, increment128, decrement128, more_validators, fewer_validators,
  put, slash, change_cardinality, on_delegate, on_undelegate, on_bonded_slash,
}
use dao_contracts.StakeTracker.Sums.{read, sum-put, IsTotal}

pub either-IsSorted :
    (c : Bool) (g h : Snapshots ℕ) → IsSorted g → IsSorted h → IsSorted (if c then g else h)
either-IsSorted true g h a b = a
either-IsSorted false g h a b = b

-- A change of one validator in which the sum keeps up with the total
keeps_up :
    (vs : List Validator) (v : Validator) (tracker : StakeTracker)
    (total staked cardinality : Snapshots ℕ)
    → IsUnique vs
    → contains vs v ≡ true
    → IsTotal vs tracker
    → IsSorted total
    → IsSorted staked
    → ((t : ℕ)
        → read total t + read (tracker.validators v) t
          ≡ read tracker.total_staked t + read staked t)
    → IsTotal vs (record {
      total_staked = total;
      validators = put v staked tracker.validators;
      cardinality = cardinality;
    })
keeps_up vs v tracker total staked cardinality u i inv ts ss balance = record {
  sorted = ts;
  validators_sorted =
      λ w. either-IsSorted (v == w) staked (tracker.validators w) ss (inv.validators_sorted w);
  sums = λ t. omega (arith, balance t, inv.sums t, sum-put vs v staked tracker.validators t u i);
}

module _ {E : Type 0} where
  -- What a change leaves: snapshots in order, and at every time from `t` on the value of `f`.
  pub record Changed (f : ℕ → Outcome E ℕ) (t : ℕ) (h h' : Snapshots ℕ) : Type 0 where
    pub sorted : IsSorted h'
    pub values : (t' : ℕ) → (if ltb t' t then ok (read h t') else f (read h t')) ≡ ok (read h' t')

  pointwise-values :
      (f : ℕ → Outcome E ℕ) (s : Unit {0}) (v t : ℕ) (x : Unit {0} × ℕ)
      → pointwise f s v t ≡ ok x
      → f v ≡ ok x.1
  pointwise-values f s v t x h =
      let (w, e, last) = >>=-eq-ok (f v) _ h in
      e ∙ ap (λ (y : Unit {0} × ℕ). ok y.1) (ok-injective last)

  pub increment128-Changed :
      (t amount : ℕ) (h : Snapshots ℕ) (r : Unit {0} × Snapshots ℕ × ℕ)
      → IsSorted h
      → increment128 {E = E} t amount h ≡ ok r
      → Changed (λ v. add128 v amount) t h r.1
  unfolding increment128 increment
  increment128-Changed t amount h r s e =
      let f : ℕ → Outcome E ℕ = λ v. add128 v amount in
      record {
        sorted = update-IsSorted 0 ◌==◌ f (pointwise f) (pointwise-values f) tt t h r s e;
        values = λ t'.
            (update-refines 0 ◌==◌ f (pointwise f) (pointwise-values f) (λ a b. (==_iff a b).0) tt t
              t' h r s e).0;
      }

  pub decrement128-Changed :
      (t amount : ℕ) (h : Snapshots ℕ) (r : Unit {0} × Snapshots ℕ × ℕ)
      → IsSorted h
      → decrement128 {E = E} t amount h ≡ ok r
      → Changed (λ v. sub128 v amount) t h r.1
  unfolding decrement128 decrement
  decrement128-Changed t amount h r s e =
      let f : ℕ → Outcome E ℕ = λ v. sub128 v amount in
      record {
        sorted = update-IsSorted 0 ◌==◌ f (pointwise f) (pointwise-values f) tt t h r s e;
        values = λ t'.
            (update-refines 0 ◌==◌ f (pointwise f) (pointwise-values f) (λ a b. (==_iff a b).0) tt t
              t' h r s e).0;
      }

  slash-values :
      (amount : ℕ) (s : Bool × List Change) (v t : ℕ) (x : (Bool × List Change) × ℕ)
      → slash {E = E} amount s v t ≡ ok x
      → sub128 {E = E} v amount ≡ ok x.1
  unfolding slash
  slash-values amount (was, changes) v t x h = ground arith

  slash-Changed :
      (amount t : ℕ) (h : Snapshots ℕ) (r : (Bool × List Change) × Snapshots ℕ × ℕ)
      → IsSorted h
      → update {E = E} 0 ◌==◌ (slash amount) (true, []) t h ≡ ok r
      → Changed (λ v. sub128 v amount) t h r.1
  slash-Changed amount t h r s e =
      let f : ℕ → Outcome E ℕ = λ v. sub128 v amount in
      record {
        sorted = update-IsSorted 0 ◌==◌ f (slash amount) (slash-values amount) (true, []) t h r s e;
        values = λ t'.
            (update-refines 0 ◌==◌ f (slash amount) (slash-values amount) (λ a b. (==_iff a b).0)
              (true, []) t t' h r s e).0;
      }

  both_added :
      (c : Bool) (amount a b a' b' : ℕ)
      → (if c then ok a else add128 {E = E} a amount) ≡ ok a'
      → (if c then ok b else add128 {E = E} b amount) ≡ ok b'
      → a' + b ≡ a + b'
  both_added true amount a b a' b' x y = ground arith
  both_added false amount a b a' b' x y = ground arith

  both_taken :
      (c : Bool) (amount a b a' b' : ℕ)
      → (if c then ok a else sub128 {E = E} a amount) ≡ ok a'
      → (if c then ok b else sub128 {E = E} b amount) ≡ ok b'
      → a' + b ≡ a + b'
  both_taken true amount a b a' b' x y = ground arith
  both_taken false amount a b a' b' x y = ground arith

  module _ (vs : List Validator) (v : Validator) (t amount : ℕ) (tracker r : StakeTracker)
      (unique : IsUnique vs) (known : contains vs v ≡ true) (inv : IsTotal vs tracker) where
    pub on_delegate-IsTotal : on_delegate {E = E} t v amount tracker ≡ ok r → IsTotal vs r
    unfolding on_delegate
    on_delegate-IsTotal h =
        let ((s1, total, n1), e1, h1) =
          >>=-eq-ok (increment128 t amount tracker.total_staked) _ h in
        let (cardinality, e2, h2) = >>=-eq-ok (more_validators _ t tracker.cardinality) _ h1 in
        let ((s2, staked, n2), e3, last) =
          >>=-eq-ok (increment128 t amount (tracker.validators v)) _ h2 in
        let a = increment128-Changed t amount tracker.total_staked (s1, total, n1) inv.sorted e1 in
        let b =
          increment128-Changed t amount (tracker.validators v) (s2, staked, n2)
            (inv.validators_sorted v) e3 in
        subst (λ x. IsTotal vs x) (ok-injective last)
          (keeps_up vs v tracker total staked cardinality unique known inv a.sorted b.sorted
            (λ t'. both_added (ltb t' t) amount _ _ _ _ (a.values t') (b.values t')))

    pub on_undelegate-IsTotal :
        (duration : ℕ) → on_undelegate {E = E} t v amount duration tracker ≡ ok r → IsTotal vs r
    unfolding on_undelegate
    on_undelegate-IsTotal duration h =
        let (end, e0, h0) = >>=-eq-ok (add64 t duration) _ h in
        let ((s1, total, n1), e1, h1) =
          >>=-eq-ok (decrement128 end amount tracker.total_staked) _ h0 in
        let ((s2, staked, n2), e3, h2) =
          >>=-eq-ok (decrement128 end amount (tracker.validators v)) _ h1 in
        let (cardinality, e2, last) = >>=-eq-ok (fewer_validators _ end tracker.cardinality) _ h2 in
        let a =
          decrement128-Changed end amount tracker.total_staked (s1, total, n1) inv.sorted e1 in
        let b =
          decrement128-Changed end amount (tracker.validators v) (s2, staked, n2)
            (inv.validators_sorted v) e3 in
        subst (λ x. IsTotal vs x) (ok-injective last)
          (keeps_up vs v tracker total staked cardinality unique known inv a.sorted b.sorted
            (λ t'. both_taken (ltb t' end) amount _ _ _ _ (a.values t') (b.values t')))

    pub on_bonded_slash-IsTotal : on_bonded_slash {E = E} t v amount tracker ≡ ok r → IsTotal vs r
    unfolding on_bonded_slash
    on_bonded_slash-IsTotal h =
        let ((s1, total, n1), e1, h1) =
          >>=-eq-ok (decrement128 t amount tracker.total_staked) _ h in
        let ((s2, staked, n2), e3, h2) =
          >>=-eq-ok (update 0 ◌==◌ (slash amount) (true, []) t (tracker.validators v)) _ h1 in
        let (cardinality, e2, last) =
          >>=-eq-ok (change_cardinality s2.1 tracker.cardinality) _ h2 in
        let a = decrement128-Changed t amount tracker.total_staked (s1, total, n1) inv.sorted e1 in
        let b =
          slash-Changed amount t (tracker.validators v) (s2, staked, n2) (inv.validators_sorted v)
            e3 in
        subst (λ x. IsTotal vs x) (ok-injective last)
          (keeps_up vs v tracker total staked cardinality unique known inv a.sorted b.sorted
            (λ t'. both_taken (ltb t' t) amount _ _ _ _ (a.values t') (b.values t')))
