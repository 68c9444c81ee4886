-- ===== src/StakeTracker/Reachable.antt =====
-- The states that a stake tracker passes through without a slash of unbonding tokens.
use dao_contracts.Prelude.{
  ℕ, ◌+◌, ◌≡◌, refl, sym, Bool, true, false, List, [], ◌∷◌, arith, ltb, ◌==◌, if◌then◌else◌, ok,
  >>=-eq-ok, ok-injective,
}
use mathlib.Core.Path.{subst}
use dao_contracts.Cosmwasm.{StdError, add128, sub128}
use dao_contracts.Voting.Policy.{contains}
use dao_contracts.Hooks.{IsUnique}
use dao_contracts.Wormhole.{load}
use dao_contracts.Wormhole.History.{IsSorted}
use dao_contracts.StakeTracker.{
  Validator, StakeTracker, empty, increment128, decrement128, more_validators, fewer_validators,
  put, total_staked, validator_staked, on_delegate, on_redelegate, on_undelegate, on_bonded_slash,
}
use dao_contracts.StakeTracker.Sums.{sum, sum-put, IsTotal}
use dao_contracts.StakeTracker.Totals.{
  increment128-Changed, decrement128-Changed, either-IsSorted, on_delegate-IsTotal,
  on_undelegate-IsTotal, on_bonded_slash-IsTotal,
}

module _ {E : Type 0} where
  moved_on :
      (c : Bool) (amount a b a' b' : ℕ)
      → (if c then ok a else sub128 {E = E} a amount) ≡ ok a'
      → (if c then ok b else add128 {E = E} b amount) ≡ ok b'
      → a' + b' ≡ a + b
  moved_on true amount a b a' b' x y = ground arith
  moved_on false amount a b a' b' x y = ground arith

  on_redelegate-IsTotal :
      (vs : List Validator) (src dst : Validator) (t amount : ℕ) (tracker r : StakeTracker)
      → IsUnique vs
      → contains vs src ≡ true
      → contains vs dst ≡ true
      → IsTotal vs tracker
      → on_redelegate {E = E} t src dst amount tracker ≡ ok r
      → IsTotal vs r
  unfolding on_redelegate
  on_redelegate-IsTotal vs src dst t amount tracker r unique from_known to_known inv h =
      let ((s1, from, left), e1, h1) =
        >>=-eq-ok (decrement128 t amount (tracker.validators src)) _ h in
      let (fewer, e2, h2) = >>=-eq-ok (fewer_validators _ t tracker.cardinality) _ h1 in
      let moved = put src from tracker.validators in
      let ((s2, to, new), e3, h3) = >>=-eq-ok (increment128 t amount (moved dst)) _ h2 in
      let (cardinality, e4, last) = >>=-eq-ok (more_validators _ t fewer) _ h3 in
      let a =
        decrement128-Changed t amount (tracker.validators src) (s1, from, left)
          (inv.validators_sorted src) e1 in
      let moved_sorted : (w : Validator) → IsSorted (moved w) = λ w.
        either-IsSorted (src == w) from (tracker.validators w) a.sorted (inv.validators_sorted w) in
      let b = increment128-Changed t amount (moved dst) (s2, to, new) (moved_sorted dst) e3 in
      subst (λ x. IsTotal vs x) (ok-injective last)
        (record {
          sorted = inv.sorted;
          validators_sorted =
              λ w. either-IsSorted (dst == w) to (moved w) b.sorted (moved_sorted w);
          sums = λ t'. omega (
            arith,
            inv.sums t',
            sum-put vs src from tracker.validators t' unique from_known,
            sum-put vs dst to moved t' unique to_known,
            moved_on (ltb t' t) amount _ _ _ _ (a.values t') (b.values t'),
          );
        })

-- What a contract that embeds the tracker does with it, for some validators
pub data Reachable (vs : List Validator) : StakeTracker → Type 0 where
  new : Reachable vs empty
  delegated :
      {s r : StakeTracker} (t : ℕ) (v : Validator) (amount : ℕ)
      → Reachable vs s
      → contains vs v ≡ true
      → on_delegate {E = StdError} t v amount s ≡ ok r
      → Reachable vs r
  redelegated :
      {s r : StakeTracker} (t : ℕ) (src dst : Validator) (amount : ℕ)
      → Reachable vs s
      → contains vs src ≡ true
      → contains vs dst ≡ true
      → on_redelegate {E = StdError} t src dst amount s ≡ ok r
      → Reachable vs r
  undelegated :
      {s r : StakeTracker} (t : ℕ) (v : Validator) (amount duration : ℕ)
      → Reachable vs s
      → contains vs v ≡ true
      → on_undelegate {E = StdError} t v amount duration s ≡ ok r
      → Reachable vs r
  slashed :
      {s r : StakeTracker} (t : ℕ) (v : Validator) (amount : ℕ)
      → Reachable vs s
      → contains vs v ≡ true
      → on_bonded_slash {E = StdError} t v amount s ≡ ok r
      → Reachable vs r

nothing_staked : (vs : List Validator) → sum vs (λ v. 0) ≡ 0
unfolding sum
nothing_staked [] = refl
nothing_staked (v ∷ vs) = ground (arith, nothing_staked vs)

empty-IsTotal : (vs : List Validator) → IsTotal vs empty
unfolding load
empty-IsTotal vs = record {
  sorted = tt;
  validators_sorted = λ v. tt;
  sums = λ t. sym (nothing_staked vs);
}

Reachable-IsTotal :
    (vs : List Validator) {s : StakeTracker} → IsUnique vs → Reachable vs s → IsTotal vs s
Reachable-IsTotal vs u new = empty-IsTotal vs
Reachable-IsTotal vs u (delegated t v amount before known h) =
    on_delegate-IsTotal vs v t amount _ _ u known (Reachable-IsTotal vs u before) h
Reachable-IsTotal vs u (redelegated t src dst amount before from to h) =
    on_redelegate-IsTotal vs src dst t amount _ _ u from to (Reachable-IsTotal vs u before) h
Reachable-IsTotal vs u (undelegated t v amount duration before known h) =
    on_undelegate-IsTotal vs v t amount _ _ u known (Reachable-IsTotal vs u before) duration h
Reachable-IsTotal vs u (slashed t v amount before known h) =
    on_bonded_slash-IsTotal vs v t amount _ _ u known (Reachable-IsTotal vs u before) h

-- After any accepted delegations, redelegations, undelegations and slashes of bonded tokens of some
-- validators, without repetition in their list, at any times in any order, the total at every time,
-- past or to come, is the sum of what is staked with these validators.
pub total_of_Reachable :
    (vs : List Validator) (s : StakeTracker) (t : ℕ)
    → IsUnique vs
    → Reachable vs s
    → total_staked s t ≡ sum vs (λ v. validator_staked s t v)
unfolding total_staked validator_staked
total_of_Reachable vs s t u h = (Reachable-IsTotal vs u h).sums t
