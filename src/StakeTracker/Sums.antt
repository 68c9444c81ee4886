-- ===== src/StakeTracker/Sums.antt =====
-- The sum of what is staked with some validators, and its change when one of them changes.
use dao_contracts.Prelude.{ℕ, ◌+◌, ◌≡◌, refl, true, false, List, [], ◌∷◌, arith}
use dao_contracts.Voting.Policy.{contains}
use dao_contracts.Hooks.{IsUnique}
use dao_contracts.Wormhole.{Snapshots, unwrap_or, load}
use dao_contracts.Wormhole.History.{IsSorted}
use dao_contracts.StakeTracker.{Validator, StakeTracker, put}

-- The amount at a time
abbrev pub read : Snapshots ℕ → ℕ → ℕ
read h t = unwrap_or 0 (load h t)

unfoldable pub sum : List Validator → (Validator → ℕ) → ℕ
sum [] g = 0
sum (v ∷ vs) g = g v + sum vs g

-- The amounts of the validators `vs` at a time, together
abbrev pub staked_with : List Validator → (Validator → Snapshots ℕ) → ℕ → ℕ
staked_with vs validators t = sum vs (λ v. read (validators v) t)

sum-put_out :
    (vs : List Validator) (v : Validator) (h : Snapshots ℕ) (validators : Validator → Snapshots ℕ)
    (t : ℕ)
    → contains vs v ≡ false
    → staked_with vs (put v h validators) t ≡ staked_with vs validators t
unfolding sum contains
sum-put_out [] v h validators t out = refl
sum-put_out (w ∷ vs) v h validators t out = ground (arith, sum-put_out vs v h validators t)

pub sum-put :
    (vs : List Validator) (v : Validator) (h : Snapshots ℕ) (validators : Validator → Snapshots ℕ)
    (t : ℕ)
    → IsUnique vs
    → contains vs v ≡ true
    → staked_with vs (put v h validators) t + read (validators v) t
      ≡ staked_with vs validators t + read h t
unfolding sum contains
sum-put [] v h validators t u i = cc
sum-put (w ∷ vs) v h validators t u i =
    ground (arith, sum-put_out vs v h validators t, sum-put vs v h validators t u.1)

-- The total is the sum over the validators `vs`, at every time.
pub record IsTotal (vs : List Validator) (tracker : StakeTracker) : Type 0 where
  pub sorted : IsSorted tracker.total_staked
  pub validators_sorted : (v : Validator) → IsSorted (tracker.validators v)
  pub sums : (t : ℕ) → read tracker.total_staked t ≡ staked_with vs tracker.validators t
