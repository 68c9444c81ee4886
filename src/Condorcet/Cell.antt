-- ===== src/Condorcet/Cell.antt =====
-- contracts/proposal/dao-proposal-condorcet/src/cell.rs: an integer by its sign and its distance
-- from zero.
use dao_contracts.Prelude.{ℕ, ◌+◌, ◌-◌, ◌≡◌, ltb, ◌==◌, if◌then◌else◌, arith, Outcome, ok, ◌>>=◌}
use dao_contracts.Cosmwasm.{add128}

pub data Cell : Type 0 where
  positive : ℕ → Cell
  zero : Cell
  negative : ℕ → Cell

module _ {E : Type 0} where
  unfoldable pub increment : Cell → ℕ → Outcome E Cell
  increment (positive n) amount = do sum ← add128 n amount; ok (positive sum)
  increment Cell.zero amount = ok (positive amount)
  increment (negative n) amount =
      if amount == n
      then ok Cell.zero
      else if ltb n amount
      then ok (positive (amount - n))
      else ok (negative (n - amount))

  unfoldable pub decrement : Cell → ℕ → Outcome E Cell
  decrement (positive n) amount =
      if amount == n
      then ok Cell.zero
      else if ltb n amount
      then ok (negative (amount - n))
      else ok (positive (n - amount))
  decrement Cell.zero amount = ok (negative amount)
  decrement (negative n) amount = do sum ← add128 n amount; ok (negative sum)

abbrev pub invert : Cell → Cell
invert (positive n) = negative n
invert Cell.zero = Cell.zero
invert (negative n) = positive n

-- The value is the difference of these two.
abbrev pub above : Cell → ℕ
above (positive n) = n
above _ = 0

abbrev pub below : Cell → ℕ
below (negative n) = n
below _ = 0

-- A sum and a difference, where they are computed
pub increment-adds :
    {E : Type 0} (c c' : Cell) (amount : ℕ)
    → increment {E = E} c amount ≡ ok c'
    → above c' + below c ≡ above c + amount + below c'
unfolding increment
increment-adds (positive n) c' amount h = ground arith
increment-adds Cell.zero c' amount h = ground arith
increment-adds (negative n) c' amount h = ground arith

pub decrement-takes :
    {E : Type 0} (c c' : Cell) (amount : ℕ)
    → decrement {E = E} c amount ≡ ok c'
    → above c' + below c + amount ≡ above c + below c'
unfolding decrement
decrement-takes (positive n) c' amount h = ground arith
decrement-takes Cell.zero c' amount h = ground arith
decrement-takes (negative n) c' amount h = ground arith
