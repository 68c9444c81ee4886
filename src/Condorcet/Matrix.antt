-- ===== src/Condorcet/Matrix.antt =====
-- contracts/proposal/dao-proposal-condorcet/src/m.rs: the matrix of margins, of which the part above
-- the diagonal is stored row by row. Its numbers of rows and columns are u32, whose arithmetic
-- panics out of range.
pub mod Index
pub mod Margins
pub mod Refines
pub mod Columns
pub mod Empty
use dao_contracts.Prelude.{
  ℕ, zero, suc, ◌+◌, ◌-◌, ◌*◌, ◌/◌, ◌^◌, Bool, true, false, not, ◌&&◌, List, [], ◌∷◌, ltb, leb,
  ◌==◌, if◌then◌else◌, Outcome, ok, panic, ◌>>=◌,
}
use dao_contracts.Cosmwasm.{u128_mod}
use dao_contracts.Condorcet.Cell.{Cell, positive, negative, invert}
use dao_contracts.Condorcet.Cell as Cell

abbrev pub u32_mod : ℕ
u32_mod = 2 ^ 32

module _ {E : Type 0} where
  -- The arithmetic of u32
  abbrev pub add32 : ℕ → ℕ → Outcome E ℕ
  add32 a b = if ltb (a + b) u32_mod then ok (a + b) else panic

  abbrev pub sub32 : ℕ → ℕ → Outcome E ℕ
  sub32 a b = if leb b a then ok (a - b) else panic

  abbrev pub mul32 : ℕ → ℕ → Outcome E ℕ
  mul32 a b = if ltb (a * b) u32_mod then ok (a * b) else panic

pub record M : Type 0 where
  pub cells : List Cell
  pub n : ℕ

-- `vec![Cell::default(); k]`
unfoldable pub zeros : ℕ → List Cell
zeros zero = []
zeros (suc k) = Cell.zero ∷ zeros k

module _ {E : Type 0} where
  unfoldable pub new : ℕ → Outcome E M
  unfolding zeros
  new n = do less ← sub32 n 1; area ← mul32 n less; ok (record { cells = zeros (area / 2); n = n })

  unfoldable pub index : ℕ → ℕ → ℕ → Outcome E ℕ
  index n x y = do
    whole ← mul32 y n
    next ← add32 y 1
    square ← mul32 next y
    row ← sub32 whole (square / 2)
    offset ← sub32 x next
    add32 row offset

  -- `self.cells[i]`, and a change of it
  unfoldable pub read : List Cell → ℕ → Outcome E Cell
  read [] i = panic
  read (c ∷ cells) zero = ok c
  read (c ∷ cells) (suc i) = read cells i

  unfoldable pub change : (Cell → Outcome E Cell) → List Cell → ℕ → Outcome E (List Cell)
  change f [] i = panic
  change f (c ∷ cells) zero = do c' ← f c; ok (c' ∷ cells)
  change f (c ∷ cells) (suc i) = do rest ← change f cells i; ok (c ∷ rest)

  -- A cell of the part above the diagonal
  unfoldable pub get_above : M → ℕ → ℕ → Outcome E Cell
  unfolding index read
  get_above m x y = do i ← index m.n x y; read m.cells i

  unfoldable pub change_above : (Cell → Outcome E Cell) → M → ℕ → ℕ → Outcome E M
  unfolding index change
  change_above f m x y = do
    i ← index m.n x y
    cells ← change f m.cells i
    ok (record m { cells = cells })

  unfoldable pub get : M → ℕ → ℕ → Outcome E Cell
  get m x y = if ltb x y then (do c ← get_above m y x; ok (invert c)) else get_above m x y

  unfoldable pub increment : M → ℕ → ℕ → ℕ → Outcome E M
  increment m x y amount =
      if ltb x y
      then change_above (λ c. Cell.decrement c amount) m y x
      else change_above (λ c. Cell.increment c amount) m x y

  unfoldable pub decrement : M → ℕ → ℕ → ℕ → Outcome E M
  decrement m x y amount =
      if ltb x y
      then change_above (λ c. Cell.increment c amount) m y x
      else change_above (λ c. Cell.decrement c amount) m x y

pub data Stats : Type 0 where
  positive_column : (col min_margin : ℕ) → Stats
  no_positive_column : (no_winnable_columns : Bool) → Stats

-- What the loop over the rows of a column keeps. The distance is a Uint256, which 2^32 rows of at
-- most 2^128 each do not exceed.
pub record Column : Type 0 where
  pub distance_from_positivity : ℕ
  pub min_margin : ℕ
  pub max_negative : ℕ

abbrev pub start : Column
start = record { distance_from_positivity = 0; min_margin = u128_mod - 1; max_negative = 0 }

unfoldable pub visit : Column → Cell → Column
visit k (positive p) = record k { min_margin = if ltb p k.min_margin then p else k.min_margin }
visit k (negative v) = record k {
  max_negative = if ltb k.max_negative v then v else k.max_negative;
  distance_from_positivity = k.distance_from_positivity + (v + 1);
}
visit k Cell.zero = record k { distance_from_positivity = k.distance_from_positivity + 1 }

unfoldable pub is_winnable : ℕ → ℕ → Column → Bool
is_winnable n power_outstanding k =
    leb k.distance_from_positivity (power_outstanding * (n - 1))
    && ltb k.max_negative power_outstanding

module _ {E : Type 0} where
  -- The loop over the rows, of which so many are left
  unfoldable pub scan : M → (col : ℕ) → (left row : ℕ) → Column → Outcome E Column
  unfolding visit
  scan m col zero row k = ok k
  scan m col (suc left) row k = do
    k' ← if row == col then ok k else (do c ← get m col row; ok (visit k c))
    scan m col left (row + 1) k'

  -- The loop over the columns
  unfoldable pub search_columns :
      M → (power_outstanding left col : ℕ) → (no_winnable_columns : Bool) → Outcome E Stats
  unfolding scan is_winnable
  search_columns m power_outstanding zero col no_winnable_columns =
      ok (no_positive_column no_winnable_columns)
  search_columns m power_outstanding (suc left) col no_winnable_columns = do
    k ← scan m col m.n 0 start
    let rest =
        search_columns m power_outstanding left (col + 1)
          (no_winnable_columns && not (is_winnable m.n power_outstanding k))
    if k.distance_from_positivity == 0 then ok (positive_column col k.min_margin) else rest

  unfoldable pub stats : M → ℕ → Outcome E Stats
  unfolding search_columns
  stats m power_outstanding = search_columns m power_outstanding m.n 0 true
