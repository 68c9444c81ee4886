-- ===== src/Condorcet/Matrix/Index.antt =====
-- contracts/proposal/dao-proposal-condorcet/src/m.rs: where the cells above the diagonal are stored.
use dao_contracts.Prelude.{
  ℕ, zero, suc, ◌+◌, ◌-◌, ◌*◌, ◌/◌, ◌%◌, ◌≤◌, ◌<◌, ◌≡◌, refl, sym, ap, ◌∙◌, ◌⊎◌, inl, inr, arith,
  ltb, leb, ltb→lt, leb→le, Bool-cases, ok,
}
use dao_contracts.Condorcet.Matrix.{index}

-- The cells before a row that the matrix stores, and where a cell stands
abbrev pub row_start : ℕ → ℕ → ℕ
row_start n y = y * n - (y + 1) * y / 2

abbrev pub slot : ℕ → ℕ → ℕ → ℕ
slot n x y = row_start n y + (x - (y + 1))

square-suc : (y : ℕ) → (suc y + 1) * suc y ≡ (y + 1) * y + 2 * (y + 1)
square-suc y = grind arith

product-suc : (y n : ℕ) → suc y * n ≡ y * n + n
product-suc y n = grind arith

pub half-le : (n y : ℕ) → y ≤ n → (y + 1) * y / 2 ≤ y * n
half-le n zero le = omega arith
half-le n (suc y) le = omega (arith, half-le n y (omega arith), square-suc y, product-suc y n)

row_start-suc : (n y : ℕ) → suc y ≤ n → row_start n (suc y) ≡ row_start n y + (n - suc y)
row_start-suc n y le = omega (arith, half-le n y (omega arith), square-suc y, product-suc y n)

le-zero : (y : ℕ) → y ≤ 0 → y ≡ 0
le-zero y le = omega arith

le-cases : (a b : ℕ) → a ≤ suc b → (a ≡ suc b) ⊎ (a ≤ b)
le-cases a b le = elim (Bool-cases (leb a b)) [
  | inl h ↦ inr (leb→le a b h)
  | inr h ↦ inl (ground arith)
]

pub order : (a b : ℕ) → (a < b) ⊎ ((a ≡ b) ⊎ (b < a))
order a b = elim (Bool-cases (ltb a b)) [
  | inl h ↦ inl (ltb→lt a b h)
  | inr h ↦
      inr (elim (Bool-cases (ltb b a)) [ inl k ↦ inr (ltb→lt b a k) | inr k ↦ inl (ground arith) ])
]

pub row_start-le : (n y z : ℕ) → y ≤ z → z ≤ n → row_start n y ≤ row_start n z
row_start-le n y zero le in_range = omega (arith, ap (row_start n) (le-zero y le))
row_start-le n y (suc z) le in_range = elim (le-cases y z le) [
  | inl same ↦ omega (arith, ap (row_start n) same)
  | inr less ↦ omega (arith, row_start-le n y z less (omega arith), row_start-suc n z in_range)
]

even : (n : ℕ) → (n + 1) * n % 2 ≡ 0
even zero = refl
even (suc n) = omega (arith, even n, square-suc n)

add_one : (n : ℕ) → (n + 1) * n + suc n ≡ n * suc n + suc n
add_one n = grind arith

less_one : (n : ℕ) → suc n - 1 ≡ n
less_one n = omega arith

-- The last row starts where the cells end.
pub row_start-all : (n : ℕ) → row_start n n ≡ n * (n - 1) / 2
row_start-all zero = refl
row_start-all (suc n) = omega (
  arith,
  square-suc n,
  product-suc n (suc n),
  add_one n,
  even n,
  ap (λ k. suc n * k) (less_one n),
)

pub index-slot :
    {E : Type 0} (n x y i : ℕ) → index {E = E} n x y ≡ ok i → (y < x) × (i ≡ slot n x y)
unfolding index
index-slot n x y i h = ground arith

pub slot-lt : (n x y : ℕ) → y < x → x < n → slot n x y < row_start n (suc y)
slot-lt n x y above in_range = omega (arith, row_start-suc n y (omega arith))

-- The index of a cell above the diagonal is within the list.
pub index-in_range :
    {E : Type 0} (n x y i : ℕ) → x < n → index {E = E} n x y ≡ ok i → i < n * (n - 1) / 2
index-in_range n x y i in_range h =
    let (above, at) = index-slot n x y i h in
    omega (
      arith,
      slot-lt n x y above in_range,
      row_start-le n (suc y) n (omega arith) (omega arith),
      row_start-all n,
    )

slot-injective :
    (n x y z w : ℕ) → y < x → x < n → w < z → z < n → slot n x y ≡ slot n z w → (x ≡ z) × (y ≡ w)
slot-injective n x y z w above x_in above' z_in same = elim (order y w) [
  | inl less ↦
      absurd (omega (arith, slot-lt n x y above x_in, row_start-le n (suc y) w less (omega arith)))
  | inr (inl equal) ↦ (omega (arith, ap (row_start n) equal), equal)
  | inr (inr more) ↦
      absurd (omega (arith, slot-lt n z w above' z_in, row_start-le n (suc w) y more (omega arith)))
]

-- Two cells above the diagonal have different indices.
pub index-injective :
    {E : Type 0} (n x y z w i : ℕ)
    → x < n
    → z < n
    → index {E = E} n x y ≡ ok i
    → index {E = E} n z w ≡ ok i
    → (x ≡ z) × (y ≡ w)
index-injective n x y z w i x_in z_in h k =
    let (above, at) = index-slot n x y i h in
    let (above', at') = index-slot n z w i k in
    slot-injective n x y z w above x_in above' z_in (sym at ∙ at')
