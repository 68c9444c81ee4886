-- ===== src/Condorcet/Matrix/Empty.antt =====
-- contracts/proposal/dao-proposal-condorcet/src/m.rs: the matrix of a new proposal.
use dao_contracts.Prelude.{
  ℕ, zero, suc, ◌+◌, ◌-◌, ◌*◌, ◌/◌, ◌≤◌, ◌<◌, ◌≡◌, refl, ap, ◌∙◌, arith, lt→ltb, le→leb, ok,
  >>=-then, >>=-eq_next, ok-injective,
}
use mathlib.Core.Path.{subst}
use dao_contracts.Condorcet.Cell.{Cell}
use dao_contracts.Condorcet.Matrix.{
  M, u32_mod, add32, sub32, mul32, zeros, new, index, read, get_above,
}
use dao_contracts.Condorcet.Matrix.Index.{
  row_start, slot, half-le, slot-lt, row_start-le, row_start-all,
}
use dao_contracts.Condorcet.Matrix.Margins.{Represents}

row-le : (n y : ℕ) → suc y < n → suc y * n ≤ n * (n - 1)
row-le n y less = grind arith

square-le : (n y : ℕ) → suc y < n → (y + 1) * y ≤ y * n
square-le n y less = grind arith

product-suc : (n y : ℕ) → suc y * n ≡ y * n + n
product-suc n y = grind arith

read-zeros : {E : Type 0} (k i : ℕ) → i < k → read {E = E} (zeros k) i ≡ ok Cell.zero
unfolding read zeros
read-zeros zero i less = absurd (omega arith)
read-zeros (suc k) zero less = refl
read-zeros (suc k) (suc i) less = read-zeros k i (omega arith)

module _ (E : Type 0) where
  add32-ok : (a b : ℕ) → a + b < u32_mod → add32 {E = E} a b ≡ ok (a + b)
  add32-ok a b less = rw (lt→ltb _ _ less)

  sub32-ok : (a b : ℕ) → b ≤ a → sub32 {E = E} a b ≡ ok (a - b)
  sub32-ok a b le = rw (le→leb _ _ le)

  mul32-ok : (a b : ℕ) → a * b < u32_mod → mul32 {E = E} a b ≡ ok (a * b)
  mul32-ok a b less = rw (lt→ltb _ _ less)

  sub32-is : (a b n : ℕ) → sub32 {E = E} a b ≡ ok n → n ≡ a - b
  sub32-is a b n h = ground arith

  mul32-is : (a b n : ℕ) → mul32 {E = E} a b ≡ ok n → (n ≡ a * b) × (a * b < u32_mod)
  mul32-is a b n h = ground arith

  -- The index of a cell above the diagonal is computed without an overflow.
  index-ok :
      (n x y : ℕ) → n * (n - 1) < u32_mod → y < x → x < n → index {E = E} n x y ≡ ok (slot n x y)
  unfolding index
  index-ok n x y fits above x_in =
      let area = row-le n y (omega arith) in
      let square = square-le n y (omega arith) in
      let next = product-suc n y in
      let within = half-le n y (omega arith) in
      let bound = slot-lt n x y above x_in in
      let rows = row_start-le n (suc y) n (omega arith) (omega arith) in
      let all = row_start-all n in
      >>=-eq_next (mul32 y n) _ (y * n) (mul32-ok y n (omega arith)) (
        >>=-eq_next (add32 y 1) _ (y + 1) (add32-ok y 1 (omega arith)) (
          >>=-eq_next (mul32 (y + 1) y) _ ((y + 1) * y) (mul32-ok (y + 1) y (omega arith)) (
            >>=-eq_next (sub32 (y * n) ((y + 1) * y / 2)) _ (row_start n y) (sub32-ok _ _ within) (
              >>=-eq_next (sub32 x (y + 1)) _ (x - (y + 1)) (sub32-ok _ _ (omega arith))
                (add32-ok (row_start n y) (x - (y + 1)) (omega arith))))))

  -- A new matrix stands for no vote at all.
  pub new-Represents :
      (n : ℕ) (m : M) → new {E = E} n ≡ ok m → (m.n ≡ n) × Represents E m (λ a b. 0)
  unfolding new get_above
  new-Represents n m h = >>=-then (sub32 n 1) _ h λ less e h1.
      >>=-then (mul32 n less) _ h1 λ area e2 h2.
        let is_less = sub32-is n 1 less e in
        let (is_area, fits) = mul32-is n less area e2 in
        let product = is_area ∙ ap (λ k. n * k) is_less in
        subst (λ (k : M). (k.n ≡ n) × Represents E k (λ a b. 0)) (ok-injective h2)
          (
            refl,
            λ x y above x_in. (
              Cell.zero,
              >>=-eq_next (index n x y) _ (slot n x y) (index-ok n x y (omega arith) above x_in) (
                  read-zeros (area / 2) (slot n x y) (
                    omega (
                      arith,
                      slot-lt n x y above x_in,
                      row_start-le n (suc y) n (omega arith) (omega arith),
                      row_start-all n,
                    ))),
              refl,
            ),
          )
