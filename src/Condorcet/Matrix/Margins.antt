-- ===== src/Condorcet/Matrix/Margins.antt =====
-- contracts/proposal/dao-proposal-condorcet/src/m.rs: what the matrix stands for, the power of the
-- votes that prefer one candidate to another.
use dao_contracts.Prelude.{
  ℕ, zero, suc, ◌+◌, ◌<◌, ◌≡◌, ◌≢◌, refl, sym, ap, ◌∙◌, ◌⊎◌, inl, inr, ◌&&◌, List, [], ◌∷◌, arith,
  ◌==◌, Bool-cases, Outcome, ok, >>=-then, ok-injective,
}
use mathlib.Core.Path.{subst}
use dao_contracts.Condorcet.Cell.{Cell, above, below}
use dao_contracts.Condorcet.Matrix.{M, index, read, change, get_above, change_above}
use dao_contracts.Condorcet.Matrix.Index.{index-slot, index-injective}

module _ (E : Type 0) where
  others_head :
      (cells : List Cell) (c c' : Cell) (j : ℕ)
      → j ≢ 0
      → read {E = E} (c' ∷ cells) j ≡ read {E = E} (c ∷ cells) j
  unfolding read
  others_head cells c c' zero ne = absurd (ne refl)
  others_head cells c c' (suc j) ne = refl

  others_tail :
      (cells rest : List Cell) (c : Cell) (i : ℕ)
      → ((j : ℕ) → j ≢ i → read {E = E} rest j ≡ read {E = E} cells j)
      → (j : ℕ) → j ≢ suc i
      → read {E = E} (c ∷ rest) j ≡ read {E = E} (c ∷ cells) j
  unfolding read
  others_tail cells rest c i same zero ne = refl
  others_tail cells rest c i same (suc j) ne = same j (λ e. ne (ap suc e))

  -- What a change of a cell does
  record Changed (f : Cell → Outcome E Cell) (cells cells' : List Cell) (i : ℕ) : Type 0 where
    old : Cell
    new : Cell
    was : read {E = E} cells i ≡ ok old
    done : f old ≡ ok new
    is : read {E = E} cells' i ≡ ok new
    others : (j : ℕ) → j ≢ i → read {E = E} cells' j ≡ read cells j

  change-Changed :
      (f : Cell → Outcome E Cell) (cells cells' : List Cell) (i : ℕ)
      → change f cells i ≡ ok cells'
      → Changed f cells cells' i
  unfolding change read
  change-Changed f [] cells' i h = cc
  change-Changed f (c ∷ cells) cells' zero h = >>=-then (f c) _ h λ c' e k.
      subst (λ l. Changed f (c ∷ cells) l zero) (ok-injective k)
        (record {
          old = c;
          new = c';
          was = refl;
          done = e;
          is = refl;
          others = others_head cells c c';
        })
  change-Changed f (c ∷ cells) cells' (suc i) h = >>=-then (change f cells i) _ h λ rest e k.
      let t = change-Changed f cells rest i e in
      subst (λ l. Changed f (c ∷ cells) l (suc i)) (ok-injective k)
        (record {
          old = t.old;
          new = t.new;
          was = t.was;
          done = t.done;
          is = t.is;
          others = others_tail cells rest c i t.others;
        })

  -- A cell above the diagonal holds the difference of the two numbers of its pair.
  abbrev pub Holds : M → (ℕ → ℕ → ℕ) → ℕ → ℕ → Type 0
  Holds m prefer x y =
      (c : Cell) × (get_above {E = E} m x y ≡ ok c) × (above c + prefer y x ≡ below c + prefer x y)

  -- The matrix stands for a number for each pair of candidates, the power that prefers the one to the
  -- other.
  abbrev pub Represents : M → (ℕ → ℕ → ℕ) → Type 0
  Represents m prefer = (x y : ℕ) → y < x → x < m.n → Holds m prefer x y

  read_above :
      (m : M) (x y : ℕ) (c : Cell)
      → get_above {E = E} m x y ≡ ok c
      → (i : ℕ) × (index {E = E} m.n x y ≡ ok i) × (read {E = E} m.cells i ≡ ok c)
  unfolding get_above
  read_above m x y c h = >>=-then (index m.n x y) _ h λ i e k. (i, e, k)

  get_above-read :
      (m : M) (x y i : ℕ) → index {E = E} m.n x y ≡ ok i → get_above {E = E} m x y ≡ read m.cells i
  unfolding get_above
  get_above-read m x y i h = rw h

  touched_cell :
      (f : Cell → Outcome E Cell) (m m' : M) (prefer prefer' : ℕ → ℕ → ℕ) (x y p q i : ℕ)
      → Holds m prefer x y
      → Changed f m.cells m'.cells i
      → index {E = E} m.n x y ≡ ok i
      → m'.n ≡ m.n
      → ((c c' : Cell) → f c ≡ ok c' → above c' + below c + q ≡ above c + p + below c')
      → prefer' x y ≡ prefer x y + p
      → prefer' y x ≡ prefer y x + q
      → Holds m' prefer' x y
  touched_cell f m m' prefer prefer' x y p q i (c, got, sum) t at n spec hit hit' =
      let old = ok-injective (sym (get_above-read m x y i at ∙ t.was) ∙ got) in
      let same = ap above old in
      let same' = ap below old in
      (
        t.new,
        get_above-read m' x y i (ap (λ k. index k x y) n ∙ at) ∙ t.is,
        omega (arith, spec t.old t.new t.done),
      )

  untouched_cell :
      (f : Cell → Outcome E Cell) (m m' : M) (prefer prefer' : ℕ → ℕ → ℕ) (x y z w i : ℕ)
      → Holds m prefer z w
      → Changed f m.cells m'.cells i
      → index {E = E} m.n x y ≡ ok i
      → x < m.n
      → z < m.n
      → m'.n ≡ m.n
      → ((z ≡ x) × (w ≡ y) → ⊥)
      → prefer' z w ≡ prefer z w
      → prefer' w z ≡ prefer w z
      → Holds m' prefer' z w
  untouched_cell f m m' prefer prefer' x y z w i (c, got, sum) t at x_in z_in n differ same same' =
      let (j, at', is) = read_above m z w c got in
      let other : j ≢ i =
        λ e. differ (index-injective m.n z w x y i z_in x_in (at' ∙ ap ok e) at) in
      (
        c,
        get_above-read m' z w j (ap (λ k. index k z w) n ∙ at') ∙ t.others j other ∙ is,
        omega arith,
      )

  pairs : (x y z w : ℕ) → ((z ≡ x) × (w ≡ y)) ⊎ ((z ≡ x) × (w ≡ y) → ⊥)
  pairs x y z w = elim (Bool-cases (z == x && w == y)) [
    | inl h ↦ inl (ground arith)
    | inr h ↦ inr (λ (a, b). ground arith)
  ]

  -- A change of one cell
  pub change_above-Represents :
      (f : Cell → Outcome E Cell) (m m' : M) (prefer prefer' : ℕ → ℕ → ℕ) (x y p q : ℕ)
      → Represents m prefer
      → x < m.n
      → change_above f m x y ≡ ok m'
      → ((c c' : Cell) → f c ≡ ok c' → above c' + below c + q ≡ above c + p + below c')
      → prefer' x y ≡ prefer x y + p
      → prefer' y x ≡ prefer y x + q
      → ((z w : ℕ)
          → w < z
          → ((z ≡ x) × (w ≡ y) → ⊥)
          → (prefer' z w ≡ prefer z w) × (prefer' w z ≡ prefer w z))
      → (m'.n ≡ m.n) × Represents m' prefer'
  unfolding change_above
  change_above-Represents f m m' prefer prefer' x y p q r x_in h spec hit hit' miss =
      >>=-then (index m.n x y) _ h λ i at h1. >>=-then (change f m.cells i) _ h1 λ cells e h2.
        let m2 : M = record m { cells = cells } in
        let t = change-Changed f m.cells cells i e in
        let (above_x, _) = index-slot m.n x y i at in
        subst (λ k. (k.n ≡ m.n) × Represents k prefer') (ok-injective h2)
          (
            refl,
            λ z w less z_in. elim (pairs x y z w) [
              | inl (a, b) ↦
                  subst (λ k. Holds m2 prefer' k w) (sym a)
                    (subst (λ k. Holds m2 prefer' x k) (sym b)
                      (touched_cell f m m2 prefer prefer' x y p q i (r x y above_x x_in) t at refl
                        spec hit hit'))
              | inr differ ↦
                  let (same, same') = miss z w less differ in
                  untouched_cell f m m2 prefer prefer' x y z w i (r z w less z_in) t at x_in z_in
                    refl differ same same'
            ],
          )
