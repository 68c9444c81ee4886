-- ===== src/Condorcet/Matrix/Refines.antt =====
-- contracts/proposal/dao-proposal-condorcet/src/m.rs: the operations of the matrix do what they are
-- meant to do to the margins of all pairs.
use dao_contracts.Prelude.{
  ℕ, ◌+◌, ◌<◌, ◌≡◌, ◌≢◌, ◌∙◌, inl, inr, false, ◌&&◌, arith, ltb, lt→ltb, ◌==◌, Bool-cases,
  if◌then◌else◌, if-cases, Outcome, ok, >>=-then,
}
use dao_contracts.Condorcet.Cell.{
  Cell, positive, negative, invert, above, below, increment-adds, decrement-takes,
}
use dao_contracts.Condorcet.Cell as Cell
use dao_contracts.Condorcet.Matrix.{M, index, change_above, get, increment, decrement}
use dao_contracts.Condorcet.Matrix.Index.{index-slot, order}
use dao_contracts.Condorcet.Matrix.Margins.{Represents, change_above-Represents}

-- More power prefers one candidate to another.
abbrev pub prefer_more : ℕ → ℕ → ℕ → (ℕ → ℕ → ℕ) → ℕ → ℕ → ℕ
prefer_more x y amount prefer z w = prefer z w + (if z == x && w == y then amount else 0)

more_hit :
    (x y amount : ℕ) (prefer : ℕ → ℕ → ℕ) → prefer_more x y amount prefer x y ≡ prefer x y + amount
more_hit x y amount prefer = ground arith

more_miss :
    (x y z w amount : ℕ) (prefer : ℕ → ℕ → ℕ)
    → ((z ≡ x) × (w ≡ y) → ⊥)
    → prefer_more x y amount prefer z w ≡ prefer z w
more_miss x y z w amount prefer differ = elim (Bool-cases (z == x && w == y)) [
  | inl h ↦ absurd (differ (ground arith))
  | inr h ↦ rw h (omega arith)
]

ltb-false : (x y : ℕ) → y < x → ltb x y ≡ false
ltb-false x y less = ground arith

invert-swaps :
    (c : Cell) (a b : ℕ) → above c + a ≡ below c + b → above (invert c) + b ≡ below (invert c) + a
invert-swaps (positive n) a b h = omega arith
invert-swaps Cell.zero a b h = omega arith
invert-swaps (negative n) a b h = omega arith

module _ (E : Type 0) where
  -- A change at a cell and not at its mirror image
  one_sided :
      (x y amount : ℕ) (prefer : ℕ → ℕ → ℕ) (z w : ℕ)
      → y < x
      → w < z
      → ((z ≡ x) × (w ≡ y) → ⊥)
      → (prefer_more x y amount prefer z w ≡ prefer z w)
        × (prefer_more x y amount prefer w z ≡ prefer w z)
  one_sided x y amount prefer z w less less' differ = (
    more_miss x y z w amount prefer differ,
    more_miss x y w z amount prefer (λ (a, b). omega arith),
  )

  mirrored :
      (x y amount : ℕ) (prefer : ℕ → ℕ → ℕ) (z w : ℕ)
      → y < x
      → w < z
      → ((z ≡ x) × (w ≡ y) → ⊥)
      → (prefer_more y x amount prefer z w ≡ prefer z w)
        × (prefer_more y x amount prefer w z ≡ prefer w z)
  mirrored x y amount prefer z w less less' differ = (
    more_miss y x z w amount prefer (λ (a, b). omega arith),
    more_miss y x w z amount prefer (λ (a, b). differ (b, a)),
  )

  changed_order :
      (f : Cell → Outcome E Cell) (m m' : M) (x y : ℕ) → change_above f m x y ≡ ok m' → y < x
  unfolding change_above
  changed_order f m m' x y h = >>=-then (index m.n x y) _ h λ i at k. (index-slot m.n x y i at).0

  added_above :
      (m m' : M) (prefer : ℕ → ℕ → ℕ) (x y amount : ℕ)
      → Represents E m prefer
      → x < m.n
      → change_above {E = E} (λ c. Cell.increment c amount) m x y ≡ ok m'
      → (m'.n ≡ m.n) × Represents E m' (prefer_more x y amount prefer)
  added_above m m' prefer x y amount r x_in h =
      let less = changed_order (λ c. Cell.increment c amount) m m' x y h in
      change_above-Represents E (λ c. Cell.increment c amount) m m' prefer
        (prefer_more x y amount prefer) x y amount 0 r x_in h
        (λ c c' e. omega (arith, increment-adds c c' amount e)) (more_hit x y amount prefer)
        (more_miss x y y x amount prefer (λ (a, b). omega arith) ∙ omega arith)
        (λ z w less' differ. one_sided x y amount prefer z w less less' differ)

  taken_above :
      (m m' : M) (prefer : ℕ → ℕ → ℕ) (x y amount : ℕ)
      → Represents E m prefer
      → x < m.n
      → change_above {E = E} (λ c. Cell.decrement c amount) m x y ≡ ok m'
      → (m'.n ≡ m.n) × Represents E m' (prefer_more y x amount prefer)
  taken_above m m' prefer x y amount r x_in h =
      let less = changed_order (λ c. Cell.decrement c amount) m m' x y h in
      change_above-Represents E (λ c. Cell.decrement c amount) m m' prefer
        (prefer_more y x amount prefer) x y 0 amount r x_in h
        (λ c c' e. omega (arith, decrement-takes c c' amount e))
        (more_miss y x x y amount prefer (λ (a, b). omega arith) ∙ omega arith)
        (more_hit y x amount prefer)
        (λ z w less' differ. mirrored x y amount prefer z w less less' differ)

  -- An increment of (x, y) adds to the power that prefers x to y, a decrement to the power that
  -- prefers y to x, and neither changes any other pair.
  pub increment-Represents :
      (m m' : M) (prefer : ℕ → ℕ → ℕ) (x y amount : ℕ)
      → Represents E m prefer
      → x < m.n
      → y < m.n
      → increment {E = E} m x y amount ≡ ok m'
      → (m'.n ≡ m.n) × Represents E m' (prefer_more x y amount prefer)
  unfolding increment
  increment-Represents m m' prefer x y amount r x_in y_in h = elim (if-cases (ltb x y) _ _ h) [
    | inl (_, k) ↦ taken_above m m' prefer y x amount r y_in k
    | inr (_, k) ↦ added_above m m' prefer x y amount r x_in k
  ]

  pub decrement-Represents :
      (m m' : M) (prefer : ℕ → ℕ → ℕ) (x y amount : ℕ)
      → Represents E m prefer
      → x < m.n
      → y < m.n
      → decrement {E = E} m x y amount ≡ ok m'
      → (m'.n ≡ m.n) × Represents E m' (prefer_more y x amount prefer)
  unfolding decrement
  decrement-Represents m m' prefer x y amount r x_in y_in h = elim (if-cases (ltb x y) _ _ h) [
    | inl (_, k) ↦ added_above m m' prefer y x amount r y_in k
    | inr (_, k) ↦ taken_above m m' prefer x y amount r x_in k
  ]

  -- A margin is read as the difference of the two numbers of its pair.
  pub get-Represents :
      (m : M) (prefer : ℕ → ℕ → ℕ) (x y : ℕ)
      → Represents E m prefer
      → x < m.n
      → y < m.n
      → x ≢ y
      → (c : Cell) × (get {E = E} m x y ≡ ok c) × (above c + prefer y x ≡ below c + prefer x y)
  unfolding get
  get-Represents m prefer x y r x_in y_in differ = elim (order x y) [
    | inl less ↦
        let (c, got, sum) = r y x less y_in in
        (invert c, rw (lt→ltb x y less) (rw got), invert-swaps c (prefer x y) (prefer y x) sum)
    | inr (inl same) ↦ absurd (differ same)
    | inr (inr more) ↦ let (c, got, sum) = r x y more x_in in (c, rw (ltb-false x y more) got, sum)
  ]
