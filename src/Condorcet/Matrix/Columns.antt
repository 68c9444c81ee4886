-- ===== src/Condorcet/Matrix/Columns.antt =====
-- contracts/proposal/dao-proposal-condorcet/src/m.rs: what the statistics of the matrix say about
-- its columns.
use dao_contracts.Prelude.{
  ℕ, zero, suc, ◌+◌, ◌≤◌, ◌<◌, ◌≡◌, ◌≢◌, refl, sym, ap, ◌∙◌, inl, inr, Bool, false, not, ◌&&◌,
  arith, ◌==◌, ==_iff, Bool-cases, if◌then◌else◌, if-cases, Outcome, ok, ◌>>=◌, >>=-then,
  >>=-eq_next, Returns, ok-injective,
}
use mathlib.Core.Path.{subst}
use dao_contracts.Condorcet.Cell.{Cell, positive, negative}
use dao_contracts.Condorcet.Matrix.{
  M, get, Column, start, visit, is_winnable, scan, positive_column, search_columns,
}
use dao_contracts.Condorcet.Matrix.Index.{order}
use dao_contracts.Condorcet.Matrix.Margins.{Represents}
use dao_contracts.Condorcet.Matrix.Refines.{get-Represents}

-- A column that is still positive after a cell was positive before
visit-positive :
    (k : Column) (c : Cell)
    → (visit k c).distance_from_positivity ≡ 0
    → (k.distance_from_positivity ≡ 0)
      × ((visit k c).min_margin ≤ k.min_margin)
      × ((p : ℕ) × (c ≡ positive p) × ((visit k c).min_margin ≤ p))
unfolding visit
visit-positive k (positive p) h = (h, ground arith, (p, refl, ground arith))
visit-positive k (negative v) h = absurd (omega arith)
visit-positive k Cell.zero h = absurd (omega arith)

visit-above :
    (k : Column) (p q : ℕ) → q < k.min_margin → q < p → q < (visit k (positive p)).min_margin
unfolding visit
visit-above k p q h less = ground arith

different : (a : ℕ) → a ≢ 0 → (a == 0) ≡ false
different a ne = elim (Bool-cases (a == 0)) [ inl h ↦ absurd (ne ((==_iff a 0).0 h)) | inr h ↦ h ]

columns : {a b c d : ℕ} → positive_column a b ≡ positive_column c d → (a ≡ c) × (b ≡ d)
columns h = (cc, cc)

apart : (a b : ℕ) → (a == b) ≡ false → a ≢ b
apart a b h = λ e. ground arith

module _ (E : Type 0) where
  -- A margin of a column that is positive and at least so much
  abbrev pub Beats : M → ℕ → ℕ → ℕ → Type 0
  Beats m col row q = (p : ℕ) × (get {E = E} m col row ≡ ok (positive p)) × (q ≤ p)

  -- The step of the loop over the rows
  abbrev step : M → ℕ → ℕ → Column → Outcome E Column
  step m col row k = if row == col then ok k else (do c ← get m col row; ok (visit k c))

  step-positive :
      (m : M) (col row : ℕ) (k k' : Column)
      → step m col row k ≡ ok k'
      → k'.distance_from_positivity ≡ 0
      → (k.distance_from_positivity ≡ 0)
        × (k'.min_margin ≤ k.min_margin)
        × (row ≢ col → Beats m col row k'.min_margin)
  step-positive m col row k k' h none_missing = elim (if-cases (row == col) _ _ h) [
    | inl (diagonal, e) ↦
        let same = ok-injective e in
        (
          ap (λ (c : Column). c.distance_from_positivity) same ∙ none_missing,
          omega (arith, ap (λ (c : Column). c.min_margin) same),
          λ differ. absurd (differ ((==_iff row col).0 diagonal)),
        )
    | inr (off, e) ↦ >>=-then (get m col row) _ e λ c got e2.
        let same = ok-injective e2 in
        let (none, less, (p, is, at_most)) =
          visit-positive k c
            (ap (λ (c : Column). c.distance_from_positivity) same ∙ none_missing) in
        let margin = ap (λ (c : Column). c.min_margin) same in
        (none, omega arith, λ differ. (p, got ∙ ap ok is, omega arith))
  ]

  lower : (m : M) (col row q q' : ℕ) → q' ≤ q → Beats m col row q → Beats m col row q'
  lower m col row q q' less (p, got, at_most) = (p, got, omega arith)

  -- A column with nothing missing is positive, and its margin is the smallest.
  pub scan-positive :
      (m : M) (col left row : ℕ) (k k' : Column)
      → scan {E = E} m col left row k ≡ ok k'
      → k'.distance_from_positivity ≡ 0
      → (k.distance_from_positivity ≡ 0)
        × (k'.min_margin ≤ k.min_margin)
        × ((r : ℕ) → row ≤ r → r < row + left → r ≢ col → Beats m col r k'.min_margin)
  unfolding scan
  scan-positive m col zero row k k' h none_missing =
      let same = ok-injective h in
      (
        ap (λ (c : Column). c.distance_from_positivity) same ∙ none_missing,
        omega (arith, ap (λ (c : Column). c.min_margin) same),
        λ r from to differ. absurd (omega arith),
      )
  scan-positive m col (suc left) row k k' h none_missing =
      >>=-then (step m col row k) _ h λ k1 e h1.
        let (none1, less1, rest) = scan-positive m col left (row + 1) k1 k' h1 none_missing in
        let (none, less, first) = step-positive m col row k k1 e none1 in
        (
          none,
          omega arith,
          λ r from to differ. elim (order row r) [
            | inl later ↦ rest r (omega arith) (omega arith) differ
            | inr (inl same) ↦
                subst (λ j. Beats m col j k'.min_margin) same
                  (lower m col row k1.min_margin k'.min_margin less1
                    (first (λ e. differ (sym same ∙ e))))
            | inr (inr earlier) ↦ absurd (omega arith)
          ],
        )

  -- A column whose margins are all positive and above a bound is found so.
  pub scan-found :
      (m : M) (col left row q : ℕ) (k : Column)
      → k.distance_from_positivity ≡ 0
      → q < k.min_margin
      → ((r : ℕ)
          → row ≤ r
          → r < row + left
          → r ≢ col
          → (p : ℕ) × (get {E = E} m col r ≡ ok (positive p)) × (q < p))
      → (k' : Column) × (scan {E = E} m col left row k ≡ ok k')
        × (k'.distance_from_positivity ≡ 0)
        × (q < k'.min_margin)
  unfolding scan visit
  scan-found m col zero row q k none above all = (k, refl, none, above)
  scan-found m col (suc left) row q k none above all = elim (Bool-cases (row == col)) [
    | inl diagonal ↦
        let (k', found, none', above') =
          scan-found m col left (row + 1) q k none above
            (λ r from to differ. all r (omega arith) (omega arith) differ) in
        (k', rw diagonal found, none', above')
    | inr off ↦
        let (p, got, less) = all row (omega arith) (omega arith) (apart row col off) in
        let (k', found, none', above') =
          scan-found m col left (row + 1) q (visit k (positive p)) none
            (visit-above k p q above less)
            (λ r from to differ. all r (omega arith) (omega arith) differ) in
        (
          k',
          rw off (
              >>=-eq_next _ _ (visit k (positive p))
                (>>=-eq_next (get m col row) _ (positive p) got refl) found),
          none',
          above',
        )
  ]

  -- The scan of a column of a matrix that stands for something does not fail.
  pub scan-Returns :
      (m : M) (prefer : ℕ → ℕ → ℕ) (col left row : ℕ) (k : Column)
      → Represents E m prefer
      → col < m.n
      → row + left ≤ m.n
      → Returns (scan {E = E} m col left row k)
  unfolding scan
  scan-Returns m prefer col zero row k r col_in rows_in = (k, refl)
  scan-Returns m prefer col (suc left) row k r col_in rows_in = elim (Bool-cases (row == col)) [
    | inl diagonal ↦ rw diagonal (scan-Returns m prefer col left (row + 1) k r col_in (omega arith))
    | inr off ↦
        let (c, got, _) =
          get-Represents E m prefer col row r col_in (omega arith)
            (λ e. apart row col off (sym e)) in
        let (k', found) =
          scan-Returns m prefer col left (row + 1) (visit k c) r col_in (omega arith) in
        (k', rw off (>>=-eq_next _ _ (visit k c) (>>=-eq_next (get m col row) _ c got refl) found))
  ]

  -- A column that the search finds
  pub search-positive :
      (m : M) (power left col : ℕ) (flag : Bool) (c margin : ℕ)
      → search_columns {E = E} m power left col flag ≡ ok (positive_column c margin)
      → (k : Column) × (c < col + left)
        × (scan {E = E} m c m.n 0 start ≡ ok k)
        × (k.distance_from_positivity ≡ 0)
        × (k.min_margin ≡ margin)
  unfolding search_columns
  search-positive m power zero col flag c margin h = cc
  search-positive m power (suc left) col flag c margin h =
      >>=-then (scan m col m.n 0 start) _ h λ k e h1.
        elim (if-cases (k.distance_from_positivity == 0) _ _ h1) [
          | inl (none, here) ↦
              let same = columns (ok-injective here) in
              (
                k,
                omega (arith, same.0),
                subst (λ j. scan {E = E} m j m.n 0 start ≡ ok k) same.0 e,
                (==_iff k.distance_from_positivity 0).0 none,
                same.1,
              )
          | inr (some, later) ↦
              let (k', bound, found, none, same) =
                search-positive m power left (col + 1) (flag && not (is_winnable m.n power k)) c
                  margin later in
              (k', omega arith, found, none, same)
        ]

  -- The search passes over the columns that are not positive.
  pub search-found :
      (m : M) (power left col : ℕ) (flag : Bool) (c : ℕ) (k : Column)
      → col ≤ c
      → c < col + left
      → ((j : ℕ)
          → j < c
          → (k' : Column) × (scan {E = E} m j m.n 0 start ≡ ok k')
            × (k'.distance_from_positivity ≢ 0))
      → scan {E = E} m c m.n 0 start ≡ ok k
      → k.distance_from_positivity ≡ 0
      → search_columns {E = E} m power left col flag ≡ ok (positive_column c k.min_margin)
  unfolding search_columns
  search-found m power zero col flag c k from to skip found none = absurd (omega arith)
  search-found m power (suc left) col flag c k from to skip found none = elim (order col c) [
    | inl before ↦
        let (k', e, some) = skip col before in
        >>=-eq_next (scan m col m.n 0 start) _ k' e (
          rw (different k'.distance_from_positivity some) (
            search-found m power left (col + 1) (flag && not (is_winnable m.n power k')) c k
              (omega arith) (omega arith) skip found none))
    | inr (inl same) ↦
        >>=-eq_next (scan m col m.n 0 start) _ k
          (subst (λ j. scan {E = E} m j m.n 0 start ≡ ok k) (sym same) found)
          (rw ((==_iff k.distance_from_positivity 0).1 none)
            (ap (λ j. ok (positive_column j k.min_margin)) same))
    | inr (inr after) ↦ absurd (omega arith)
  ]
