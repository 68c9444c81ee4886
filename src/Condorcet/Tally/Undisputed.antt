-- ===== src/Condorcet/Tally/Undisputed.antt =====
-- contracts/proposal/dao-proposal-condorcet/src/tally.rs: no vote that is still outstanding takes the
-- victory from an undisputed winner.
use dao_contracts.Prelude.{
  ℕ, ◌+◌, ◌-◌, ◌<◌, ◌≡◌, ◌≢◌, refl, sym, ap, ◌∙◌, inl, inr, true, false, arith, ltb, lt→ltb, ltb→lt,
  if-cases, ok, >>=-then, >>=-eq_next, ok-injective,
}
use dao_contracts.Cosmwasm.{u128_mod}
use dao_contracts.Condorcet.Cell.{Cell, positive, negative, above, below}
use dao_contracts.Condorcet.Vote.{Vote}
use dao_contracts.Condorcet.Vote.Ballots.{IsRanking}
use dao_contracts.Condorcet.Matrix.{
  M, get, Column, start, scan, Stats, positive_column, no_positive_column, search_columns, stats,
}
use dao_contracts.Condorcet.Matrix.Margins.{Represents}
use dao_contracts.Condorcet.Matrix.Refines.{get-Represents}
use dao_contracts.Condorcet.Matrix.Columns.{
  scan-positive, scan-found, scan-Returns, search-positive, search-found,
}
use dao_contracts.Condorcet.Tally.{undisputed, Tally, winner_of, find_winner, add_vote}
use dao_contracts.Condorcet.Tally.Ranked.{ranked, ranked-le}
use dao_contracts.Condorcet.Tally.Refines.{add_vote-Represents}

-- A cell whose value is above a bound is positive.
cell-positive :
    (c : Cell) (a b q : ℕ)
    → above c + a ≡ below c + b
    → a + q < b
    → (p : ℕ) × (c ≡ positive p) × (q < p)
cell-positive (positive n) a b q sum less = (n, refl, omega arith)
cell-positive Cell.zero a b q sum less = absurd (omega arith)
cell-positive (negative n) a b q sum less = absurd (omega arith)

undisputed-injective : {a b : ℕ} → undisputed a ≡ undisputed b → a ≡ b
undisputed-injective h = cc

-- Who an undisputed winner is, by the statistics
undisputed-column :
    (power c : ℕ) (s : Stats)
    → winner_of power s ≡ undisputed c
    → (margin : ℕ) × (s ≡ positive_column c margin) × (power < margin)
unfolding winner_of
undisputed-column power c (positive_column col margin) h =
    elim (if-cases (ltb power margin) _ _ h) [
      | inl (less, same) ↦ (
        margin,
        ap (λ j. positive_column j margin) (undisputed-injective same),
        ltb→lt power margin less,
      )
      | inr (_, other) ↦ cc
    ]
undisputed-column power c (no_positive_column true) h = cc
undisputed-column power c (no_positive_column false) h = cc

module _ (E : Type 0) where
  -- A candidate whose every margin exceeds what is outstanding
  abbrev pub Leads : M → (ℕ → ℕ → ℕ) → ℕ → ℕ → Type 0
  Leads m prefer c power = (r : ℕ) → r < m.n → r ≢ c → prefer r c + power < prefer c r

  leading :
      (m : M) (prefer : ℕ → ℕ → ℕ) (c row power : ℕ)
      → Represents E m prefer
      → c < m.n
      → row < m.n
      → row ≢ c
      → prefer row c + power < prefer c row
      → (p : ℕ) × (get {E = E} m c row ≡ ok (positive p)) × (power < p)
  leading m prefer c row power r c_in row_in differ less =
      let (cell, got, sum) = get-Represents E m prefer c row r c_in row_in (λ e. differ (sym e)) in
      let (p, is, more) = cell-positive cell (prefer row c) (prefer c row) power sum less in
      (p, got ∙ ap ok is, more)

  -- A column of another candidate is not positive.
  behind :
      (m : M) (prefer : ℕ → ℕ → ℕ) (c j power : ℕ)
      → Represents E m prefer
      → c < m.n
      → j < c
      → prefer j c + power < prefer c j
      → (k : Column) × (scan {E = E} m j m.n 0 start ≡ ok k) × (k.distance_from_positivity ≢ 0)
  behind m prefer c j power r c_in before less =
      let (k, e) = scan-Returns E m prefer j m.n 0 start r (omega arith) (omega arith) in
      (
        k,
        e,
        λ none.
            let (_, _, beats) = scan-positive E m j m.n 0 start k e none in
            let (p, got, _) = beats c (omega arith) (omega arith) (λ e'. omega arith) in
            let (cell, got', sum) =
              get-Represents E m prefer j c r (omega arith) c_in (λ e'. omega arith) in
            let is : cell ≡ positive p = ok-injective (sym got' ∙ got) in
            absurd (omega (arith, ap above is, ap below is)),
      )

  Leads-found :
      (m : M) (prefer : ℕ → ℕ → ℕ) (c power : ℕ)
      → Represents E m prefer
      → c < m.n
      → power < u128_mod - 1
      → Leads m prefer c power
      → find_winner {E = E} m power ≡ ok (undisputed c)
  unfolding find_winner stats winner_of
  Leads-found m prefer c power r c_in small leads =
      let (k, found, none, more) =
        scan-found E m c m.n 0 power start refl small (λ row from to differ.
          leading m prefer c row power r c_in (omega arith) differ
            (leads row (omega arith) differ)) in
      >>=-eq_next (search_columns m power m.n 0 true) _ (positive_column c k.min_margin)
        (search-found E m power m.n 0 true c k (omega arith) (omega arith)
          (λ j before.
            behind m prefer c j power r c_in before (leads j (omega arith) (λ e. omega arith)))
          found none)
        (rw (lt→ltb power k.min_margin more))

  found-Leads :
      (m : M) (prefer : ℕ → ℕ → ℕ) (c power : ℕ)
      → Represents E m prefer
      → find_winner {E = E} m power ≡ ok (undisputed c)
      → (c < m.n) × (power < u128_mod - 1) × Leads m prefer c power
  unfolding find_winner stats
  found-Leads m prefer c power r h = >>=-then (search_columns m power m.n 0 true) _ h λ s e h1.
      let (margin, is, less) = undisputed-column power c s (ok-injective h1) in
      let (k, c_in, scanned, none, same) =
        search-positive E m power m.n 0 true c margin (e ∙ ap ok is) in
      let (_, least, beats) = scan-positive E m c m.n 0 start k scanned none in
      (
        omega arith,
        omega arith,
        λ row row_in differ.
            let (p, got, at_most) = beats row (omega arith) (omega arith) differ in
            let (cell, got', sum) =
              get-Represents E m prefer c row r (omega arith) row_in (λ e. differ (sym e)) in
            let is_cell : cell ≡ positive p = ok-injective (sym got' ∙ got) in
            omega (arith, ap above is_cell, ap below is_cell),
      )

  -- An undisputed winner stays one, whoever votes next and however, if the ballot ranks every
  -- candidate once and the winner was up to date.
  pub undisputed_stays :
      (vote : Vote) (power c : ℕ) (t t' : Tally) (prefer : ℕ → ℕ → ℕ)
      → Represents E t.m prefer
      → find_winner {E = E} t.m t.power_outstanding ≡ ok (undisputed c)
      → IsRanking t.m.n vote
      → add_vote {E = E} vote power t ≡ ok t'
      → t'.winner ≡ undisputed c
  undisputed_stays vote power c t t' prefer r won ranking h =
      let (c_in, small, leads) = found-Leads t.m prefer c t.power_outstanding r won in
      let (n, r', left, now) = add_vote-Represents E vote power t t' prefer r ranking.known h in
      ok-injective (
        sym now
        ∙ Leads-found t'.m (λ a b. prefer a b + ranked power vote a b) c t'.power_outstanding r'
            (omega arith) (omega arith)
            (λ row row_in differ.
              omega (
                arith,
                leads row (omega arith) differ,
                ranked-le power vote row c ranking.distinct,
              )))
