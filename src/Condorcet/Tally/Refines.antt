-- ===== src/Condorcet/Tally/Refines.antt =====
-- contracts/proposal/dao-proposal-condorcet/src/tally.rs: a vote is counted once for every pair of
-- candidates, for the one that it ranks first.
use dao_contracts.Prelude.{
  ℕ, ◌+◌, ◌<◌, ◌≡◌, refl, sym, ◌∙◌, List, [], ◌∷◌, ◌++◌, arith, ◌==◌, if◌then◌else◌, ok, >>=-then,
  ok-injective,
}
use mathlib.Core.Path.{subst}
use dao_contracts.Cosmwasm.{sub128}
use dao_contracts.Condorcet.Vote.{Vote, AreBelow}
use dao_contracts.Condorcet.Matrix.{M, decrement}
use dao_contracts.Condorcet.Matrix.Margins.{Represents}
use dao_contracts.Condorcet.Matrix.Refines.{prefer_more, decrement-Represents}
use dao_contracts.Condorcet.Tally.{Tally, find_winner, add_defeats, add_preferences, add_vote}
use dao_contracts.Condorcet.Tally.Ranked.{standing, ranked, looped, looped-ranked}

AreBelow-append : (n : ℕ) (l : List ℕ) (x : ℕ) → AreBelow n l → x < n → AreBelow n (l ++ x ∷ [])
AreBelow-append n [] x below lt = (lt, tt)
AreBelow-append n (y ∷ l) x (first, below) lt = (first, AreBelow-append n l x below lt)

more-standing :
    (f : ℕ → ℕ → ℕ) (power preference favored : ℕ) (before : List ℕ) (a b : ℕ)
    → prefer_more favored preference power f a b
        + (if b == preference then standing power a before else 0)
      ≡ f a b + (if b == preference then standing power a (favored ∷ before) else 0)
more-standing f power preference favored before a b = ground arith

module _ (E : Type 0) where
  pub Represents-ext :
      (m : M) (f g : ℕ → ℕ → ℕ) → ((a b : ℕ) → f a b ≡ g a b) → Represents E m f → Represents E m g
  Represents-ext m f g same r x y less x_in =
      let (c, got, sum) = r x y less x_in in (c, got, omega (arith, same x y, same y x))

  add_defeats-Represents :
      (power preference : ℕ) (before : List ℕ) (m m' : M) (f : ℕ → ℕ → ℕ)
      → Represents E m f
      → preference < m.n
      → AreBelow m.n before
      → add_defeats {E = E} power preference before m ≡ ok m'
      → (m'.n ≡ m.n)
        × Represents E m' (λ a b. f a b + (if b == preference then standing power a before else 0))
  unfolding add_defeats
  add_defeats-Represents power preference [] m m' f r p_in below h =
      subst (λ k. (k.n ≡ m.n) × Represents E k (λ a b. f a b + (if b == preference then 0 else 0)))
        (ok-injective h)
        (
          refl,
          Represents-ext m f (λ a b. f a b + (if b == preference then 0 else 0))
              (λ a b. ground arith) r,
        )
  add_defeats-Represents power preference (favored ∷ before) m m' f r p_in (first, below) h =
      >>=-then (decrement m preference favored power) _ h λ m1 e k.
        let (n1, r1) = decrement-Represents E m m1 f preference favored power r p_in first e in
        let (n2, r2) =
          add_defeats-Represents power preference before m1 m'
            (prefer_more favored preference power f) r1 (omega arith)
            (subst (λ n. AreBelow n before) (sym n1) below) k in
        (n2 ∙ n1, Represents-ext m' _ _ (more-standing f power preference favored before) r2)

  add_preferences-Represents :
      (power : ℕ) (before vote : List ℕ) (m m' : M) (f : ℕ → ℕ → ℕ)
      → Represents E m f
      → AreBelow m.n before
      → AreBelow m.n vote
      → add_preferences {E = E} power before vote m ≡ ok m'
      → (m'.n ≡ m.n) × Represents E m' (λ a b. f a b + looped power before vote a b)
  unfolding add_preferences
  add_preferences-Represents power before [] m m' f r below_before below h =
      subst (λ k. (k.n ≡ m.n) × Represents E k (λ a b. f a b + 0)) (ok-injective h)
        (refl, Represents-ext m f (λ a b. f a b + 0) (λ a b. omega arith) r)
  add_preferences-Represents power before (preference ∷ vote) m m' f r below_before (first, below)
        h =
      >>=-then (add_defeats power preference before m) _ h λ m1 e k.
        let (n1, r1) =
          add_defeats-Represents power preference before m m1 f r first below_before e in
        let (n2, r2) =
          add_preferences-Represents power (before ++ preference ∷ []) vote m1 m'
            (λ a b. f a b + (if b == preference then standing power a before else 0)) r1
            (subst (λ n. AreBelow n (before ++ preference ∷ [])) (sym n1)
              (AreBelow-append m.n before preference below_before first))
            (subst (λ n. AreBelow n vote) (sym n1) below) k in
        (n2 ∙ n1, Represents-ext m' _ _ (λ a b. omega arith) r2)

  -- A ballot of candidates of the proposal that is counted adds its power, for every pair, once for
  -- each time that it ranks the one before the other, and takes it from what is outstanding.
  pub add_vote-Represents :
      (vote : Vote) (power : ℕ) (t t' : Tally) (f : ℕ → ℕ → ℕ)
      → Represents E t.m f
      → AreBelow t.m.n vote
      → add_vote {E = E} vote power t ≡ ok t'
      → (t'.m.n ≡ t.m.n)
        × Represents E t'.m (λ a b. f a b + ranked power vote a b)
        × (t'.power_outstanding + power ≡ t.power_outstanding)
        × (find_winner {E = E} t'.m t'.power_outstanding ≡ ok t'.winner)
  unfolding add_vote
  add_vote-Represents vote power t t' f r below h =
      >>=-then (add_preferences power [] vote t.m) _ h λ m e h1.
        >>=-then (sub128 t.power_outstanding power) _ h1 λ left e2 h2.
          >>=-then (find_winner m left) _ h2 λ winner e3 h3.
            let (n1, r1) = add_preferences-Represents power [] vote t.m m f r tt below e in
            subst
              (λ (k : Tally).
                (k.m.n ≡ t.m.n)
                × Represents E k.m (λ a b. f a b + ranked power vote a b)
                × (k.power_outstanding + power ≡ t.power_outstanding)
                × (find_winner {E = E} k.m k.power_outstanding ≡ ok k.winner))
              (ok-injective h3)
              (
                n1,
                Represents-ext m _ _ (λ a b. omega (arith, looped-ranked power vote a b)) r1,
                ground arith,
                e3,
              )
