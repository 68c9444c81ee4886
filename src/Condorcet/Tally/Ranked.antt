-- ===== src/Condorcet/Tally/Ranked.antt =====
-- contracts/proposal/dao-proposal-condorcet/src/tally.rs: what a ballot counts for a pair of
-- candidates.
use dao_contracts.Prelude.{
  ℕ, ◌+◌, ◌≤◌, ◌≡◌, refl, false, List, [], ◌∷◌, ◌++◌, arith, ◌==◌, if◌then◌else◌, Bool-cases,
  ==_iff, inl, inr,
}
use mathlib.Core.Path.{subst}
use dao_contracts.Voting.Policy.{contains}
use dao_contracts.Hooks.{IsUnique}

-- The power once for each place where a candidate stands
abbrev pub standing : ℕ → ℕ → List ℕ → ℕ
standing power a [] = 0
standing power a (x ∷ l) = (if x == a then power else 0) + standing power a l

-- The power once for each time that `a` stands before `b` in a ballot
abbrev pub ranked : ℕ → List ℕ → ℕ → ℕ → ℕ
ranked power [] a b = 0
ranked power (x ∷ vote) a b = (if x == a then standing power b vote else 0) + ranked power vote a b

-- What the loops over a ballot count, with the candidates before
abbrev pub looped : ℕ → List ℕ → List ℕ → ℕ → ℕ → ℕ
looped power before [] a b = 0
looped power before (x ∷ vote) a b =
    (if b == x then standing power a before else 0) + looped power (before ++ x ∷ []) vote a b

-- The power once for each place of `a` in one list and of `b` in another
abbrev across : ℕ → List ℕ → List ℕ → ℕ → ℕ → ℕ
across power [] vote a b = 0
across power (x ∷ before) vote a b =
    (if x == a then standing power b vote else 0) + across power before vote a b

across-append :
    (power : ℕ) (before vote : List ℕ) (x a b : ℕ)
    → across power (before ++ x ∷ []) vote a b
      ≡ across power before vote a b + (if x == a then standing power b vote else 0)
across-append power [] vote x a b = omega arith
across-append power (y ∷ before) vote x a b = omega (arith, across-append power before vote x a b)

across-nil : (power : ℕ) (before : List ℕ) (a b : ℕ) → across power before [] a b ≡ 0
across-nil power [] a b = refl
across-nil power (x ∷ before) a b = ground (arith, across-nil power before a b)

across-cons :
    (power : ℕ) (before vote : List ℕ) (x a b : ℕ)
    → across power before (x ∷ vote) a b
      ≡ across power before vote a b + (if b == x then standing power a before else 0)
across-cons power [] vote x a b = ground arith
across-cons power (y ∷ before) vote x a b = ground (arith, across-cons power before vote x a b)

looped-across :
    (power : ℕ) (before vote : List ℕ) (a b : ℕ)
    → looped power before vote a b ≡ across power before vote a b + ranked power vote a b
looped-across power before [] a b = omega (arith, across-nil power before a b)
looped-across power before (x ∷ vote) a b = omega (
  arith,
  looped-across power (before ++ x ∷ []) vote a b,
  across-append power before vote x a b,
  across-cons power before vote x a b,
)

-- The loops count what the ballot ranks.
pub looped-ranked :
    (power : ℕ) (vote : List ℕ) (a b : ℕ) → looped power [] vote a b ≡ ranked power vote a b
looped-ranked power vote a b = omega (arith, looped-across power [] vote a b)

standing-absent : (power a : ℕ) (l : List ℕ) → contains l a ≡ false → standing power a l ≡ 0
unfolding contains
standing-absent power a [] h = refl
standing-absent power a (x ∷ l) h = ground (arith, standing-absent power a l)

standing-le : (power a : ℕ) (l : List ℕ) → IsUnique l → standing power a l ≤ power
standing-le power a [] u = omega arith
standing-le power a (x ∷ l) (fresh, u) = elim (Bool-cases (x == a)) [
  | inl same ↦ rw same (
      omega (
        arith,
        standing-absent power a l (subst (λ v. contains l v ≡ false) ((==_iff x a).0 same) fresh),
      ))
  | inr other ↦ rw other (omega (arith, standing-le power a l u))
]

ranked-absent :
    (power : ℕ) (vote : List ℕ) (a b : ℕ) → contains vote a ≡ false → ranked power vote a b ≡ 0
unfolding contains
ranked-absent power [] a b h = refl
ranked-absent power (x ∷ vote) a b h = ground (arith, ranked-absent power vote a b)

-- A ballot without repetition counts for no pair more than once.
pub ranked-le :
    (power : ℕ) (vote : List ℕ) (a b : ℕ) → IsUnique vote → ranked power vote a b ≤ power
ranked-le power [] a b u = omega arith
ranked-le power (x ∷ vote) a b (fresh, u) = elim (Bool-cases (x == a)) [
  | inl same ↦ rw same (
      omega (
        arith,
        standing-le power b vote u,
        ranked-absent power vote a b
            (subst (λ v. contains vote v ≡ false) ((==_iff x a).0 same) fresh),
      ))
  | inr other ↦ rw other (omega (arith, ranked-le power vote a b u))
]
