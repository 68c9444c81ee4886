-- ===== src/Wormhole.antt =====
-- packages/cw-wormhole/src/lib.rs: a map whose values can be changed at any time, with effect on all
-- later times. The snapshots of a key are its entries in the order of their times, as `range` visits
-- them. The proofs are in the modules below.
pub mod History
pub mod Loop
pub mod Refines
pub mod Returns
use dao_contracts.Prelude.{
  ℕ, Bool, true, false, Option, none, some, List, [], ◌∷◌, leb, ltb, ◌==◌, if◌then◌else◌, Outcome,
  ok, ◌>>=◌,
}

abbrev pub Snapshots : Type 0 → Type 0
Snapshots V = List (ℕ × V)

module _ {V : Type 0} where
  -- `unwrap_or`
  abbrev pub unwrap_or : V → Option V → V
  unwrap_or default none = default
  unwrap_or default (some v) = v

  -- `load`: the first entry not after `t` of those visited from the last one on
  unfoldable pub load : Snapshots V → ℕ → Option V
  load [] t = none
  load ((s, v) ∷ h) t = let later = load h t in if leb s t then some (unwrap_or v later) else later

  -- `save` and `remove` of the map, at one key
  unfoldable pub save : ℕ → V → Snapshots V → Snapshots V
  save t v [] = (t, v) ∷ []
  save t v ((s, w) ∷ h) =
      let rest = save t v h in
      if s == t then (t, v) ∷ h else if ltb t s then (t, v) ∷ (s, w) ∷ h else (s, w) ∷ rest

  unfoldable pub remove : ℕ → Snapshots V → Snapshots V
  remove t [] = []
  remove t ((s, w) ∷ h) = let rest = remove t h in if s == t then h else (s, w) ∷ rest

  -- The entries with a later time
  unfoldable pub after : ℕ → Snapshots V → Snapshots V
  after t [] = []
  after t ((s, v) ∷ h) = let rest = after t h in if ltb t s then (s, v) ∷ rest else rest

  module _ {E S : Type 0} where
    -- The loop of `update` over the later entries. The closure `f` may change a state `S`.
    unfoldable pub revise :
        (V → V → Bool)
        → (S → V → ℕ → Outcome E (S × V))
        → S
        → V
        → Snapshots V
        → Snapshots V
        → Outcome E (S × Snapshots V)
    revise same f s preceding [] h = ok (s, h)
    revise same f s preceding ((t, v) ∷ items) h = do
      (s', updated) ← f s v t
      revise same f s' updated items
          (if same updated preceding then remove t h else save t updated h)

    unfoldable pub update :
        V
        → (V → V → Bool)
        → (S → V → ℕ → Outcome E (S × V))
        → S
        → ℕ
        → Snapshots V
        → Outcome E (S × Snapshots V × V)
    update default same f s t h = do
      (s', updated) ← f s (unwrap_or default (load h t)) t
      (s'', h') ← revise same f s' updated (after t h) (save t updated h)
      ok (s'', h', updated)

    unfoldable pub dangerously_update :
        V → (S → V → ℕ → Outcome E (S × V)) → S → ℕ → Snapshots V → Outcome E (S × Snapshots V × V)
    dangerously_update default f s t h = do
      (s', updated) ← f s (unwrap_or default (load h t)) t
      ok (s', save t updated h, updated)

  -- A closure that changes nothing and does not look at the time
  abbrev pub pointwise :
      {E : Type 0} → (V → Outcome E V) → Unit {0} → V → ℕ → Outcome E (Unit {0} × V)
  pointwise f s v t = do w ← f v; ok (tt, w)

  module _ {E : Type 0} where
    -- `increment`, by the addition of the values
    unfoldable pub increment :
        V
        → (V → V → Bool)
        → (V → V → Outcome E V)
        → ℕ
        → V
        → Snapshots V
        → Outcome E (Unit {0} × Snapshots V × V)
    increment default same add t i h = update default same (pointwise (λ v. add v i)) tt t h

    -- `decrement`, by their subtraction
    unfoldable pub decrement :
        V
        → (V → V → Bool)
        → (V → V → Outcome E V)
        → ℕ
        → V
        → Snapshots V
        → Outcome E (Unit {0} × Snapshots V × V)
    decrement default same sub t i h = update default same (pointwise (λ v. sub v i)) tt t h
