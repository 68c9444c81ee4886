-- ===== src/Wormhole/Returns.antt =====
-- `update` is accepted if its change is, on every value from its time on.
use dao_contracts.Prelude.{
  ℕ, ◌+◌, ◌<◌, ◌≤◌, ◌≡◌, refl, Bool, true, false, some, [], ◌∷◌, ltb, arith, if◌then◌else◌, Outcome,
  ok,
}
use mathlib.Core.Path.{subst}
use dao_contracts.Wormhole.{
  Snapshots, unwrap_or, load, save, remove, after, revise, update, pointwise,
}
use dao_contracts.Wormhole.History.{IsSorted, load-From}

-- The change is accepted on a value.
abbrev pub Accepts : {E V : Type 0} → (V → Outcome E V) → V → Type 0
Accepts {V = V} f v = (w : V) × (f v ≡ ok w)

module _ {E V : Type 0} (same : V → V → Bool) (f : V → Outcome E V) where
  AllAccepted : Snapshots V → Type 0
  AllAccepted [] = Unit
  AllAccepted ((s, v) ∷ h) = Accepts f v × AllAccepted h

  revise_step :
      (preceding : V) (t : ℕ) (v w : V) (items g : Snapshots V) (r : Unit {0} × Snapshots V)
      → f v ≡ ok w
      → revise same (pointwise f) tt w items (if same w preceding then remove t g else save t w g)
        ≡ ok r
      → revise same (pointwise f) tt preceding ((t, v) ∷ items) g ≡ ok r
  unfolding revise
  revise_step preceding t v w items g r e h = rw e h

  revise_returns :
      (preceding : V) (items g : Snapshots V)
      → AllAccepted items
      → (r : Unit {0} × Snapshots V) × (revise same (pointwise f) tt preceding items g ≡ ok r)
  unfolding revise AllAccepted
  revise_returns preceding [] g a = ((tt, g), refl)
  revise_returns preceding ((t, v) ∷ items) g ((w, e), a) =
      let (r, h) = revise_returns w items (if same w preceding then remove t g else save t w g) a in
      (r, revise_step preceding t v w items g r e h)

  kept :
      (c : Bool) (u : ℕ) (v : V) (rest : Snapshots V)
      → (c ≡ true → Accepts f v)
      → AllAccepted rest
      → AllAccepted (if c then (u, v) ∷ rest else rest)
  unfolding AllAccepted
  kept true u v rest accepted a = (accepted refl, a)
  kept false u v rest accepted a = a

  later_accepted :
      (t : ℕ) (h : Snapshots V)
      → IsSorted h
      → ((t' : ℕ) (v : V) → t < t' → load h t' ≡ some v → Accepts f v)
      → AllAccepted (after t h)
  unfolding after AllAccepted load
  later_accepted t [] s accepts = tt
  later_accepted t ((u, v) ∷ h) s accepts =
      kept (ltb t u) u v (after t h)
        (λ later.
          accepts u v (ground arith) (ground (arith, load-From u (u + 1) h (omega arith) s.0)))
        (later_accepted t h s.1
          (λ t' x l e. accepts t' x l (ground (arith, load-From t' (u + 1) h))))

  update_step :
      (default : V) (t : ℕ) (h : Snapshots V) (w : V) (r : Unit {0} × Snapshots V)
      → f (unwrap_or default (load h t)) ≡ ok w
      → revise same (pointwise f) tt w (after t h) (save t w h) ≡ ok r
      → update default same (pointwise f) tt t h ≡ ok (r.0, r.1, w)
  unfolding update
  update_step default t h w r e loop = rw e (rw loop refl)

  -- An `update` of snapshots in the order of their times, by a change that is accepted on the value
  -- at every time from `t` on, is accepted.
  pub update_returns :
      (default : V) (t : ℕ) (h : Snapshots V)
      → IsSorted h
      → ((t' : ℕ) → t ≤ t' → Accepts f (unwrap_or default (load h t')))
      → (r : Unit {0} × Snapshots V × V) × (update default same (pointwise f) tt t h ≡ ok r)
  update_returns default t h s accepts =
      let (w, e) = accepts t (omega arith) in
      let (r, loop) = revise_returns w (after t h) (save t w h) (
        later_accepted t h s (λ t' v l found.
          subst (λ o. Accepts f (unwrap_or default o)) found (accepts t' (omega arith)))) in
      ((r.0, r.1, w), update_step default t h w r e loop)
