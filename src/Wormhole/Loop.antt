-- ===== src/Wormhole/Loop.antt =====
-- The loop of `update`: what it leaves of the later entries, and what is read from them.
use dao_contracts.Prelude.{
  ℕ, ◌+◌, ◌≤◌, ◌≡◌, refl, ap, sym, Bool, true, false, [], ◌∷◌, ◌++◌, arith, if◌then◌else◌, Outcome,
  ok, ◌>>=◌, >>=-eq-ok, ok-injective,
}
use mathlib.Core.Path.{subst, ◌∙◌}
use dao_contracts.Wormhole.{Snapshots, unwrap_or, load, save, remove, revise}
use dao_contracts.Wormhole.History.{
  Under, From, IsSorted, Under-mono, From-mono, Under-append, load-From, save-replace, remove-entry,
}

module _ {E V : Type 0} (same : V → V → Bool) (f : V → Outcome E V) where
  -- The later entries after the loop: those that repeat the value before them are gone.
  unfoldable pub revised : V → Snapshots V → Outcome E (Snapshots V)
  revised preceding [] = ok []
  revised preceding ((t, v) ∷ items) = do
    w ← f v
    rest ← revised w items
    ok (if same w preceding then rest else (t, w) ∷ rest)

  pub assoc : (g : Snapshots V) (x : ℕ × V) (ys : Snapshots V) → (g ++ x ∷ []) ++ ys ≡ g ++ x ∷ ys
  assoc [] x ys = refl
  assoc (y ∷ g) x ys = ap (λ h. y ∷ h) (assoc g x ys)

  -- Where the loop leaves an entry out or stores it anew
  kept :
      (c : Bool) (t : ℕ) (v w : V) (g items : Snapshots V)
      → Under t g
      → (if c then remove t (g ++ (t, v) ∷ items) else save t w (g ++ (t, v) ∷ items))
        ≡ (if c then g else g ++ (t, w) ∷ []) ++ items
  kept true t v w g items u = remove-entry t v g items u
  kept false t v w g items u = save-replace t v w g items u ∙ sym (assoc g (t, w) items)

  kept-Under :
      (c : Bool) (t : ℕ) (w : V) (g : Snapshots V)
      → Under t g
      → Under (t + 1) (if c then g else g ++ (t, w) ∷ [])
  kept-Under true t w g u = Under-mono t (t + 1) g (omega arith) u
  kept-Under false t w g u =
      Under-append (t + 1) g ((t, w) ∷ []) (Under-mono t (t + 1) g (omega arith) u)
        (omega arith, tt)

  kept-append :
      (c : Bool) (t : ℕ) (w : V) (g ys : Snapshots V)
      → (if c then g else g ++ (t, w) ∷ []) ++ ys ≡ g ++ (if c then ys else (t, w) ∷ ys)
  kept-append true t w g ys = refl
  kept-append false t w g ys = assoc g (t, w) ys

  revised-intro :
      (preceding : V) (t : ℕ) (v w : V) (items ys : Snapshots V)
      → f v ≡ ok w
      → revised w items ≡ ok ys
      → revised preceding ((t, v) ∷ items) ≡ ok (if same w preceding then ys else (t, w) ∷ ys)
  unfolding revised
  revised-intro preceding t v w items ys computed e = rw computed (rw e refl)

  -- The loop works in place: the entries before those it visits stay. The values that its closure
  -- `u` computes are those of `f`.
  pub revise-revised :
      {S : Type 0} (u : S → V → ℕ → Outcome E (S × V))
      → ((s : S) (v : V) (t : ℕ) (x : S × V) → u s v t ≡ ok x → f v ≡ ok x.1)
      → (s0 : S) (preceding : V) (n : ℕ) (g items : Snapshots V) (r : S × Snapshots V) → Under n g
      → From n items
      → IsSorted items
      → revise same u s0 preceding items (g ++ items) ≡ ok r
      → (ys : Snapshots V) × (revised preceding items ≡ ok ys) × (r.1 ≡ g ++ ys)
  unfolding revise revised
  revise-revised {S} u values s0 preceding n g [] r under fr s h =
      ([], refl, sym (ap (λ (x : S × Snapshots V). x.1) (ok-injective h)))
  revise-revised u values s0 preceding n g ((t, v) ∷ items) r below fr s h =
      let ((s', w), first, rest) = >>=-eq-ok (u s0 v t) _ h in
      let computed = values s0 v t (s', w) first in
      let c = same w preceding in
      let under = Under-mono n t g fr.0 below in
      let (ys, e, r_eq) =
        revise-revised u values s' w (t + 1) (if c then g else g ++ (t, w) ∷ []) items r
          (kept-Under c t w g under) s.0 s.1
          (subst (λ k. revise same u s' w items k ≡ ok r) (kept c t v w g items under) rest) in
      (
        (if c then ys else (t, w) ∷ ys),
        revised-intro preceding t v w items ys computed e,
        r_eq ∙ kept-append c t w g ys,
      )

  revised-cons :
      (preceding : V) (t : ℕ) (v : V) (items ys : Snapshots V)
      → revised preceding ((t, v) ∷ items) ≡ ok ys
      → (w : V) × (rest : Snapshots V) × (f v ≡ ok w)
        × (revised w items ≡ ok rest)
        × ((if same w preceding then rest else (t, w) ∷ rest) ≡ ys)
  unfolding revised
  revised-cons preceding t v items ys h =
      let (w, computed, h1) = >>=-eq-ok (f v) _ h in
      let (rest, rested, last) = >>=-eq-ok (revised w items) _ h1 in
      (w, rest, computed, rested, ok-injective last)

  kept-From :
      (c : Bool) (n t : ℕ) (w : V) (rest : Snapshots V)
      → n ≤ t
      → From (t + 1) rest × IsSorted rest
      → From n (if c then rest else (t, w) ∷ rest) × IsSorted (if c then rest else (t, w) ∷ rest)
  kept-From true n t w rest l (fr, s) = (From-mono n (t + 1) rest (omega arith) fr, s)
  kept-From false n t w rest l (fr, s) = ((l, From-mono n (t + 1) rest (omega arith) fr), (fr, s))

  kept-load :
      (c : Bool) (preceding v0 v w : V) (t t' : ℕ) (items rest : Snapshots V)
      → (c ≡ true → w ≡ preceding)
      → From (t + 1) items
      → From (t + 1) rest
      → f v0 ≡ ok preceding
      → f (unwrap_or v (load items t')) ≡ ok (unwrap_or w (load rest t'))
      → f (unwrap_or v0 (load ((t, v) ∷ items) t'))
        ≡ ok (unwrap_or preceding (load (if c then rest else (t, w) ∷ rest) t'))
  unfolding load
  kept-load true preceding v0 v w t t' items rest law a b e later =
      ground (arith, law refl, load-From t' (t + 1) items, load-From t' (t + 1) rest)
  kept-load false preceding v0 v w t t' items rest law a b e later =
      ground (arith, load-From t' (t + 1) items, load-From t' (t + 1) rest)

  -- The loop adds no times.
  pub revised-From :
      (preceding : V) (n : ℕ) (items ys : Snapshots V)
      → From n items
      → IsSorted items
      → revised preceding items ≡ ok ys
      → From n ys × IsSorted ys
  unfolding revised
  revised-From preceding n [] ys fr s h =
      subst (λ y. From n y × IsSorted y) (ok-injective h) (tt, tt)
  revised-From preceding n ((t, v) ∷ items) ys fr s h =
      let (w, rest, computed, rested, e) = revised-cons preceding t v items ys h in
      subst (λ y. From n y × IsSorted y) e
        (kept-From (same w preceding) n t w rest fr.0
          (revised-From w (t + 1) items rest s.0 s.1 rested))

  -- What is read from them at any time is the image of what was read before.
  pub load-revised :
      ((a b : V) → same a b ≡ true → a ≡ b)
      → (preceding v0 : V) (items ys : Snapshots V) (t' : ℕ) → IsSorted items
      → f v0 ≡ ok preceding
      → revised preceding items ≡ ok ys
      → f (unwrap_or v0 (load items t')) ≡ ok (unwrap_or preceding (load ys t'))
  unfolding revised load
  load-revised law preceding v0 [] ys t' s e h =
      subst (λ y. f v0 ≡ ok (unwrap_or preceding (load y t'))) (ok-injective h) e
  load-revised law preceding v0 ((t, v) ∷ items) ys t' s e h =
      let (w, rest, computed, rested, last) = revised-cons preceding t v items ys h in
      subst
        (λ y. f (unwrap_or v0 (load ((t, v) ∷ items) t')) ≡ ok (unwrap_or preceding (load y t')))
        last
        (kept-load (same w preceding) preceding v0 v w t t' items rest (law w preceding) s.0
          (revised-From w (t + 1) items rest s.0 s.1 rested).0 e
          (load-revised law w v items rest t' s.1 computed rested))
