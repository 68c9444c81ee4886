-- ===== src/Wormhole/History.antt =====
-- Snapshots in the order of their times: what is stored where, and what is read at a time.
use dao_contracts.Prelude.{
  ℕ, ◌+◌, ◌<◌, ◌≤◌, ◌≡◌, refl, sym, Bool, true, false, Option, none, some, [], ◌∷◌, ◌++◌, leb, ltb,
  arith, if◌then◌else◌,
}
use dao_contracts.Wormhole.{Snapshots, unwrap_or, load, save, remove, after}

module _ {V : Type 0} where
  -- All times are below `n`.
  abbrev pub Under : ℕ → Snapshots V → Type 0
  Under n [] = Unit
  Under n ((s, v) ∷ h) = (s < n) × Under n h

  -- No time is below `n`.
  abbrev pub From : ℕ → Snapshots V → Type 0
  From n [] = Unit
  From n ((s, v) ∷ h) = (n ≤ s) × From n h

  abbrev pub IsSorted : Snapshots V → Type 0
  IsSorted [] = Unit
  IsSorted ((s, v) ∷ h) = From (s + 1) h × IsSorted h

  -- What is read where the later entries say `a` and the earlier ones `b`
  abbrev pub or_else : Option V → Option V → Option V
  or_else none b = b
  or_else (some v) b = some v

  -- The entries with an earlier time
  unfoldable pub before : ℕ → Snapshots V → Snapshots V
  before t [] = []
  before t ((s, v) ∷ h) = let rest = before t h in if ltb s t then (s, v) ∷ rest else rest

  pub Under-mono : (m n : ℕ) (h : Snapshots V) → m ≤ n → Under m h → Under n h
  Under-mono m n [] l u = tt
  Under-mono m n ((s, v) ∷ h) l u = (omega (arith, u.0), Under-mono m n h l u.1)

  pub From-mono : (m n : ℕ) (h : Snapshots V) → m ≤ n → From n h → From m h
  From-mono m n [] l u = tt
  From-mono m n ((s, v) ∷ h) l u = (omega (arith, u.0), From-mono m n h l u.1)

  pub Under-append : (n : ℕ) (g h : Snapshots V) → Under n g → Under n h → Under n (g ++ h)
  Under-append n [] h a b = b
  Under-append n ((s, v) ∷ g) h a b = (a.0, Under-append n g h a.1 b)

  From-append : (n : ℕ) (g h : Snapshots V) → From n g → From n h → From n (g ++ h)
  From-append n [] h a b = b
  From-append n ((s, v) ∷ g) h a b = (a.0, From-append n g h a.1 b)

  pub append-IsSorted :
      (n : ℕ) (g h : Snapshots V)
      → Under n g
      → From n h
      → IsSorted g
      → IsSorted h
      → IsSorted (g ++ h)
  append-IsSorted n [] h u f a b = b
  append-IsSorted n ((s, v) ∷ g) h u f a b = (
    From-append (s + 1) g h a.0 (From-mono (s + 1) n h (omega (arith, u.0)) f),
    append-IsSorted n g h u.1 f a.1 b,
  )

  -- Nothing is read before the first entry.
  pub load-From : (t n : ℕ) (h : Snapshots V) → t < n → From n h → load h t ≡ none
  unfolding load
  load-From t n [] l f = refl
  load-From t n ((s, v) ∷ h) l f = ground (arith, load-From t n h l f.1)

  or_else-none : (a : Option V) → or_else a none ≡ a
  or_else-none none = refl
  or_else-none (some v) = refl

  or_else-some :
      (c : Bool) (v : V) (a b : Option V)
      → (if c then some (unwrap_or v (or_else a b)) else or_else a b)
        ≡ or_else a (if c then some (unwrap_or v b) else b)
  or_else-some true v none b = refl
  or_else-some true v (some x) b = refl
  or_else-some false v a b = refl

  pub load-append : (g h : Snapshots V) (t : ℕ) → load (g ++ h) t ≡ or_else (load h t) (load g t)
  unfolding load
  load-append [] h t = sym (or_else-none (load h t))
  load-append ((s, v) ∷ g) h t =
      rw (load-append g h t) (or_else-some (leb s t) v (load h t) (load g t))

  after-From : (t n : ℕ) (h : Snapshots V) → t < n → From n h → after t h ≡ h
  unfolding after
  after-From t n [] l f = refl
  after-From t n ((s, v) ∷ h) l f = ground (arith, after-From t n h l f.1)

  before-From : (t n : ℕ) (h : Snapshots V) → t ≤ n → From n h → before t h ≡ []
  unfolding before
  before-From t n [] l f = refl
  before-From t n ((s, v) ∷ h) l f = ground (arith, before-From t n h l f.1)

  From-after : (t n : ℕ) (h : Snapshots V) → From n h → From n (after t h)
  unfolding after
  From-after t n [] f = tt
  From-after t n ((s, v) ∷ h) f = ground (arith, From-after t n h f.1)

  From-before : (t n : ℕ) (h : Snapshots V) → From n h → From n (before t h)
  unfolding before
  From-before t n [] f = tt
  From-before t n ((s, v) ∷ h) f = ground (arith, From-before t n h f.1)

  pub after-IsSorted :
      (t : ℕ) (h : Snapshots V) → IsSorted h → From (t + 1) (after t h) × IsSorted (after t h)
  unfolding after
  after-IsSorted t [] s = (tt, tt)
  after-IsSorted t ((u, v) ∷ h) s =
      ground (arith, after-IsSorted t h s.1, From-after t (u + 1) h s.0)

  pub before-IsSorted :
      (t : ℕ) (h : Snapshots V) → IsSorted h → Under t (before t h) × IsSorted (before t h)
  unfolding before
  before-IsSorted t [] s = (tt, tt)
  before-IsSorted t ((u, v) ∷ h) s =
      ground (arith, before-IsSorted t h s.1, From-before t (u + 1) h s.0)

  -- An entry is stored between the earlier and the later ones.
  pub save-split :
      (t : ℕ) (v : V) (h : Snapshots V) → IsSorted h → save t v h ≡ before t h ++ (t, v) ∷ after t h
  unfolding save before after
  save-split t v [] s = refl
  save-split t v ((u, w) ∷ h) s =
      ground (arith, save-split t v h s.1, after-From t (u + 1) h, before-From t (u + 1) h)

  pub save-replace :
      (t : ℕ) (v w : V) (g h : Snapshots V)
      → Under t g
      → save t w (g ++ (t, v) ∷ h) ≡ g ++ (t, w) ∷ h
  unfolding save
  save-replace t v w [] h u = ground arith
  save-replace t v w ((s, x) ∷ g) h u = ground (arith, save-replace t v w g h u.1)

  pub remove-entry :
      (t : ℕ) (v : V) (g h : Snapshots V) → Under t g → remove t (g ++ (t, v) ∷ h) ≡ g ++ h
  unfolding remove
  remove-entry t v [] h u = ground arith
  remove-entry t v ((s, x) ∷ g) h u = ground (arith, remove-entry t v g h u.1)

  -- Before `t`, the earlier entries say all.
  pub load-before : (t t' : ℕ) (h : Snapshots V) → t' < t → load (before t h) t' ≡ load h t'
  unfolding load before
  load-before t t' [] l = refl
  load-before t t' ((s, v) ∷ h) l = ground (arith, load-before t t' h l)

  -- From `t` on, a value is that of a later entry or the value at `t`.
  pub load-after :
      (t t' : ℕ) (h : Snapshots V)
      → t ≤ t'
      → IsSorted h
      → load h t' ≡ or_else (load (after t h) t') (load h t)
  unfolding load after
  load-after t t' [] l s = refl
  load-after t t' ((u, v) ∷ h) l s = ground (
    arith,
    load-after t t' h l s.1,
    after-From t (u + 1) h,
    load-From t (u + 1) h,
    or_else-some true v (load (after t h) t') (load h t),
    or_else-none (load ((u, v) ∷ h) t'),
  )
