-- ===== src/Wormhole/Refines.antt =====
-- `update` at a time changes the values from that time on, and no earlier value.
use dao_contracts.Prelude.{
  ℕ, ◌+◌, ◌<◌, ◌≤◌, ◌≡◌, refl, sym, Bool, true, Option, none, some, [], ◌∷◌, ◌++◌, ltb, arith,
  if◌then◌else◌, Outcome, ok, >>=-eq-ok, ok-injective,
}
use mathlib.Core.Path.{subst, ◌∙◌}
use dao_contracts.Wormhole.{Snapshots, unwrap_or, load, save, after, revise, update}
use dao_contracts.Wormhole.History.{
  From, IsSorted, or_else, before, Under-mono, From-mono, Under-append, append-IsSorted, load-From,
  load-append, after-IsSorted, before-IsSorted, save-split, load-before, load-after,
}
use dao_contracts.Wormhole.Loop.{revised, revise-revised, revised-From, load-revised, assoc}

-- `u` is the closure; its values are those of `f`, whatever the time and its state.
module _ {E V S : Type 0} (default : V) (same : V → V → Bool) (f : V → Outcome E V)
    (u : S → V → ℕ → Outcome E (S × V))
    (values : (s : S) (v : V) (t : ℕ) (x : S × V) → u s v t ≡ ok x → f v ≡ ok x.1) where
  -- The parts of what `update` leaves
  record Updated (t : ℕ) (h : Snapshots V) (r : S × Snapshots V × V) : Type 0 where
    later : Snapshots V
    computed : f (unwrap_or default (load h t)) ≡ ok r.2
    rest : revised same f r.2 (after t h) ≡ ok later
    stored : r.1 ≡ before t h ++ (t, r.2) ∷ later

  update-Updated :
      (s0 : S) (t : ℕ) (h : Snapshots V) (r : S × Snapshots V × V)
      → IsSorted h
      → update default same u s0 t h ≡ ok r
      → Updated t h r
  unfolding update
  update-Updated s0 t h r s e =
      let ((s', updated), first, e1) = >>=-eq-ok (u s0 (unwrap_or default (load h t)) t) _ e in
      let ((s'', h'), looped, last) =
        >>=-eq-ok (revise same u s' updated (after t h) (save t updated h)) _ e1 in
      let (under, earlier) = before-IsSorted t h s in
      let (from, later) = after-IsSorted t h s in
      let split =
        save-split t updated h s ∙ sym (assoc same f (before t h) (t, updated) (after t h)) in
      let (ys, rest, stored) =
        revise-revised same f u values s' updated (t + 1) (before t h ++ (t, updated) ∷ [])
          (after t h) (s'', h')
          (Under-append (t + 1) (before t h) ((t, updated) ∷ [])
            (Under-mono t (t + 1) (before t h) (omega arith) under) (omega arith, tt))
          from later
          (subst (λ k. revise same u s' updated (after t h) k ≡ ok (s'', h')) split looped) in
      subst (λ x. Updated t h x) (ok-injective last)
        (record {
          later = ys;
          computed = values s0 (unwrap_or default (load h t)) t (s', updated) first;
          rest = rest;
          stored = stored ∙ assoc same f (before t h) (t, updated) ys;
        })

  -- An accepted `update` keeps the snapshots in the order of their times.
  pub update-IsSorted :
      (s0 : S) (t : ℕ) (h : Snapshots V) (r : S × Snapshots V × V)
      → IsSorted h
      → update default same u s0 t h ≡ ok r
      → IsSorted r.1
  update-IsSorted s0 t h r s e =
      let parts = update-Updated s0 t h r s e in
      let (under, earlier) = before-IsSorted t h s in
      let (from, sorted) = after-IsSorted t h s in
      let (later_from, later_sorted) =
        revised-From same f r.2 (t + 1) (after t h) parts.later from sorted parts.rest in
      subst IsSorted (sym parts.stored) (
        append-IsSorted t (before t h) ((t, r.2) ∷ parts.later) under
          (omega arith, From-mono t (t + 1) parts.later (omega arith) later_from) earlier
          (later_from, later_sorted))

  read_before :
      (t t' : ℕ) (w : V) (h later : Snapshots V)
      → t' < t
      → From (t + 1) later
      → load (before t h ++ (t, w) ∷ later) t' ≡ load h t'
  unfolding load
  read_before t t' w h later l fr = ground (
    arith,
    load-append (before t h) ((t, w) ∷ later) t',
    load-before t t' h l,
    load-From t' (t + 1) later,
  )

  read_after :
      (t t' : ℕ) (w : V) (h later : Snapshots V)
      → t ≤ t'
      → load (before t h ++ (t, w) ∷ later) t' ≡ some (unwrap_or w (load later t'))
  unfolding load
  read_after t t' w h later l = ground (arith, load-append (before t h) ((t, w) ∷ later) t')

  unwrap_or-or_else :
      (a b : Option V) → unwrap_or default (or_else a b) ≡ unwrap_or (unwrap_or default b) a
  unwrap_or-or_else none b = refl
  unwrap_or-or_else (some v) b = refl

  value_since :
      (t t' : ℕ) (w : V) (h later : Snapshots V)
      → IsSorted h
      → From (t + 1) later
      → f (unwrap_or (unwrap_or default (load h t)) (load (after t h) t'))
        ≡ ok (unwrap_or w (load later t'))
      → (if ltb t' t then ok (unwrap_or default (load h t')) else f (unwrap_or default (load h t')))
        ≡ ok (unwrap_or default (load (before t h ++ (t, w) ∷ later) t'))
  value_since t t' w h later s fr image = ground (
    arith,
    read_before t t' w h later,
    read_after t t' w h later,
    load-after t t' h,
    unwrap_or-or_else (load (after t h) t') (load h t),
  )

  -- An `update` of snapshots in the order of their times, whose closure computes the same values
  -- whatever the time and its state, where it is accepted, refines a change of a function of time:
  -- the value at every time before `t` is as it was, and the value at every time from `t` on is the
  -- image of what it was. The value returned is that of the change at `t`. Values that `same` finds
  -- the same are equal.
  pub update-refines :
      ((a b : V) → same a b ≡ true → a ≡ b)
      → (s0 : S) (t t' : ℕ) (h : Snapshots V) (r : S × Snapshots V × V) → IsSorted h
      → update default same u s0 t h ≡ ok r
      → ((if ltb t' t
            then ok (unwrap_or default (load h t'))
            else f (unwrap_or default (load h t')))
          ≡ ok (unwrap_or default (load r.1 t')))
        × (f (unwrap_or default (load h t)) ≡ ok r.2)
  update-refines law s0 t t' h r s e =
      let parts = update-Updated s0 t h r s e in
      let (from, sorted) = after-IsSorted t h s in
      let later_from =
        (revised-From same f r.2 (t + 1) (after t h) parts.later from sorted parts.rest).0 in
      let image =
        load-revised same f law r.2 (unwrap_or default (load h t)) (after t h) parts.later t' sorted
          parts.computed parts.rest in
      (
        subst
            (λ k.
              (if ltb t' t
                then ok (unwrap_or default (load h t'))
                else f (unwrap_or default (load h t')))
              ≡ ok (unwrap_or default (load k t')))
            (sym parts.stored) (value_since t t' r.2 h parts.later s later_from image),
        parts.computed,
      )
