-- ===== src/Condorcet/Counted/Entries.antt =====
-- contracts/proposal/dao-proposal-condorcet/src/contract.rs: the entries of a map.
use dao_contracts.Prelude.{
  ℕ, ◌≤◌, ◌≡◌, ◌≢◌, refl, sym, ◌∙◌, ◌⊎◌, inl, inr, false, some, some-injective, [], ◌∷◌, arith,
  ◌==◌, ==_iff, if◌then◌else◌, if-cases,
}
use dao_contracts.Condorcet.Contract.{Entries, find, put, last_key}

pub apart : (a b : ℕ) → (a == b) ≡ false → a ≢ b
apart a b h = λ e. ground arith

module _ {V : Type 0} where
  pub find-put :
      (k : ℕ) (v : V) (l : Entries V) (j : ℕ)
      → find j (put k v l) ≡ (if k == j then some v else find j l)
  unfolding find put
  find-put k v [] j = refl
  find-put k v ((i, w) ∷ l) j = ground (arith, find-put k v l j)

  pub last_key-put : (k : ℕ) (v : V) (l : Entries V) → last_key l ≤ last_key (put k v l)
  unfolding last_key put
  last_key-put k v [] = omega arith
  last_key-put k v ((i, w) ∷ l) = ground (arith, last_key-put k v l)

  pub last_key-put-le :
      (k : ℕ) (v : V) (l : Entries V) (bound : ℕ)
      → k ≤ bound
      → last_key l ≤ bound
      → last_key (put k v l) ≤ bound
  unfolding last_key put
  last_key-put-le k v [] bound le le' = ground arith
  last_key-put-le k v ((i, w) ∷ l) bound le le' = ground (arith, last_key-put-le k v l bound)

  pub le-last_key-put : (k : ℕ) (v : V) (l : Entries V) → k ≤ last_key (put k v l)
  unfolding last_key put
  le-last_key-put k v [] = ground arith
  le-last_key-put k v ((i, w) ∷ l) = ground (arith, le-last_key-put k v l)

  pub find-le-last_key : (l : Entries V) (k : ℕ) (v : V) → find k l ≡ some v → k ≤ last_key l
  unfolding find last_key
  find-le-last_key [] k v h = cc
  find-le-last_key ((i, w) ∷ l) k v h = ground (arith, find-le-last_key l k v)

  -- What is found after a change is what was stored, or what was there.
  pub found-put :
      (k : ℕ) (v : V) (l : Entries V) (j : ℕ) (w : V)
      → find j (put k v l) ≡ some w
      → ((k ≡ j) × (v ≡ w)) ⊎ ((k ≢ j) × (find j l ≡ some w))
  found-put k v l j w h = elim (if-cases (k == j) _ _ (sym (find-put k v l j) ∙ h)) [
    | inl (same, e) ↦ inl ((==_iff k j).0 same, some-injective e)
    | inr (other, e) ↦ inr (apart k j other, e)
  ]
