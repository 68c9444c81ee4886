-- ===== src/Condorcet/Vote/Ballots.antt =====
-- contracts/proposal/dao-proposal-condorcet/src/vote.rs: which ballots are accepted.
use dao_contracts.Prelude.{
  else-eq-ok, ℕ, ◌<◌, ◌≡◌, ◌↔◌, refl, sym, ap, ◌∙◌, false, List, [], ◌∷◌, ◌++◌, length, arith, leb,
  ◌==◌, ==_iff, ok, guard-eq-ok, ok-injective,
}
use mathlib.Core.Path.{subst}
use mathlib.Core.List.{append_assoc, append-nil}
use dao_contracts.Voting.Policy.{contains}
use dao_contracts.Hooks.{IsUnique, append-IsUnique}
use dao_contracts.Condorcet.Vote.{Vote, AreBelow, check_from, new}

-- The ballots that rank every candidate once
pub record IsRanking (candidates : ℕ) (vote : List ℕ) : Type 0 where
  pub complete : length vote ≡ candidates
  pub known : AreBelow candidates vote
  pub distinct : IsUnique vote

contains-middle :
    (seen vote : List ℕ) (v x : ℕ) → contains (seen ++ v ∷ vote) x ≡ false → (v == x) ≡ false
unfolding contains
contains-middle [] vote v x h = ground arith
contains-middle (y ∷ seen) vote v x h = ground (arith, contains-middle seen vote v x)

not_seen : (seen vote : List ℕ) (v : ℕ) → IsUnique (seen ++ v ∷ vote) → contains seen v ≡ false
unfolding contains
not_seen [] vote v u = refl
not_seen (x ∷ seen) vote v (fresh, u) =
    ground (arith, contains-middle seen vote v x fresh, not_seen seen vote v u)

leb-false : (a b : ℕ) → leb a b ≡ false → b < a
leb-false a b h = ground arith

lt-leb-false : (a b : ℕ) → b < a → leb a b ≡ false
lt-leb-false a b h = ground arith

check_from_sound :
    (candidates : ℕ) (seen vote r : List ℕ)
    → IsUnique seen
    → check_from candidates seen vote ≡ ok r
    → (r ≡ seen ++ vote) × AreBelow candidates vote × IsUnique (seen ++ vote)
unfolding check_from
check_from_sound candidates seen [] r u h =
    (sym (ok-injective h) ∙ sym (append-nil seen), tt, subst IsUnique (sym (append-nil seen)) u)
check_from_sound candidates seen (v ∷ vote) r u h =
    let (known, h1) = else-eq-ok (leb candidates v) _ _ h in
    let (fresh, h2) = else-eq-ok (contains seen v) _ _ h1 in
    let (same, below, distinct) =
      check_from_sound candidates (seen ++ v ∷ []) vote r (append-IsUnique seen v fresh u) h2 in
    let joined = append_assoc seen (v ∷ []) vote in
    (same ∙ joined, (leb-false candidates v known, below), subst IsUnique joined distinct)

check_from_complete :
    (candidates : ℕ) (seen vote : List ℕ)
    → AreBelow candidates vote
    → IsUnique (seen ++ vote)
    → check_from candidates seen vote ≡ ok (seen ++ vote)
unfolding check_from
check_from_complete candidates seen [] below u = ap ok (sym (append-nil seen))
check_from_complete candidates seen (v ∷ vote) (first, below) u =
    let joined = append_assoc seen (v ∷ []) vote in
    rw (lt-leb-false candidates v first) (
      rw (not_seen seen vote v u) (
        check_from_complete candidates (seen ++ v ∷ []) vote below (subst IsUnique (sym joined) u)
        ∙ ap ok joined))

-- A ballot is accepted exactly if it ranks every candidate once, and then as it is.
pub new_iff :
    (vote : List ℕ) (candidates : ℕ) → (new vote candidates ≡ ok vote) ↔ IsRanking candidates vote
unfolding new
new_iff vote candidates = (
  (λ h.
      let (complete, k) = guard-eq-ok (length vote == candidates) _ _ h in
      let (_, known, distinct) = check_from_sound candidates [] vote vote tt k in
      record {
        complete = (==_iff (length vote) candidates).0 complete;
        known = known;
        distinct = distinct;
      }),
  (λ r.
      rw ((==_iff (length vote) candidates).1 r.complete)
        (check_from_complete candidates [] vote r.known r.distinct)),
)

-- What is accepted is the ballot itself.
pub new-IsRanking :
    (vote : List ℕ) (candidates : ℕ) (checked : Vote)
    → new vote candidates ≡ ok checked
    → (checked ≡ vote) × IsRanking candidates checked
unfolding new
new-IsRanking vote candidates checked h =
    let (complete, k) = guard-eq-ok (length vote == candidates) _ _ h in
    let (same, known, distinct) = check_from_sound candidates [] vote checked tt k in
    (
      same,
      subst (IsRanking candidates) (sym same) (record {
        complete = (==_iff (length vote) candidates).0 complete;
        known = known;
        distinct = distinct;
      }),
    )
