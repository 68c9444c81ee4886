-- ===== src/Single/Tallied/Override.antt =====
-- Overriding the delegates' votes keeps the ballots and the tally in step.
use dao_contracts.Prelude.{
  ℕ, ◌≡◌, refl, ◌∙◌, if-cases, ok-injective, not, Option, none, some, List, [], ◌∷◌, arith, ◌==◌,
  Outcome, ok, >>=-eq-ok, Option-cases, inl, inr,
}
use mathlib.Core.Path.{subst}
use dao_contracts.Cosmwasm.{Addr, StdError, sub128}
use dao_contracts.Voting.Votes.{Votes, remove_vote}
use dao_contracts.Voting.Votes.Tally.{remove_vote_removes}
use dao_contracts.Single.State.{Ballot, Chain, DelegationResponse}
use dao_contracts.Single.Ballots.{find, put, tally-put}
use dao_contracts.Single.Delegates.{
  Tallies, calculate_delegated_vp, take_back, override_delegate, override_delegates,
  handle_delegate_vote_override,
}
use dao_contracts.Single.Tallied.{Balanced, power_of, individual_of}

pub Balanced-refl : (id : ℕ) (t : Tallies) → Balanced id t t
Balanced-refl id t = record {
  balance = λ o. refl;
  others = λ j o n. refl;
  individual = λ j o. refl;
}

Balanced-trans : (id : ℕ) (t u v : Tallies) → Balanced id t u → Balanced id u v → Balanced id t v
Balanced-trans id t u v a b = record {
  balance = λ o. omega (arith, a.balance o, b.balance o);
  others = λ j o n. b.others j o n ∙ a.others j o n;
  individual = λ j o. b.individual j o ∙ a.individual j o;
}

same :
    (id : ℕ) {t t' : Tallies} → ◌≡◌ {A = Outcome StdError Tallies} (ok t) (ok t') → Balanced id t t'
same id {t} e = subst (λ u. Balanced id t u) (ok-injective e) (Balanced-refl id t)

-- A ballot loses what the tally loses.
lower_ballot-Balanced :
    (id : ℕ) (a : Addr) (b : Ballot) (t : Tallies) (reduction power : ℕ) (votes : Votes)
    → find id a t.ballots ≡ some b
    → sub128 {E = StdError} b.power reduction ≡ ok power
    → remove_vote {E = StdError} b.vote reduction t.votes ≡ ok votes
    → Balanced id t
        (record { ballots = put id a (record b { power = power }) t.ballots; votes = votes })
lower_ballot-Balanced id a b t reduction power votes found lowered removed = record {
  balance = λ o. ground (
    arith,
    tally-put power_of id id o a (record b { power = power }) t.ballots,
    remove_vote_removes {E = StdError} b.vote o reduction t.votes votes removed,
  );
  others =
      λ j o n. ground (arith, tally-put power_of id j o a (record b { power = power }) t.ballots);
  individual = λ j o.
      ground (arith, tally-put individual_of id j o a (record b { power = power }) t.ballots);
}

module _ (chain : Chain) (dm : Addr) (id height individual : ℕ) where
  take_back-Balanced :
      (d : DelegationResponse) (b : Ballot) (t t' : Tallies)
      → find id d.delegate t.ballots ≡ some b
      → take_back chain dm id height individual d b t ≡ ok t'
      → Balanced id t t'
  unfolding take_back
  take_back-Balanced d b t t' found h =
      let (vp, _, h') = >>=-eq-ok (calculate_delegated_vp individual d.percent) _ h in
      let (r, _, h'') = >>=-eq-ok (chain.power_reduction dm id height d.delegate vp) _ h' in
      elim (if-cases (r == 0) _ _ h'') [
        | inl (_, e) ↦ same id e
        | inr (_, h3) ↦
            let (power, lowered, h4) = >>=-eq-ok (sub128 b.power r) _ h3 in
            let (votes, removed, e) = >>=-eq-ok (remove_vote b.vote r t.votes) _ h4 in
            subst (λ u. Balanced id t u) (ok-injective e)
              (lower_ballot-Balanced id d.delegate b t r power votes found lowered removed)
      ]

  override_delegate-Balanced :
      (d : DelegationResponse) (t t' : Tallies)
      → override_delegate chain dm id height individual d t ≡ ok t'
      → Balanced id t t'
  unfolding override_delegate
  override_delegate-Balanced d t t' h = elim (if-cases (not d.active) _ _ h) [
    | inl (_, e) ↦ same id e
    | inr (_, h') ↦ elim (Option-cases (find id d.delegate t.ballots)) [
      | inl unvoted ↦ same id (rw unvoted at h')
      | inr (b, found) ↦ take_back-Balanced d b t t' found (rw found at h')
    ]
  ]

  override_delegates-Balanced :
      (ds : List DelegationResponse) (t t' : Tallies)
      → override_delegates chain dm id height individual ds t ≡ ok t'
      → Balanced id t t'
  unfolding override_delegates
  override_delegates-Balanced [] t t' h = same id h
  override_delegates-Balanced (d ∷ ds) t t' h =
      let (u, hu, h') = >>=-eq-ok (override_delegate chain dm id height individual d t) _ h in
      Balanced-trans id t u t' (override_delegate-Balanced d t u hu)
        (override_delegates-Balanced ds u t' h')

pub override-Balanced :
    (chain : Chain) (delegator : Addr) (dm : Option Addr) (id height individual : ℕ)
    (t t' : Tallies)
    → handle_delegate_vote_override chain delegator dm id height individual t ≡ ok t'
    → Balanced id t t'
unfolding handle_delegate_vote_override
override-Balanced chain delegator none id height individual t t' h = same id h
override-Balanced chain delegator (some dm) id height individual t t' h =
    let (ds, _, h') = >>=-eq-ok (chain.delegations dm delegator height) _ h in
    override_delegates-Balanced chain dm id height individual ds t t' h'
