-- ===== src/Single/Proposal/Decided.antt =====
-- What `is_passed` and `is_rejected` decide, stated by the powers and the times of a proposal: on a
-- well-formed proposal the code answers whether the statement holds, and does not panic.
use dao_contracts.Prelude.{
  ℕ, ◌+◌, ◌-◌, ◌*◌, ◌^◌, ◌≤◌, ◌<◌, ◌≡◌, ◌≢◌, ◌↔◌, ◌⊎◌, refl, inl, inr, Bool, true, false, not, ◌&&◌,
  ◌||◌, &&-eq-true, &&-intro, Option, none, some, arith, Outcome, ok,
}
use dao_contracts.Cosmwasm.{StdError, Expiration, BlockInfo, CwUtils}
use dao_contracts.Voting.Threshold.{
  PercentageThreshold, majority, percent, Threshold, absolute_percentage, threshold_quorum,
  absolute_count, Reachable, IsValid,
}
use dao_contracts.Voting.Votes.{Votes, does_vote_count_pass, compare_vote_count}
use dao_contracts.Voting.Votes.Exclusion.{mul_sub}
use dao_contracts.Single.Proposal.{
  SingleChoiceProposal, votes_to_consider, is_unanimous, min_period_over, is_passed, is_rejected,
}
use dao_contracts.Single.Proposal.Reference.{
  IsWellFormed, Passing-Reachable, passes, rejects, fails, closed_at, passed_at, rejected_at,
  is_passed-passed_at, is_rejected-rejected_at,
}

-- There are options, and the votes are more than half of them, or at least the percentage of them, up
-- to less than 10^9 atomics of a vote.
abbrev pub Reaches : PercentageThreshold → (options votes : ℕ) → Type 0
Reaches majority options votes = (0 < options) × (options < votes * 2)
Reaches (percent p) options votes = (0 < options) × (options * p < votes * 10 ^ 18 + 10 ^ 9)

-- There are no options, or the votes against are so many that the others cannot reach the threshold:
-- half of the options, one vote against unanimity, or more than what the percentage leaves.
abbrev pub Prevents : PercentageThreshold → (options nays : ℕ) → Type 0
Prevents majority options nays = (options ≡ 0) ⊎ (options ≤ nays * 2)
Prevents (percent p) options nays =
    (options ≡ 0)
    ⊎ ((p ≡ 10 ^ 18) × (1 ≤ nays))
    ⊎ ((p ≢ 10 ^ 18) × (options * 10 ^ 18 < nays * 10 ^ 18 + options * p))

-- The power that decides before and after the voting has closed: all but the abstentions, or the
-- votes for and against
pub data Stage : Type 0 where
  running closed : Stage

abbrev pub deciding_power : Stage → ℕ → Votes → ℕ
deciding_power running power v = power - v.abstain
deciding_power closed power v = v.yes + v.no

abbrev pub PassesBy : Threshold → ℕ → Votes → Stage → Type 0
PassesBy (absolute_percentage q) power v stage = Reaches q (power - v.abstain) v.yes
PassesBy (threshold_quorum t q) power v stage =
    Reaches q power (v.yes + v.no + v.abstain) × Reaches t (deciding_power stage power v) v.yes
PassesBy (absolute_count n) power v stage = n ≤ v.yes

abbrev pub IsOver : Stage → Type 0
IsOver running = ⊥
IsOver closed = Unit

abbrev pub FailsBy : Threshold → ℕ → Votes → Stage → Type 0
FailsBy (absolute_percentage q) power v stage = Prevents q (power - v.abstain) v.no
FailsBy (threshold_quorum t q) power v stage =
    (IsOver stage × (Reaches q power (v.yes + v.no + v.abstain) → ⊥))
    ⊎ Prevents t (deciding_power stage power v) v.no
FailsBy (absolute_count n) power v stage = v.yes + (power - (v.yes + v.no + v.abstain)) < n

-- Without revoting, the individual votes decide while the voting runs; the votes with delegations
-- decide after it has closed.
abbrev pub Decides : CwUtils → SingleChoiceProposal → BlockInfo → (Votes → Stage → Type 0) → Type 0
Decides cw p block P =
    ((cw.is_expired p.expiration block ≡ true) × P p.votes closed)
    ⊎ ((cw.is_expired p.expiration block ≡ false)
        × (p.allow_revoting ≡ false)
        × P p.individual_votes running)

-- The votes decide for it, and the minimum voting period, if there is one, is over.
abbrev pub IsPassedAt : CwUtils → SingleChoiceProposal → BlockInfo → Type 0
IsPassedAt cw p block =
    ((min : Expiration) → p.min_voting_period ≡ some min → cw.is_expired min block ≡ true)
    × Decides cw p block (PassesBy p.threshold p.total_power)

abbrev pub IsRejectedAt : CwUtils → SingleChoiceProposal → BlockInfo → Type 0
IsRejectedAt cw p block = Decides cw p block (FailsBy p.threshold p.total_power)

abbrev stage_of : Bool → Stage
stage_of true = closed
stage_of false = running

does_vote_count_pass-Reaches :
    (t : PercentageThreshold) (options votes : ℕ)
    → (does_vote_count_pass votes options t ≡ true) ↔ Reaches t options votes
unfolding does_vote_count_pass
does_vote_count_pass-Reaches majority options votes = ground arith
does_vote_count_pass-Reaches (percent p) options votes = ground arith

rejects-Prevents :
    (t : PercentageThreshold) (options nays : ℕ)
    → Reachable t
    → (rejects nays options t ≡ true) ↔ Prevents t options nays
unfolding is_unanimous compare_vote_count
rejects-Prevents majority options nays r = ground arith
rejects-Prevents (percent p) options nays r = ground (arith, mul_sub options p r)

both : {a b : Bool} {P Q : Type 0} → (a ≡ true) ↔ P → (b ≡ true) ↔ Q → ((a && b) ≡ true) ↔ (P × Q)
both {a = a} {b = b} p q =
    ((λ h. let (x, y) = &&-eq-true a b h in (p.0 x, q.0 y)), (λ h. &&-intro (p.1 h.0) (q.1 h.1)))

-- A quorum that is not met, or a majority against it
unmet_quorum :
    {a b : Bool} {P Q : Type 0}
    → (a ≡ true) ↔ P
    → (b ≡ true) ↔ Q
    → ((not a || b) ≡ true) ↔ ((Unit {0} × (P → ⊥)) ⊎ Q)
unmet_quorum {a = true} p q = (
  (λ h. inr (q.0 h)),
  (λ h. elim h [ inl unmet ↦ absurd (unmet.1 (p.0 refl)) | inr so ↦ q.1 so ]),
)
unmet_quorum {a = false} p q = ((λ h. inl (tt, λ met. cc (p.1 met))), λ h. refl)

passes_iff :
    (t : Threshold) (power : ℕ) (v : Votes) (over : Bool)
    → (passes t power v over ≡ true) ↔ PassesBy t power v (stage_of over)
unfolding passes
passes_iff (absolute_percentage q) power v over =
    does_vote_count_pass-Reaches q (power - v.abstain) v.yes
passes_iff (threshold_quorum t q) power v true =
    both (does_vote_count_pass-Reaches q power (v.yes + v.no + v.abstain))
      (does_vote_count_pass-Reaches t (v.yes + v.no) v.yes)
passes_iff (threshold_quorum t q) power v false =
    both (does_vote_count_pass-Reaches q power (v.yes + v.no + v.abstain))
      (does_vote_count_pass-Reaches t (power - v.abstain) v.yes)
passes_iff (absolute_count n) power v over = ground arith

fails_iff :
    (t : Threshold) (power : ℕ) (v : Votes) (over : Bool)
    → IsValid t
    → (fails t power v over ≡ true) ↔ FailsBy t power v (stage_of over)
unfolding fails
fails_iff (absolute_percentage q) power v over valid =
    rejects-Prevents q (power - v.abstain) v.no (Passing-Reachable q valid)
fails_iff (threshold_quorum t q) power v true valid =
    let quorum = does_vote_count_pass-Reaches q power (v.yes + v.no + v.abstain) in
    let against = rejects-Prevents t (v.yes + v.no) v.no (Passing-Reachable t valid.0) in
    unmet_quorum quorum against
fails_iff (threshold_quorum t q) power v false valid =
    let against = rejects-Prevents t (power - v.abstain) v.no (Passing-Reachable t valid.0) in
    (
      (λ h. inr (against.0 h)),
      (λ h. elim h [ inl no_quorum ↦ absurd no_quorum.0 | inr prevented ↦ against.1 prevented ]),
    )
fails_iff (absolute_count n) power v over valid = ground arith

and_false : (a : Bool) → not (a && false) ≡ true
and_false a = ground arith

and_true : (a : Bool) → not (a && true) ≡ true → a ≡ false
and_true a h = ground arith

decided :
    {P : Type 0} (answer : Outcome StdError Bool) (b : Bool)
    → answer ≡ ok b
    → (b ≡ true) ↔ P
    → ((answer ≡ ok true) × P) ⊎ ((answer ≡ ok false) × (P → ⊥))
decided answer true e iff = inl (e, iff.0 refl)
decided answer false e iff = inr (e, λ so. cc (iff.1 so))

module _ (cw : CwUtils) (p : SingleChoiceProposal) (block : BlockInfo) where
  period_iff :
      (m : Option Expiration)
      → (min_period_over cw m block ≡ true)
        ↔ ((min : Expiration) → m ≡ some min → cw.is_expired min block ≡ true)
  unfolding min_period_over
  period_iff none = ((λ h min e. cc), λ h. refl)
  period_iff (some min) = ((λ h m e. cc), λ h. h min refl)

  -- Which tally decides, and when
  decides_iff :
      (test : Votes → Bool → Bool) (P : Votes → Stage → Type 0)
      → ((v : Votes) (over : Bool) → (test v over ≡ true) ↔ P v (stage_of over))
      → (over : Bool)
      → ((not (p.allow_revoting && not over) && test (votes_to_consider p over) over) ≡ true) ↔ (
          ((over ≡ true) × P p.votes closed)
          ⊎ ((over ≡ false) × (p.allow_revoting ≡ false) × P p.individual_votes running))
  unfolding votes_to_consider
  decides_iff test P sound true = (
    (λ h. inl (refl, (sound p.votes true).0 (&&-eq-true _ _ h).1)),
    (λ h. elim h [
      | inl so ↦ &&-intro (and_false p.allow_revoting) ((sound p.votes true).1 so.1)
      | inr other ↦ absurd (cc (other.0))
    ]),
  )
  decides_iff test P sound false = (
    (λ h.
        let (fixed, decided) = &&-eq-true _ _ h in
        inr (refl, and_true p.allow_revoting fixed, (sound p.individual_votes false).0 decided)),
    (λ h. elim h [
      | inl other ↦ absurd (cc (other.0))
      | inr so ↦ &&-intro (rw so.1 refl) ((sound p.individual_votes false).1 so.2)
    ]),
  )

  passed_at_iff : (passed_at cw p block ≡ true) ↔ IsPassedAt cw p block
  unfolding passed_at
  passed_at_iff =
      let period = period_iff p.min_voting_period in
      let votes =
        decides_iff (passes p.threshold p.total_power) (PassesBy p.threshold p.total_power)
          (passes_iff p.threshold p.total_power) (closed_at cw p block) in
      (
        (λ h.
            let (early, decided) = &&-eq-true _ _ h in
            let (fixed, over) = &&-eq-true _ _ early in
            (period.0 over, votes.0 (&&-intro fixed decided))),
        (λ h.
            let (fixed, decided) = &&-eq-true _ _ (votes.1 h.1) in
            &&-intro (&&-intro fixed (period.1 h.0)) decided),
      )

  rejected_at_iff : IsWellFormed p → (rejected_at cw p block ≡ true) ↔ IsRejectedAt cw p block
  unfolding rejected_at
  rejected_at_iff w =
      decides_iff (fails p.threshold p.total_power) (FailsBy p.threshold p.total_power)
        (λ v over. fails_iff p.threshold p.total_power v over w.threshold_valid)
        (closed_at cw p block)

  -- On a well-formed proposal `is_passed` does not panic, and says whether the minimum voting period
  -- is over and the votes pass the threshold: the votes with delegations after the voting has
  -- closed, and before that, without revoting, the individual ones.
  pub is_passed-decides :
      IsWellFormed p
      → ((is_passed cw p block ≡ ok true) × IsPassedAt cw p block)
        ⊎ ((is_passed cw p block ≡ ok false) × (IsPassedAt cw p block → ⊥))
  is_passed-decides w =
      decided (is_passed cw p block) (passed_at cw p block) (is_passed-passed_at cw p block w)
        passed_at_iff

  -- On a well-formed proposal `is_rejected` does not panic, and says whether the votes fail the
  -- threshold: the votes with delegations after the voting has closed, where a quorum that is not
  -- met is a failure, and before that, without revoting, the individual ones.
  pub is_rejected-decides :
      IsWellFormed p
      → ((is_rejected cw p block ≡ ok true) × IsRejectedAt cw p block)
        ⊎ ((is_rejected cw p block ≡ ok false) × (IsRejectedAt cw p block → ⊥))
  is_rejected-decides w =
      decided (is_rejected cw p block) (rejected_at cw p block)
        (is_rejected-rejected_at cw p block w) (rejected_at_iff w)
