-- ===== src/Single/Proposal/Reasons.antt =====
-- contracts/proposal/dao-proposal-single/src/proposal.rs: for which stored proposals and at which
-- blocks the current status is what it is.
use dao_contracts.Prelude.{
  ◌≡◌, refl, ap, sym, if-cases, ◌>>=◌, inl, inr, true, false, Bool-cases, Option, none, some, ◌⊎◌,
  if◌then◌else◌, ok, ok-injective, ◌∙◌, >>=-then,
}
use mathlib.Core.Path.{subst}
use dao_contracts.Cosmwasm.{Expiration, BlockInfo, CwUtils}
use dao_contracts.Voting.Status.{
  Status, open_for_votes, rejected, passed, executed, closed, execution_failed, vetoed,
  veto_timelock,
}
use dao_contracts.Voting.Veto.{VetoConfig}
use dao_contracts.Single.Proposal.{
  SingleChoiceProposal, is_passed, is_rejected, status_when_passed, status_when_open, status_from,
  current_status,
}

module _ (cw : CwUtils) (block : BlockInfo) where
  -- The end of the timelock of a proposal with a veto, from the end of its voting
  abbrev pub LockedUntil : SingleChoiceProposal → Expiration → Type 0
  LockedUntil p e =
      (c : VetoConfig) × (p.veto ≡ some c) × (cw.add p.expiration c.timelock_duration ≡ ok e)

  -- Votes have passed an open proposal.
  abbrev pub VotedFor : SingleChoiceProposal → Type 0
  VotedFor p = (p.status ≡ open_for_votes) × (is_passed cw p block ≡ ok true)

  abbrev pub VotedAgainst : SingleChoiceProposal → Type 0
  VotedAgainst p =
      (p.status ≡ open_for_votes)
      × (is_passed cw p block ≡ ok false)
      × ((cw.is_expired p.expiration block ≡ true) ⊎ (is_rejected cw p block ≡ ok true))

  abbrev pub Undecided : SingleChoiceProposal → Type 0
  Undecided p =
      (p.status ≡ open_for_votes)
      × (is_passed cw p block ≡ ok false)
      × (cw.is_expired p.expiration block ≡ false)
      × (is_rejected cw p block ≡ ok false)

  -- It has passed and no timelock runs.
  abbrev pub HasPassed : SingleChoiceProposal → Type 0
  HasPassed p =
      (p.status ≡ passed)
      ⊎ ((e : Expiration) × (p.status ≡ veto_timelock e) × (cw.is_expired e block ≡ true))
      ⊎ (VotedFor p
          × ((p.veto ≡ none)
              ⊎ ((e : Expiration) × LockedUntil p e × (cw.is_expired e block ≡ true))))

  -- It has passed and its timelock runs until `e`.
  abbrev pub IsTimelocked : SingleChoiceProposal → Expiration → Type 0
  IsTimelocked p e =
      (cw.is_expired e block ≡ false)
      × ((p.status ≡ veto_timelock e) ⊎ (VotedFor p × LockedUntil p e))

  abbrev pub IsRejected : SingleChoiceProposal → Type 0
  IsRejected p = (p.status ≡ rejected) ⊎ VotedAgainst p

  -- Why a proposal has a status at the block
  abbrev pub Reason : SingleChoiceProposal → Status → Type 0
  Reason p open_for_votes = Undecided p
  Reason p rejected = IsRejected p
  Reason p passed = HasPassed p
  Reason p (veto_timelock e) = IsTimelocked p e
  Reason p st = p.status ≡ st

  when_passed :
      (p : SingleChoiceProposal) (veto : Option VetoConfig) (st : Status)
      → VotedFor p
      → p.veto ≡ veto
      → status_when_passed cw veto p.expiration block ≡ ok st
      → Reason p st
  unfolding status_when_passed
  when_passed p none st voted e h = subst (Reason p) (ok-injective h) (inr (inr (voted, inl e)))
  when_passed p (some c) st voted e h =
      >>=-then (cw.add p.expiration c.timelock_duration) _ h λ lock until h1.
        subst (Reason p) (ok-injective h1) (elim (Bool-cases (cw.is_expired lock block)) [
          | inl over ↦ rw over (inr (inr (voted, inr (lock, (c, e, until), over))))
          | inr runs ↦ rw runs (runs, inr (voted, (c, e, until)))
        ])

  -- The end of `status_when_open`
  when_undecided :
      (p : SingleChoiceProposal) (st : Status)
      → p.status ≡ open_for_votes
      → is_passed cw p block ≡ ok false
      → (if cw.is_expired p.expiration block
          then ok rejected
          else (is_rejected cw p block >>= λ now. ok (if now then rejected else p.status)))
        ≡ ok st
      → Reason p st
  when_undecided p st opened not_passed h =
      elim (if-cases (cw.is_expired p.expiration block) _ _ h) [
        | inl (over, e) ↦ subst (Reason p) (ok-injective e) (inr (opened, not_passed, inl over))
        | inr (runs, h1) ↦ >>=-then (is_rejected cw p block) _ h1 λ now decided e.
            subst (Reason p) (ok-injective e) (elim (Bool-cases now) [
              | inl so ↦ rw so (inr (opened, not_passed, inr (decided ∙ ap ok so)))
              | inr not_so ↦
                  rw not_so (
                    subst (Reason p) (sym opened)
                      (opened, not_passed, runs, decided ∙ ap ok not_so))
            ])
      ]

  when_open :
      (p : SingleChoiceProposal) (st : Status)
      → p.status ≡ open_for_votes
      → status_when_open cw p block ≡ ok st
      → Reason p st
  unfolding status_when_open
  when_open p st opened h = >>=-then (is_passed cw p block) _ h λ now decided h1.
      elim (if-cases now _ _ h1) [
        | inl (so, h2) ↦ when_passed p p.veto st (opened, decided ∙ ap ok so) refl h2
        | inr (not_so, h2) ↦ when_undecided p st opened (decided ∙ ap ok not_so) h2
      ]

  from_status :
      (p : SingleChoiceProposal) (old st : Status)
      → p.status ≡ old
      → status_from cw old p block ≡ ok st
      → Reason p st
  unfolding status_from
  from_status p open_for_votes st e h = when_open p st e h
  from_status p (veto_timelock lock) st e h =
      subst (Reason p) (ok-injective h) (elim (Bool-cases (cw.is_expired lock block)) [
        | inl over ↦ rw over (inr (inl (lock, e, over)))
        | inr runs ↦ rw (runs, e) (runs, inl refl)
      ])
  from_status p passed st e h = subst (Reason p) (sym e ∙ ok-injective h) (inl e)
  from_status p rejected st e h = subst (Reason p) (sym e ∙ ok-injective h) (inl e)
  from_status p executed st e h = subst (Reason p) (sym e ∙ ok-injective h) e
  from_status p closed st e h = subst (Reason p) (sym e ∙ ok-injective h) e
  from_status p execution_failed st e h = subst (Reason p) (sym e ∙ ok-injective h) e
  from_status p vetoed st e h = subst (Reason p) (sym e ∙ ok-injective h) e

  -- The current status has its reason in the stored proposal and the block.
  pub current_status-Reason :
      (p : SingleChoiceProposal) (st : Status) → current_status cw p block ≡ ok st → Reason p st
  unfolding current_status
  current_status-Reason p st h = from_status p p.status st refl h
