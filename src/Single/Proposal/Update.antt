-- ===== src/Single/Proposal/Update.antt =====
-- What `update_status` may change.
use dao_contracts.Prelude.{◌≡◌, refl, ok, >>=-eq-ok, ok-injective}
use mathlib.Core.Path.{subst}
use dao_contracts.Cosmwasm.{BlockInfo, CwUtils}
use dao_contracts.Single.Proposal.{SingleChoiceProposal, current_status, update_status}

-- Bringing the status up to date changes the status alone, to the current one.
pub update_status-current :
    (cw : CwUtils) (p p' : SingleChoiceProposal) (block : BlockInfo)
    → update_status cw p block ≡ ok p'
    → (record p { status = p'.status } ≡ p') × (current_status cw p block ≡ ok p'.status)
unfolding update_status
update_status-current cw p p' block h =
    let (st, now, e) = >>=-eq-ok (current_status cw p block) _ h in
    subst
      (λ (q : SingleChoiceProposal).
        (record p { status = q.status } ≡ q) × (current_status cw p block ≡ ok q.status))
      (ok-injective e) (refl, now)

pub update_status-sets :
    (cw : CwUtils) (p p' : SingleChoiceProposal) (block : BlockInfo)
    → update_status cw p block ≡ ok p'
    → record p { status = p'.status } ≡ p'
update_status-sets cw p p' block h = (update_status-current cw p p' block h).0
