-- ===== src/Voting/Policy.antt =====
-- packages/dao-voting/src/pre_propose.rs: who may create proposals.
use dao_contracts.Prelude.{
  Bool, true, false, not, ◌&&◌, ◌||◌, List, [], ◌∷◌, ◌==◌, if◌then◌else◌, Outcome, ok, err,
}
use dao_contracts.Cosmwasm.{Addr}

pub data ProposalCreationPolicy : Type 0 where
  anyone : ProposalCreationPolicy
  module_may : Addr → ProposalCreationPolicy

unfoldable pub is_permitted : ProposalCreationPolicy → Addr → Bool
is_permitted anyone creator = true
is_permitted (module_may addr) creator = creator == addr

pub data PreProposeSubmissionPolicy : Type 0 where
  anyone_but : List Addr → PreProposeSubmissionPolicy
  specific : Bool → List Addr → List Addr → PreProposeSubmissionPolicy

pub data PolicyError : Type 0 where
  no_one_allowed denylist_allowlist_overlap : PolicyError

unfoldable pub contains : List Addr → Addr → Bool
contains [] a = false
contains (x ∷ xs) a = x == a || contains xs a

unfoldable pub overlap : List Addr → List Addr → Bool
unfolding contains
overlap [] allowlist = false
overlap (d ∷ denylist) allowlist = contains allowlist d || overlap denylist allowlist

abbrev is_empty : List Addr → Bool
is_empty [] = true
is_empty (x ∷ xs) = false

-- `PreProposeSubmissionPolicy::validate`
unfoldable pub validate : PreProposeSubmissionPolicy → Outcome PolicyError Unit
unfolding overlap
validate (anyone_but denylist) = ok tt
validate (specific dao_members allowlist denylist) =
    if overlap denylist allowlist
    then err denylist_allowlist_overlap
    else if not dao_members && is_empty allowlist
    then err no_one_allowed
    else ok tt
