-- ===== src/Single/Privileged.antt =====
-- What only the DAO may do, and that none of it touches a proposal or a ballot.
use dao_contracts.Prelude.{
  ◌≡◌, refl, sym, Bool, true, false, List, Outcome, ok, map_err, ◌==◌, ==_iff, ==_sym, >>=-eq-ok,
  guard-eq-ok, ok-injective,
}
use mathlib.Core.Path.{subst}
use dao_contracts.Cosmwasm.{Addr, BlockInfo, CwUtils}
use dao_contracts.Voting.Threshold
use dao_contracts.Voting.Veto.{validate_voting_period}
use dao_contracts.Hooks.{add_hook, remove_hook}
use dao_contracts.Single.State.{
  State, ContractError, Chain, std_or, hook_error, threshold_error, voting_error,
}
use dao_contracts.Single.Messages.{SubMsg, PreProposeInfo}
use dao_contracts.Single.Contract.{
  ExecuteMsg, update_config, update_pre_propose_info, update_delegation_module, add_proposal_hook,
  remove_proposal_hook, add_vote_hook, remove_vote_hook, execute,
}
use dao_contracts.Single.Contract.Admin.{
  Settings, validate_veto, execute_update_config, execute_update_proposal_creation_policy,
  execute_update_delegation_module, execute_add_proposal_hook, execute_remove_proposal_hook,
  execute_add_vote_hook, execute_remove_vote_hook,
}

-- The messages of the DAO
abbrev pub is_privileged : ExecuteMsg → Bool
is_privileged (update_config m dao) = true
is_privileged (update_pre_propose_info i) = true
is_privileged (update_delegation_module a) = true
is_privileged (add_proposal_hook a) = true
is_privileged (remove_proposal_hook a) = true
is_privileged (add_vote_hook a) = true
is_privileged (remove_vote_hook a) = true
is_privileged _ = false

-- The proposals, their number and the ballots are the same.
pub record SameVotes (s t : State) : Type 0 where
  pub proposals : t.proposals ≡ s.proposals
  pub ballots : t.ballots ≡ s.ballots
  pub proposal_count : t.proposal_count ≡ s.proposal_count

abbrev pub ByDao : Addr → State → State → Type 0
ByDao sender s t = (sender ≡ s.config.dao) × SameVotes s t

module _ (chain : Chain) (sender : Addr) (s : State) (r : State × List SubMsg) where
  by_dao :
      {t : State} {msgs : List SubMsg}
      → (s.config.dao == sender) ≡ true
      → ◌≡◌ {A = Outcome ContractError (State × List SubMsg)} (ok (t, msgs)) (ok r)
      → SameVotes s t
      → ByDao sender s r.0
  by_dao {t} {msgs} d e same =
      subst (λ (x : State × List SubMsg). ByDao sender s x.0) (ok-injective e)
        (sym ((==_iff _ _).0 d), same)

  update_config-ByDao :
      (m : Settings) (dao : Addr)
      → execute_update_config chain sender m dao s ≡ ok r
      → ByDao sender s r.0
  unfolding execute_update_config
  update_config-ByDao m dao h =
      let (d, h1) = guard-eq-ok _ _ _ h in
      let (_, _, h2) = >>=-eq-ok (map_err threshold_error (Threshold.validate m.threshold)) _ h1 in
      let (a, _, h3) = >>=-eq-ok (std_or (chain.addr_validate dao)) _ h2 in
      let (periods, _, h4) =
        >>=-eq-ok
          (map_err voting_error (validate_voting_period m.min_voting_period m.max_voting_period)) _
          h3 in
      let (_, _, e) = >>=-eq-ok (validate_veto chain m.veto periods.1) _ h4 in
      by_dao (==_sym sender s.config.dao d) e
        (record { proposals = refl; ballots = refl; proposal_count = refl })

  update_policy-ByDao :
      (i : PreProposeInfo)
      → execute_update_proposal_creation_policy chain sender i s ≡ ok r
      → ByDao sender s r.0
  unfolding execute_update_proposal_creation_policy
  update_policy-ByDao i h =
      let (d, e) = guard-eq-ok _ _ _ h in
      by_dao d e (record { proposals = refl; ballots = refl; proposal_count = refl })

  update_delegation-ByDao :
      (a : Addr) → execute_update_delegation_module chain sender a s ≡ ok r → ByDao sender s r.0
  unfolding execute_update_delegation_module
  update_delegation-ByDao a h =
      let (d, h1) = guard-eq-ok _ _ _ h in
      let (v, _, e) = >>=-eq-ok (std_or (chain.addr_validate a)) _ h1 in
      by_dao d e (record { proposals = refl; ballots = refl; proposal_count = refl })

  add_proposal_hook-ByDao :
      (a : Addr) → execute_add_proposal_hook chain sender a s ≡ ok r → ByDao sender s r.0
  unfolding execute_add_proposal_hook
  add_proposal_hook-ByDao a h =
      let (d, h1) = guard-eq-ok _ _ _ h in
      let (v, _, h2) = >>=-eq-ok (std_or (chain.addr_validate a)) _ h1 in
      let (hooks, _, e) = >>=-eq-ok (map_err hook_error (add_hook s.proposal_hooks v)) _ h2 in
      by_dao d e (record { proposals = refl; ballots = refl; proposal_count = refl })

  remove_proposal_hook-ByDao :
      (a : Addr) → execute_remove_proposal_hook chain sender a s ≡ ok r → ByDao sender s r.0
  unfolding execute_remove_proposal_hook
  remove_proposal_hook-ByDao a h =
      let (d, h1) = guard-eq-ok _ _ _ h in
      let (v, _, h2) = >>=-eq-ok (std_or (chain.addr_validate a)) _ h1 in
      let (hooks, _, e) = >>=-eq-ok (map_err hook_error (remove_hook s.proposal_hooks v)) _ h2 in
      by_dao d e (record { proposals = refl; ballots = refl; proposal_count = refl })

  add_vote_hook-ByDao :
      (a : Addr) → execute_add_vote_hook chain sender a s ≡ ok r → ByDao sender s r.0
  unfolding execute_add_vote_hook
  add_vote_hook-ByDao a h =
      let (d, h1) = guard-eq-ok _ _ _ h in
      let (v, _, h2) = >>=-eq-ok (std_or (chain.addr_validate a)) _ h1 in
      let (hooks, _, e) = >>=-eq-ok (map_err hook_error (add_hook s.vote_hooks v)) _ h2 in
      by_dao d e (record { proposals = refl; ballots = refl; proposal_count = refl })

  remove_vote_hook-ByDao :
      (a : Addr) → execute_remove_vote_hook chain sender a s ≡ ok r → ByDao sender s r.0
  unfolding execute_remove_vote_hook
  remove_vote_hook-ByDao a h =
      let (d, h1) = guard-eq-ok _ _ _ h in
      let (v, _, h2) = >>=-eq-ok (std_or (chain.addr_validate a)) _ h1 in
      let (hooks, _, e) = >>=-eq-ok (map_err hook_error (remove_hook s.vote_hooks v)) _ h2 in
      by_dao d e (record { proposals = refl; ballots = refl; proposal_count = refl })

-- The messages that configure the module, its hooks, its pre-propose and its delegation module are
-- accepted from the DAO alone, and leave every proposal and every ballot as it is.
pub privileged-ByDao :
    (cw : CwUtils) (chain : Chain) (block : BlockInfo) (sender : Addr) (msg : ExecuteMsg)
    (s : State) (r : State × List SubMsg)
    → is_privileged msg ≡ true
    → execute cw chain block sender msg s ≡ ok r
    → ByDao sender s r.0
unfolding execute
privileged-ByDao cw chain block sender (update_config m dao) s r d h =
    update_config-ByDao chain sender s r m dao h
privileged-ByDao cw chain block sender (update_pre_propose_info i) s r d h =
    update_policy-ByDao chain sender s r i h
privileged-ByDao cw chain block sender (update_delegation_module a) s r d h =
    update_delegation-ByDao chain sender s r a h
privileged-ByDao cw chain block sender (add_proposal_hook a) s r d h =
    add_proposal_hook-ByDao chain sender s r a h
privileged-ByDao cw chain block sender (remove_proposal_hook a) s r d h =
    remove_proposal_hook-ByDao chain sender s r a h
privileged-ByDao cw chain block sender (add_vote_hook a) s r d h =
    add_vote_hook-ByDao chain sender s r a h
privileged-ByDao cw chain block sender (remove_vote_hook a) s r d h =
    remove_vote_hook-ByDao chain sender s r a h
privileged-ByDao cw chain block sender _ s r d h = cc
