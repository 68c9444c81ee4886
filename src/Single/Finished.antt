-- ===== src/Single/Finished.antt =====
-- When a proposal can be vetoed, closed and executed, and what each leaves.
use dao_contracts.Prelude.{
  ℕ, ◌≡◌, refl, ap, sym, Bool, true, false, Option, some, List, arith, Outcome, ok, err, ok_or,
  >>=-eq-ok, map_err-eq-ok, ok_or-eq-ok, ok-injective,
}
use dao_contracts.Cosmwasm.{Addr, BlockInfo, CwUtils, not_found}
use dao_contracts.Voting.Status.{
  Status, open_for_votes, rejected, passed, executed, closed, vetoed, veto_timelock,
}
use dao_contracts.Voting.Veto.{
  VetoConfig, check_is_vetoer, check_early_execute_enabled, check_veto_before_passed_enabled,
}
use dao_contracts.Single.Proposal.{SingleChoiceProposal, update_status}
use dao_contracts.Single.State.{
  State, ContractError, Chain, std, std_or, veto_or, veto_error, no_such_proposal,
  wrong_close_status,
}
use dao_contracts.Single.Messages.{SubMsg}
use dao_contracts.Single.Contract.Finish.{
  finish, check_vetoable, execute_veto, execute_close, can_execute, check_executable,
  execute_execute,
}

-- A handler that brought a proposal up to date, found in it what it asks for, and gave it a status.
pub record Finished (cw : CwUtils) (block : BlockInfo) (id : ℕ) (st : Status) (s s' : State)
    (Allowed : SingleChoiceProposal → Type 0) : Type 0 where
  pub before : SingleChoiceProposal
  pub current : SingleChoiceProposal
  pub known : s.proposals id ≡ some before
  pub updated : update_status cw before block ≡ ok current
  pub allowed : Allowed current
  pub result : s' ≡ (finish id current st s).0

-- The vetoer may veto an open proposal if that is configured, and a timelocked one until the
-- timelock expires.
abbrev pub StatusVetoable : CwUtils → BlockInfo → VetoConfig → Status → Type 0
StatusVetoable cw block c open_for_votes = c.veto_before_passed ≡ true
StatusVetoable cw block c (veto_timelock e) = cw.is_expired e block ≡ false
StatusVetoable cw block c _ = ⊥

abbrev pub Vetoable : CwUtils → BlockInfo → Addr → SingleChoiceProposal → Type 0
Vetoable cw block sender p =
    (c : VetoConfig) × (p.veto ≡ some c) × (c.vetoer ≡ sender) × StatusVetoable cw block c p.status

-- Anyone who is allowed to may execute a passed proposal; the vetoer may execute a timelocked one if
-- early execution is configured.
abbrev pub StatusExecutable : Bool → Addr → Option VetoConfig → Status → Type 0
StatusExecutable can sender veto passed = can ≡ true
StatusExecutable can sender veto (veto_timelock e) =
    (c : VetoConfig) × (veto ≡ some c) × (c.vetoer ≡ sender) × (c.early_execute ≡ true)
StatusExecutable can sender veto _ = ⊥

check_vetoable-eq-ok :
    (cw : CwUtils) (block : BlockInfo) (c : VetoConfig) (st : Status) {u : Unit {0}}
    → check_vetoable cw block c st ≡ ok u
    → StatusVetoable cw block c st
unfolding check_vetoable check_veto_before_passed_enabled
check_vetoable-eq-ok cw block c open_for_votes h = ground arith
check_vetoable-eq-ok cw block c (veto_timelock e) h = ground arith
check_vetoable-eq-ok cw block c _ h = cc

check_executable-eq-ok :
    (cw : CwUtils) (block : BlockInfo) (chain : Chain) (can : Bool) (sender : Addr)
    (p : SingleChoiceProposal) (st : Status) {u : Unit {0}}
    → check_executable cw block chain can sender p st ≡ ok u
    → StatusExecutable can sender p.veto st
unfolding check_executable check_early_execute_enabled
check_executable-eq-ok cw block chain can sender p passed h = ground arith
check_executable-eq-ok cw block chain can sender p (veto_timelock e) h =
    let (c, found, h') = >>=-eq-ok (ok_or p.veto _) _ h in
    (c, ok_or-eq-ok _ _ found, ground arith, ground arith)
check_executable-eq-ok cw block chain can sender p _ h = cc

only_rejected :
    {A : Type 0} (st : Status) (x : Outcome ContractError A) {a : A}
    → (elim st as (λ _. Outcome ContractError A) [ rejected ↦ x | _ ↦ err wrong_close_status ])
      ≡ ok a
    → (st ≡ rejected) × (x ≡ ok a)
only_rejected rejected x h = (refl, h)
only_rejected _ x h = cc

check_is_vetoer-eq-ok :
    (c : VetoConfig) (sender : Addr) {u : Unit {0}}
    → check_is_vetoer c sender ≡ ok u
    → c.vetoer ≡ sender
unfolding check_is_vetoer
check_is_vetoer-eq-ok c sender h = ground arith

module _ (cw : CwUtils) (block : BlockInfo) (sender : Addr) (id : ℕ) (s : State)
    (r : State × List SubMsg) where
  -- A veto that is accepted comes from the configured vetoer, meets an open proposal whose
  -- configuration allows an early veto or a timelock that has not expired, and leaves the proposal
  -- vetoed.
  pub execute_veto-Finished :
      execute_veto cw block sender id s ≡ ok r
      → Finished cw block id vetoed s r.0 (Vetoable cw block sender)
  unfolding execute_veto
  execute_veto-Finished h =
      let (prop, known, h1) = >>=-eq-ok (ok_or (s.proposals id) (no_such_proposal id)) _ h in
      let (p, up, h2) = >>=-eq-ok (std_or (update_status cw prop block)) _ h1 in
      let (c, found, h3) = >>=-eq-ok (ok_or p.veto _) _ h2 in
      let (_, vetoer, h4) = >>=-eq-ok (veto_or (check_is_vetoer c sender)) _ h3 in
      let (_, vetoable, e) = >>=-eq-ok (veto_or (check_vetoable cw block c p.status)) _ h4 in
      record {
        before = prop;
        current = p;
        known = ok_or-eq-ok _ _ known;
        updated = map_err-eq-ok std _ up;
        allowed = (
          c,
          ok_or-eq-ok _ _ found,
          check_is_vetoer-eq-ok c sender (map_err-eq-ok veto_error _ vetoer),
          check_vetoable-eq-ok cw block c p.status (map_err-eq-ok veto_error _ vetoable),
        );
        result = sym (ap (λ (x : State × List SubMsg). x.0) (ok-injective e));
      }

  -- A proposal that is closed is one whose status, brought up to date, is rejected.
  pub execute_close-Finished :
      execute_close cw block sender id s ≡ ok r
      → Finished cw block id closed s r.0 (λ p. p.status ≡ rejected)
  unfolding execute_close
  execute_close-Finished h =
      let (prop, known, h1) = >>=-eq-ok (ok_or (s.proposals id) (std not_found)) _ h in
      let (p, up, h2) = >>=-eq-ok (std_or (update_status cw prop block)) _ h1 in
      let (is_rejected, e) = only_rejected p.status _ h2 in
      record {
        before = prop;
        current = p;
        known = ok_or-eq-ok _ _ known;
        updated = map_err-eq-ok std _ up;
        allowed = is_rejected;
        result = sym (ap (λ (x : State × List SubMsg). x.0) (ok-injective e));
      }

  -- An execution that is accepted meets a proposal whose status, brought up to date, is passed, and
  -- a sender who may execute; or a timelocked one, whose vetoer sends it and may execute early. It
  -- leaves the proposal executed.
  pub execute_execute-Finished :
      (chain : Chain)
      → execute_execute cw block chain sender id s ≡ ok r
      → Finished cw block id executed s r.0 (λ p.
        (can : Bool) × ((before : SingleChoiceProposal) × (s.proposals id ≡ some before)
          × (can_execute cw block chain s.config sender before ≡ ok can))
        × StatusExecutable can sender p.veto p.status)
  unfolding execute_execute
  execute_execute-Finished chain h =
      let (prop, known, h1) = >>=-eq-ok (ok_or (s.proposals id) (no_such_proposal id)) _ h in
      let (can, may, h2) = >>=-eq-ok (can_execute cw block chain s.config sender prop) _ h1 in
      let (p, up, h3) = >>=-eq-ok (std_or (update_status cw prop block)) _ h2 in
      let (_, executable, e) =
        >>=-eq-ok (check_executable cw block chain can sender p p.status) _ h3 in
      record {
        before = prop;
        current = p;
        known = ok_or-eq-ok _ _ known;
        updated = map_err-eq-ok std _ up;
        allowed = (
          can,
          (prop, ok_or-eq-ok _ _ known, may),
          check_executable-eq-ok cw block chain can sender p p.status executable,
        );
        result = sym (ap (λ (x : State × List SubMsg). x.0) (ok-injective e));
      }
