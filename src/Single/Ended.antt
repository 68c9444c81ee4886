-- ===== src/Single/Ended.antt =====
-- contracts/proposal/dao-proposal-single/src/contract.rs: which stored proposals a veto, an execution
-- and a closure end, and what is stored afterwards.
use dao_contracts.Prelude.{
  ℕ, ◌<◌, ◌≡◌, ◌≢◌, refl, ap, sym, ◌∙◌, Bool, true, ◌⊎◌, inl, inr, some, some-injective, List, [],
  ◌∷◌, ◌++◌, ok_or-eq-ok, ok_or, ok-injective, arith, ==_iff, ==_apart, if-cases, ok, >>=-then,
  map_err-eq-ok,
}
use mathlib.Core.Path.{subst}
use dao_contracts.Cosmwasm.{Addr, CosmosMsg, Expiration, BlockInfo, CwUtils}
use dao_contracts.Voting.Status.{
  Status, open_for_votes, passed, executed, closed, vetoed, veto_timelock,
}
use dao_contracts.Voting.Veto.{VetoConfig}
use dao_contracts.Single.Proposal.{SingleChoiceProposal, update_status}
use dao_contracts.Single.Proposal.Update.{update_status-current}
use dao_contracts.Single.Proposal.Reasons.{
  Undecided, HasPassed, IsTimelocked, IsRejected, Reason, current_status-Reason,
}
use dao_contracts.Single.State.{Config, State, Chain, std_or, std, no_such_proposal}
use dao_contracts.Single.Messages.{SubMsg, execute_proposal_hook}
use dao_contracts.Single.Contract.Finish.{
  finish, execute_veto, execute_close, can_execute, check_executable, execution_messages,
  execute_execute,
}
use dao_contracts.Single.Finished.{
  Finished, StatusVetoable, StatusExecutable, execute_veto-Finished, execute_close-Finished,
  execute_execute-Finished,
}

-- The proposal that was stored has a new status, and nothing else is changed.
pub record Ended (id : ℕ) (st : Status) (s s' : State) (before : SingleChoiceProposal)
    : Type 0 where
  pub known : s.proposals id ≡ some before
  pub stored : s'.proposals id ≡ some (record before { status = st })
  pub others : (j : ℕ) → id ≢ j → s'.proposals j ≡ s.proposals j
  pub rest : record s' { proposals = s.proposals } ≡ s

-- The messages of a proposal are what the first of the submessages has the DAO execute.
abbrev pub Sends : Config → List CosmosMsg → List SubMsg → Type 0
Sends config [] sent = Unit
Sends config (m ∷ msgs) sent =
    (first : SubMsg) × (rest : List SubMsg) × (sent ≡ first ∷ rest)
    × (first.to ≡ some config.dao)
    × (first.payload ≡ execute_proposal_hook (m ∷ msgs))

execution_messages-Sends :
    (cw : CwUtils) (block : BlockInfo) (chain : Chain) (id : ℕ) (msgs : List CosmosMsg)
    (config : Config) (hooks : List SubMsg)
    → Sends config msgs (execution_messages cw block chain id msgs config ++ hooks)
unfolding execution_messages
execution_messages-Sends cw block chain id [] config hooks = tt
execution_messages-Sends cw block chain id (m ∷ msgs) config hooks = (_, hooks, refl, refl, refl)

-- The end of each of the handlers does that.
Finished-Ended :
    {cw : CwUtils} {block : BlockInfo} {id : ℕ} {st : Status} {s s' : State}
    {Allowed : SingleChoiceProposal → Type 0}
    → (f : Finished cw block id st s s' Allowed) → Ended id st s s' f.before
unfolding finish
Finished-Ended {cw} {block} {id} {st} {s} {s'} f =
    let (same, now) = update_status-current cw f.before f.current block f.updated in
    subst (λ x. Ended id st s x f.before) (sym f.result)
      (record {
        known = f.known;
        stored =
            rw ((==_iff id id).1 refl)
              (ap (λ (q : SingleChoiceProposal). some (record q { status = st })) (sym same));
        others = λ j differ. rw (==_apart id j differ) refl;
        rest = refl;
      })

Finished-Reason :
    {cw : CwUtils} {block : BlockInfo} {id : ℕ} {st : Status} {s s' : State}
    {Allowed : SingleChoiceProposal → Type 0}
    → (f : Finished cw block id st s s' Allowed) → Reason cw block f.before (f.current).status
Finished-Reason {cw} {block} f =
    let (same, now) = update_status-current cw f.before f.current block f.updated in
    current_status-Reason cw block f.before (f.current).status now

-- The configurations and the rest of a proposal are as stored.
veto-updated :
    (cw : CwUtils) (block : BlockInfo) (before current : SingleChoiceProposal)
    → update_status cw before block ≡ ok current
    → current.veto ≡ before.veto
veto-updated cw block before current h =
    let (same, now) = update_status-current cw before current block h in
    ap (λ (q : SingleChoiceProposal). q.veto) (sym same)

module _ (cw : CwUtils) (block : BlockInfo) where
  -- Who may execute a passed proposal: anyone, or if only members may, who had power at its start
  abbrev pub MayExecute : Chain → Config → Addr → SingleChoiceProposal → Type 0
  MayExecute chain config sender p =
      config.only_members_execute ≡ true
      → (power : ℕ) × (chain.voting_power config.dao sender p.start_height ≡ ok power) × (0 < power)

  -- Who may execute a timelocked proposal: its vetoer, if that is configured
  abbrev pub MayExecuteEarly : Addr → SingleChoiceProposal → Type 0
  MayExecuteEarly sender p =
      (c : VetoConfig) × (p.veto ≡ some c) × (c.vetoer ≡ sender) × (c.early_execute ≡ true)

  abbrev pub Executable : Chain → Config → Addr → SingleChoiceProposal → Type 0
  Executable chain config sender p =
      (HasPassed cw block p × MayExecute chain config sender p)
      ⊎ ((e : Expiration) × IsTimelocked cw block p e × MayExecuteEarly sender p)

  -- What the vetoer may veto: a timelocked proposal, and an undecided one if that is configured
  abbrev pub VetoableNow : Addr → SingleChoiceProposal → Type 0
  VetoableNow sender p =
      (c : VetoConfig) × (p.veto ≡ some c)
      × (c.vetoer ≡ sender)
      × (((e : Expiration) × IsTimelocked cw block p e)
          ⊎ (Undecided cw block p × (c.veto_before_passed ≡ true)))

  can_execute-MayExecute :
      (chain : Chain) (config : Config) (sender : Addr) (p : SingleChoiceProposal)
      → can_execute cw block chain config sender p ≡ ok true
      → MayExecute chain config sender p
  unfolding can_execute
  can_execute-MayExecute chain config sender p h only =
      elim (if-cases config.only_members_execute _ _ h) [
        | inl (_, members) ↦
            >>=-then (std_or (chain.voting_power config.dao sender p.start_height)) _ members
              λ power e some_power. (power, map_err-eq-ok std _ e, ground arith)
        | inr (anyone, _) ↦ cc
      ]

  execute_execute-Sends :
      (chain : Chain) (sender : Addr) (id : ℕ) (s : State) (r : State × List SubMsg)
      (before : SingleChoiceProposal)
      → s.proposals id ≡ some before
      → execute_execute cw block chain sender id s ≡ ok r
      → Sends s.config before.msgs r.1
  unfolding execute_execute
  execute_execute-Sends chain sender id s r before known h =
      >>=-then (ok_or (s.proposals id) (no_such_proposal id)) _ h λ prop stored h1.
        >>=-then (can_execute cw block chain s.config sender prop) _ h1 λ can _ h2.
          >>=-then (std_or (update_status cw prop block)) _ h2 λ p up h3.
            >>=-then (check_executable cw block chain can sender p p.status) _ h3 λ _ _ e.
              let (same, _) = update_status-current cw prop p block (map_err-eq-ok std _ up) in
              let found : prop ≡ before =
                some-injective
                  (sym (ok_or-eq-ok (s.proposals id) (no_such_proposal id) stored) ∙ known) in
              let msgs : p.msgs ≡ before.msgs =
                ap (λ (q : SingleChoiceProposal). q.msgs) (sym same)
                ∙ ap (λ (q : SingleChoiceProposal). q.msgs) found in
              subst (λ (x : State × List SubMsg). Sends s.config before.msgs x.1) (ok-injective e)
                (subst
                  (λ l. Sends s.config l (
                    execution_messages cw block chain id p.msgs s.config
                    ++ (finish id p executed s).1))
                  msgs
                  (execution_messages-Sends cw block chain id p.msgs s.config
                    (finish id p executed s).1))

  StatusExecutable-Executable :
      (chain : Chain) (config : Config) (sender : Addr) (p : SingleChoiceProposal) (can : Bool)
      (st : Status)
      → Reason cw block p st
      → can_execute cw block chain config sender p ≡ ok can
      → StatusExecutable can sender p.veto st
      → Executable chain config sender p
  StatusExecutable-Executable chain config sender p can passed why may allowed =
      inl (why, can_execute-MayExecute chain config sender p (may ∙ ap ok allowed))
  StatusExecutable-Executable chain config sender p can (veto_timelock e) why may allowed =
      inr (e, why, allowed)
  StatusExecutable-Executable chain config sender p can _ why may allowed = absurd allowed

  StatusVetoable-now :
      (p : SingleChoiceProposal) (c : VetoConfig) (st : Status)
      → Reason cw block p st
      → StatusVetoable cw block c st
      → ((e : Expiration) × IsTimelocked cw block p e)
        ⊎ (Undecided cw block p × (c.veto_before_passed ≡ true))
  StatusVetoable-now p c open_for_votes why allowed = inr (why, allowed)
  StatusVetoable-now p c (veto_timelock e) why allowed = inl (e, why)
  StatusVetoable-now p c _ why allowed = absurd allowed

  module _ (sender : Addr) (id : ℕ) (s : State) (r : State × List SubMsg) where
    -- An execution that is accepted is of a proposal that has passed and whose timelock, if there
    -- is one, is over, by a sender who may execute; or of one whose timelock runs, by its vetoer,
    -- who may execute early. It has the DAO execute the messages of the proposal, stores the
    -- proposal as executed, and changes nothing else.
    pub execute_execute-Ended :
        (chain : Chain)
        → execute_execute cw block chain sender id s ≡ ok r
        → (before : SingleChoiceProposal) × Ended id executed s r.0 before
          × Sends s.config before.msgs r.1
          × Executable chain s.config sender before
    execute_execute-Ended chain h =
        let f = execute_execute-Finished cw block sender id s r chain h in
        let (can, (before, known, may), allowed) = f.allowed in
        let same : before ≡ f.before = some-injective (sym known ∙ f.known) in
        (
          f.before,
          Finished-Ended f,
          execute_execute-Sends chain sender id s r f.before f.known h,
          StatusExecutable-Executable chain s.config sender f.before can (f.current).status
              (Finished-Reason f)
              (subst (λ p. can_execute cw block chain s.config sender p ≡ ok can) same may)
              (subst (λ v. StatusExecutable can sender v (f.current).status)
                (veto-updated cw block f.before f.current f.updated) allowed),
        )

    -- A veto that is accepted is by the vetoer of the proposal, of a proposal whose timelock runs, or
    -- of one that is not decided if that is configured. It stores the proposal as vetoed, and
    -- changes nothing else.
    pub execute_veto-Ended :
        execute_veto cw block sender id s ≡ ok r
        → (before : SingleChoiceProposal) × Ended id vetoed s r.0 before × VetoableNow sender before
    execute_veto-Ended h =
        let f = execute_veto-Finished cw block sender id s r h in
        let (c, found, vetoer, allowed) = f.allowed in
        (
          f.before,
          Finished-Ended f,
          (
            c,
            sym (veto-updated cw block f.before f.current f.updated) ∙ found,
            vetoer,
            StatusVetoable-now f.before c (f.current).status (Finished-Reason f) allowed,
          ),
        )

    -- A closure that is accepted is of a proposal that is rejected: it is stored so, or it is open,
    -- the votes have not passed it, and they have rejected it or the voting is over. It stores the
    -- proposal as closed, and changes nothing else.
    pub execute_close-Ended :
        execute_close cw block sender id s ≡ ok r
        → (before : SingleChoiceProposal) × Ended id closed s r.0 before
          × IsRejected cw block before
    execute_close-Ended h =
        let f = execute_close-Finished cw block sender id s r h in
        (f.before, Finished-Ended f, subst (Reason cw block f.before) f.allowed (Finished-Reason f))
