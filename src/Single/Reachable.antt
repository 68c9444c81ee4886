-- ===== src/Single/Reachable.antt =====
-- The states that a proposal module passes through: instantiated once, then changed by accepted
-- messages and replies, at any blocks and whatever the other contracts answer.
use dao_contracts.Prelude.{ℕ, ◌≡◌, refl, Option, List, ok, map_err, >>=-eq-ok, ok-injective}
use mathlib.Core.Path.{subst}
use dao_contracts.Cosmwasm.{Addr, BlockInfo, CwUtils}
use dao_contracts.Voting.Threshold
use dao_contracts.Voting.Veto.{validate_voting_period}
use dao_contracts.Voting.Votes.{Vote, zero_votes, get}
use dao_contracts.Single.State.{State, Chain, threshold_error, voting_error}
use dao_contracts.Single.Messages.{SubMsg, PreProposeInfo}
use dao_contracts.Single.Contract.{ExecuteMsg, execute, reply}
use dao_contracts.Single.Contract.Admin.{Settings, validate_veto, validate_module, instantiate}
use dao_contracts.Single.Ballots.{tally}
use dao_contracts.Single.Tallied.{IsTallied, power_of, individual_of, votes_of, individual_votes_of}
use dao_contracts.Single.Tallied.Execute.{execute-IsTallied, reply-IsTallied}

no_votes : (o : Vote) → get zero_votes o ≡ 0
unfolding get
no_votes Vote.yes = refl
no_votes Vote.no = refl
no_votes Vote.abstain = refl

instantiate-IsTallied :
    (chain : Chain) (sender : Addr) (m : Settings) (i : PreProposeInfo) (delegation : Option Addr)
    (r : State × List SubMsg)
    → instantiate chain sender m i delegation ≡ ok r
    → IsTallied r.0
unfolding instantiate tally
instantiate-IsTallied chain sender m i delegation r h =
    let (_, _, h1) = >>=-eq-ok (map_err threshold_error (Threshold.validate m.threshold)) _ h in
    let (periods, _, h2) =
      >>=-eq-ok
        (map_err voting_error (validate_voting_period m.min_voting_period m.max_voting_period)) _
        h1 in
    let (_, _, h3) = >>=-eq-ok (validate_veto chain m.veto periods.1) _ h2 in
    let (d, _, e) = >>=-eq-ok (validate_module chain delegation) _ h3 in
    subst (λ (x : State × List SubMsg). IsTallied x.0) (ok-injective e)
      (record {
        votes = λ j o. no_votes o;
        individual_votes = λ j o. no_votes o;
        fresh = λ j p. refl;
      })

pub data Reachable (cw : CwUtils) : State → Type 0 where
  instantiated :
      {t : State} (chain : Chain) (sender : Addr) (m : Settings) (i : PreProposeInfo)
      (delegation : Option Addr) (msgs : List SubMsg)
      → instantiate chain sender m i delegation ≡ ok (t, msgs)
      → Reachable cw t
  executed :
      {s t : State} (chain : Chain) (block : BlockInfo) (sender : Addr) (msg : ExecuteMsg)
      (msgs : List SubMsg)
      → Reachable cw s
      → execute cw chain block sender msg s ≡ ok (t, msgs)
      → Reachable cw t
  replied :
      {s t : State} (chain : Chain) (block : BlockInfo) (id : ℕ) (instantiated : Addr)
      (msgs : List SubMsg)
      → Reachable cw s
      → reply cw chain block id instantiated s ≡ ok (t, msgs)
      → Reachable cw t

pub Reachable-IsTallied : {cw : CwUtils} {s : State} → Reachable cw s → IsTallied s
Reachable-IsTallied (instantiated chain sender m i delegation msgs h) =
    instantiate-IsTallied chain sender m i delegation _ h
Reachable-IsTallied {cw} (executed chain block sender msg msgs before h) =
    execute-IsTallied cw chain block sender msg _ _ (Reachable-IsTallied before) h
Reachable-IsTallied {cw} (replied chain block id a msgs before h) =
    reply-IsTallied cw chain block id a _ _ (Reachable-IsTallied before) h

-- In every state that a module can reach, and for every proposal and option, the tally is the sum of
-- the power of the ballots for that option, and the individual tally the sum of their individual
-- power: votes are neither lost nor counted twice, through revotes and delegates' overrides.
pub tallies_of_Reachable :
    {cw : CwUtils} (s : State) (id : ℕ) (o : Vote)
    → Reachable cw s
    → (get (votes_of (s.proposals id)) o ≡ tally power_of id o s.ballots)
      × (get (individual_votes_of (s.proposals id)) o ≡ tally individual_of id o s.ballots)
tallies_of_Reachable s id o h =
    ((Reachable-IsTallied h).votes id o, (Reachable-IsTallied h).individual_votes id o)
