-- ===== src/Condorcet/Counted/Messages.antt =====
-- contracts/proposal/dao-proposal-condorcet/src/contract.rs: every message keeps the tallies right.
use dao_contracts.Prelude.{
  ℕ, ◌%◌, ◌≤◌, ◌<◌, ◌≡◌, ◌≢◌, sym, ap, inl, inr, not, none, some, List, [], ◌∷◌, ◌++◌, length,
  arith, false, not-eq-true, ◌==◌, ok, map_err, >>=-then, guard-eq-ok, map_err-eq-ok, ok_or-eq-ok,
  ok-injective,
}
use mathlib.Core.Path.{subst}
use dao_contracts.Cosmwasm.{Addr, not_found, Expiration, BlockInfo, CwUtils}
use dao_contracts.Reply.{TaggedReplyId, failed_proposal_execution, tagged}
use dao_contracts.Condorcet.Vote.{Vote}
use dao_contracts.Condorcet.Vote
use dao_contracts.Condorcet.Vote.Ballots.{IsRanking, new-IsRanking}
use dao_contracts.Condorcet.Matrix.{add32, u32_mod}
use dao_contracts.Condorcet.Matrix.Margins.{Represents}
use dao_contracts.Condorcet.Tally.{Tally, find_winner, add_preferences, add_vote, expired}
use dao_contracts.Condorcet.Tally
use dao_contracts.Condorcet.Tally.Refines.{add_vote-Represents, Represents-ext}
use dao_contracts.Condorcet.Proposal.{
  ContractError, invalid_vote, tag, zero_voting_power, unexecutable, unclosable, not_dao, voted,
  zero_choices, Config, into_checked, Choice, Status, open_for_votes, rejected, passed, executed,
  closed, execution_failed, Proposal, SubMsg, update_status, set_closed, set_execution_failed,
  set_executed,
}
use dao_contracts.Condorcet.Proposal
use dao_contracts.Condorcet.Contract.{
  Chain, find, put, last_key, load, Ballot, State, has_voted, save_ballot, next_proposal_id,
  ExecuteMsg, propose, vote_for, execute_proposal, close, set_config, is_empty, execute_propose,
  execute_vote, execute_passed, execute_execute, close_rejected, execute_close, execute_set_config,
  execute, reply_tagged, reply,
}
use dao_contracts.Condorcet.Counted.Entries.{
  last_key-put, last_key-put-le, le-last_key-put, find-le-last_key, found-put,
}
use dao_contracts.Condorcet.Counted.Ballots.{
  power_of, counted, one_more, other_vote, known-save_ballot, start_height-add_vote, power_at,
  Counts, IsCounted, restored, new-Counts,
}

next_id : (last id : ℕ) → add32 {E = ContractError} last 1 ≡ ok id → last < id
next_id last id h = ground arith

module _ (chain : Chain) where
  module _ (cw : CwUtils) (block : BlockInfo) (sender : Addr) (s : State)
      (c : IsCounted chain s) where
    abbrev ballot : ℕ → Vote → Ballot
    ballot id vote = record { proposal_id = id; voter = sender; vote = vote }

    -- A new proposal, which has no ballots
    proposed-IsCounted :
        (candidates total id : ℕ) (end : Expiration) (tally : Tally) (p : Proposal)
        → add32 {E = ContractError} (last_key s.proposals) 1 ≡ ok id
        → Tally.new {E = ContractError} candidates total block.height end ≡ ok tally
        → IsCounted chain
            (record s { tallies = put id tally s.tallies; proposals = put id p s.proposals })
    proposed-IsCounted candidates total id end tally p next made = record {
      tallies = λ j t found. elim (found-put id tally s.tallies j t found) [
        | inl (same, is) ↦
            subst (λ i. Counts chain i t s.votes) same
              (subst (λ k. Counts chain id k s.votes) is
                (new-Counts chain id candidates total block.height end tally s.votes
                  (last_key s.proposals) made c.known (next_id (last_key s.proposals) id next)))
        | inr (_, before) ↦ c.tallies j t before
      ];
      keys =
          last_key-put-le id tally s.tallies (last_key (put id p s.proposals))
            (le-last_key-put id p s.proposals)
            (omega (arith, c.keys, last_key-put id p s.proposals));
      known = (restored chain s id p c).known;
    }

    propose-IsCounted :
        (choices : List Choice) (s' : State)
        → execute_propose cw chain block sender choices s ≡ ok s'
        → IsCounted chain s'
    unfolding execute_propose next_proposal_id
    propose-IsCounted choices s' h =
        >>=-then (map_err ContractError.std (chain.voting_power sender none)) _ h λ power _ h1.
          let (_, h2) = guard-eq-ok (not (power == 0)) _ _ h1 in
          >>=-then (add32 (last_key s.proposals) 1) _ h2 λ id next h3.
            >>=-then (map_err ContractError.std (chain.total_power none)) _ h3 λ total _ h4.
              let (_, h5) = guard-eq-ok (not (is_empty choices)) _ _ h4 in
              >>=-then (map_err ContractError.std (cw.after s.config.voting_period block)) _ h5
                λ end _ h6.
                  >>=-then (Tally.new (length (choices ++ [] ∷ [])) total block.height end) _ h6
                    λ tally made h7.
                      >>=-then
                        (map_err ContractError.std
                          (Proposal.new cw block s.config sender id (choices ++ [] ∷ []) total))
                        _ h7
                        λ first _ h8. >>=-then (update_status cw block tally first) _ h8 λ p _ h9.
                          subst (IsCounted chain) (ok-injective h9) (
                            proposed-IsCounted (length (choices ++ [] ∷ [])) total id end tally p
                              next made)

    -- The ballot that is stored is the one that is counted.
    voted-Counts :
        (id : ℕ) (t t' : Tally) (power : ℕ) (vote : Vote)
        → has_voted id sender s.votes ≡ false
        → Counts chain id t s.votes
        → chain.voting_power sender (some t.start_height) ≡ ok power
        → IsRanking t.m.n vote
        → add_vote {E = ContractError} vote power t ≡ ok t'
        → Counts chain id t' (save_ballot (ballot id vote) s.votes)
    voted-Counts id t t' power vote first (r, now) reported ranking h =
        let height = start_height-add_vote vote power t t' h in
        let (n, r', left, now') =
          add_vote-Represents ContractError vote power t t'
            (counted (power_at chain t.start_height) id s.votes) r ranking.known h in
        (
          subst
              (λ k.
                Represents ContractError t'.m
                  (counted (power_at chain k) id (save_ballot (ballot id vote) s.votes)))
              (sym height)
              (Represents-ext ContractError t'.m _ _
                (λ a b.
                  one_more (power_at chain t.start_height) (ballot id vote) power s.votes a b first
                    (ap power_of reported))
                r'),
          now',
        )

    -- The other proposals do not count it.
    others-Counts :
        (id j : ℕ) (t : Tally) (vote : Vote)
        → id ≢ j
        → Counts chain j t s.votes
        → Counts chain j t (save_ballot (ballot id vote) s.votes)
    others-Counts id j t vote differ (r, now) = (
      Represents-ext ContractError t.m _ _
          (λ a b. other_vote (power_at chain t.start_height) j (ballot id vote) s.votes a b differ)
          r,
      now,
    )

    vote-IsCounted :
        (id : ℕ) (vote : List ℕ) (s' : State)
        → execute_vote cw chain block sender id vote s ≡ ok s'
        → IsCounted chain s'
    unfolding execute_vote
    vote-IsCounted id vote s' h = >>=-then (load id s.tallies) _ h λ t stored h1.
        let is_stored = ok_or-eq-ok (find id s.tallies) (ContractError.std not_found) stored in
        let within : id ≤ last_key s.proposals =
          omega (arith, find-le-last_key s.tallies id t is_stored, c.keys) in
        >>=-then (map_err ContractError.std (chain.voting_power sender (some t.start_height))) _ h1
          λ power reported h2.
            let (_, h3) = guard-eq-ok (not (power == 0)) _ _ h2 in
            let (first, h4) = guard-eq-ok (not (has_voted id sender s.votes)) _ _ h3 in
            let (_, h5) = guard-eq-ok (not (expired cw t block)) _ _ h4 in
            >>=-then (map_err invalid_vote (Vote.new vote t.m.n)) _ h5 λ checked valid h6.
              let (_, ranking) =
                new-IsRanking vote t.m.n checked
                  (map_err-eq-ok invalid_vote (Vote.new vote t.m.n) valid) in
              >>=-then (add_vote checked power t) _ h6 λ t' e h7.
                let votes = save_ballot (ballot id checked) s.votes in
                subst (IsCounted chain) (ok-injective h7) (record {
                  tallies = λ j k found. elim (found-put id t' s.tallies j k found) [
                    | inl (same, is) ↦
                        subst (λ i. Counts chain i k votes) same
                          (subst (λ i. Counts chain id i votes) is
                            (voted-Counts id t t' power checked
                              (not-eq-true (has_voted id sender s.votes) first)
                              (c.tallies id t is_stored)
                              (map_err-eq-ok ContractError.std
                                (chain.voting_power sender (some t.start_height)) reported)
                              ranking e))
                    | inr (differ, before) ↦
                        others-Counts id j k checked differ (c.tallies j k before)
                  ];
                  keys = last_key-put-le id t' s.tallies (last_key s.proposals) within c.keys;
                  known =
                      known-save_ballot (last_key s.proposals) (ballot id checked) s.votes within
                        c.known;
                })

    execute_passed-IsCounted :
        (status : Status) (id : ℕ) (p : Proposal) (r : State × List SubMsg)
        → execute_passed cw chain block sender status id p s ≡ ok r
        → IsCounted chain r.0
    unfolding execute_passed
    execute_passed-IsCounted (passed winner) id p r h =
        >>=-then (set_executed s.dao winner p) _ h λ (p', msg) _ h1.
          subst (λ (x : State × List SubMsg). IsCounted chain x.0) (ok-injective h1)
            (restored chain s id p' c)
    execute_passed-IsCounted open_for_votes id p r h = cc
    execute_passed-IsCounted rejected id p r h = cc
    execute_passed-IsCounted executed id p r h = cc
    execute_passed-IsCounted closed id p r h = cc
    execute_passed-IsCounted execution_failed id p r h = cc

    close_rejected-IsCounted :
        (status : Status) (id : ℕ) (p : Proposal) (s' : State)
        → close_rejected cw chain block sender status id p s ≡ ok s'
        → IsCounted chain s'
    unfolding close_rejected
    close_rejected-IsCounted rejected id p s' h =
        subst (IsCounted chain) (ok-injective h) (restored chain s id (set_closed p) c)
    close_rejected-IsCounted open_for_votes id p s' h = cc
    close_rejected-IsCounted (passed winner) id p s' h = cc
    close_rejected-IsCounted executed id p s' h = cc
    close_rejected-IsCounted closed id p s' h = cc
    close_rejected-IsCounted execution_failed id p s' h = cc

    -- Every message keeps the tallies right.
    pub execute-IsCounted :
        (m : ExecuteMsg) (r : State × List SubMsg)
        → execute cw chain block sender m s ≡ ok r
        → IsCounted chain r.0
    unfolding execute execute_execute execute_close execute_set_config
    execute-IsCounted (propose choices) r h =
        >>=-then (execute_propose cw chain block sender choices s) _ h λ s' e h1.
          subst (λ (x : State × List SubMsg). IsCounted chain x.0) (ok-injective h1)
            (propose-IsCounted choices s' e)
    execute-IsCounted (vote_for id vote) r h =
        >>=-then (execute_vote cw chain block sender id vote s) _ h λ s' e h1.
          subst (λ (x : State × List SubMsg). IsCounted chain x.0) (ok-injective h1)
            (vote-IsCounted id vote s' e)
    execute-IsCounted (execute_proposal id) r h = >>=-then (load id s.tallies) _ h λ t _ h1.
        >>=-then (map_err ContractError.std (chain.voting_power sender (some t.start_height))) _ h1
          λ power _ h2.
            let (_, h3) = guard-eq-ok (not (power == 0)) _ _ h2 in
            >>=-then (load id s.proposals) _ h3 λ proposal _ h4.
              >>=-then (update_status cw block t proposal) _ h4
                λ p _ h5. execute_passed-IsCounted p.last_status id p r h5
    execute-IsCounted (close id) r h =
        >>=-then (execute_close cw chain block sender id s) _ h λ s' e h1.
          subst (λ (x : State × List SubMsg). IsCounted chain x.0) (ok-injective h1)
            (>>=-then (load id s.tallies) _ e λ t _ h2.
              >>=-then (load id s.proposals) _ h2 λ proposal _ h3.
                >>=-then (update_status cw block t proposal) _ h3
                  λ p _ h4. close_rejected-IsCounted p.last_status id p s' h4)
    execute-IsCounted (set_config config) r h =
        >>=-then (execute_set_config cw chain block sender config s) _ h λ s' e h1.
          subst (λ (x : State × List SubMsg). IsCounted chain x.0) (ok-injective h1)
            (let (_, h2) = guard-eq-ok (sender == s.dao) _ _ e in
              >>=-then (into_checked config) _ h2 λ checked _ h3.
                subst (IsCounted chain) (ok-injective h3)
                  (record { tallies = c.tallies; keys = c.keys; known = c.known }))

  reply_tagged-IsCounted :
      (t : TaggedReplyId) (s s' : State)
      → IsCounted chain s
      → reply_tagged t s ≡ ok s'
      → IsCounted chain s'
  unfolding reply_tagged
  reply_tagged-IsCounted (failed_proposal_execution id) s s' c h =
      >>=-then (load (id % u32_mod) s.proposals) _ h λ p _ h1.
        subst (IsCounted chain) (ok-injective h1)
          (restored chain s (id % u32_mod) (set_execution_failed p) c)
  reply_tagged-IsCounted (TaggedReplyId.failed_proposal_hook i) s s' c h = cc
  reply_tagged-IsCounted (TaggedReplyId.failed_vote_hook i) s s' c h = cc
  reply_tagged-IsCounted TaggedReplyId.failed_pre_propose_module_hook s s' c h = cc
  reply_tagged-IsCounted TaggedReplyId.pre_propose_module_instantiation s s' c h = cc

  pub reply-IsCounted :
      (id : ℕ) (s s' : State) → IsCounted chain s → reply id s ≡ ok s' → IsCounted chain s'
  unfolding reply
  reply-IsCounted id s s' c h =
      >>=-then (map_err tag (tagged id)) _ h λ t _ h1. reply_tagged-IsCounted t s s' c h1
