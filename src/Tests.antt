-- ===== src/Tests.antt =====
-- The theorems on thresholds, tallies, reply ids, hooks and snapshots at concrete inputs.
use dao_contracts.Prelude.{
  ℕ, ◌+◌, ◌-◌, ◌≤◌, ◌*◌, ◌^◌, ◌<◌, ◌≡◌, ◌↔◌, refl, true, false, [], ◌∷◌, ◌++◌, ltb, ==_iff, ◌||◌,
  ◌==◌, length, arith, Outcome, some, ok, if◌then◌else◌,
}
use dao_contracts.Wormhole.{Snapshots, unwrap_or, load, update, pointwise}
use dao_contracts.Wormhole.Refines.{update-refines}
use dao_contracts.Wormhole.Returns.{Accepts, update_returns}
use dao_contracts.Cosmwasm.{add128, sub128, decimal_one}
use dao_contracts.Voting.Threshold.{
  PercentageThreshold, majority, percent, Threshold, threshold_quorum, IsValid, validate_iff,
}
use dao_contracts.Voting.Threshold
use dao_contracts.Voting.Votes.{
  Votes, Vote, same_vote, get, does_vote_count_pass, does_vote_count_fail, scaled_threshold,
  precision_factor, add_vote, remove_vote,
}
use dao_contracts.Voting.Votes.Exclusion.{passed_and_failed_iff}
use dao_contracts.Voting.Votes.Bounds.{scaled_threshold-fits}
use dao_contracts.Voting.Votes.Tally.{cast, add_vote_adds, remove_vote_removes}
use dao_contracts.Voting.Policy.{contains}
use dao_contracts.Reply.{
  tagged, mask_proposal_execution_proposal_id, mask_proposal_hook_index, mask_vote_hook_index,
  pre_propose_module_instantiation_id, failed_pre_propose_module_hook_id, failed_proposal_execution,
  failed_proposal_hook, failed_vote_hook, failed_pre_propose_module_hook,
  pre_propose_module_instantiation, tagged-mask,
}
use dao_contracts.Hooks.{
  IsUnique, add_hook, remove_hook, remove_hook_by_index, add_hook_registers,
  remove_hook_unregisters, remove_hook_by_index_splits,
}

-- Just above a third, of three votes, of which one is in favour.
passed_and_failed_iff_example :
    ((does_vote_count_pass 1 3 (percent 333333333333333334) ≡ true)
      × (does_vote_count_fail {E = ⊥} 2 3 (percent 333333333333333334) ≡ ok true))
    ↔ ((1 + 2 ≡ 3)
        × (1 * decimal_one < 3 * 333333333333333334)
        × (3 * 333333333333333334 < 1 * decimal_one + 10 ^ 9))
passed_and_failed_iff_example =
    passed_and_failed_iff 1 2 3 333333333333333334 (omega arith) (omega arith) (omega arith)

validate_iff_example :
    (Threshold.validate (threshold_quorum majority (percent 10)) ≡ ok tt)
    ↔ IsValid (threshold_quorum majority (percent 10))
validate_iff_example = validate_iff (threshold_quorum majority (percent 10))

tagged-mask_example :
    (tagged (mask_proposal_execution_proposal_id 5) ≡ ok (failed_proposal_execution 5))
    × (tagged (mask_proposal_hook_index 5) ≡ ok (failed_proposal_hook 5))
    × (tagged (mask_vote_hook_index 5) ≡ ok (failed_vote_hook 5))
    × (tagged pre_propose_module_instantiation_id ≡ ok pre_propose_module_instantiation)
    × (tagged failed_pre_propose_module_hook_id ≡ ok failed_pre_propose_module_hook)
tagged-mask_example = tagged-mask 5 (omega arith)

two_hooks-IsUnique : IsUnique (3 ∷ 4 ∷ [])
unfolding contains
two_hooks-IsUnique = (refl, (refl, tt))

hook_added : add_hook (some (3 ∷ 4 ∷ [])) 5 ≡ ok (some (3 ∷ 4 ∷ 5 ∷ []))
unfolding add_hook
hook_added = refl

hook_removed : remove_hook (some (3 ∷ 4 ∷ [])) 3 ≡ ok (some (4 ∷ []))
unfolding remove_hook
hook_removed = refl

add_hook_registers_example :
    (contains (3 ∷ 4 ∷ []) 5 ≡ false)
    × IsUnique (3 ∷ 4 ∷ 5 ∷ [])
    × (contains (3 ∷ 4 ∷ 5 ∷ []) 4 ≡ (contains (3 ∷ 4 ∷ []) 4 || (5 == 4)))
add_hook_registers_example =
    add_hook_registers (some (3 ∷ 4 ∷ [])) (some (3 ∷ 4 ∷ 5 ∷ [])) 5 4 two_hooks-IsUnique hook_added

remove_hook_unregisters_example :
    (contains (3 ∷ 4 ∷ []) 3 ≡ true)
    × IsUnique (4 ∷ [])
    × (contains (4 ∷ []) 4 ≡ (if 3 == 4 then false else contains (3 ∷ 4 ∷ []) 4))
remove_hook_unregisters_example =
    remove_hook_unregisters (some (3 ∷ 4 ∷ [])) (some (4 ∷ [])) 3 4 two_hooks-IsUnique hook_removed

remove_hook_by_index_splits_example :
    remove_hook_by_index (some ((3 ∷ []) ++ 4 ∷ 5 ∷ [])) (length {A = ℕ} (3 ∷ []))
    ≡ ok (4, some ((3 ∷ []) ++ 5 ∷ []))
remove_hook_by_index_splits_example = remove_hook_by_index_splits (3 ∷ []) (5 ∷ []) 4 (omega arith)

scaled_threshold-fits_example :
    (10 * precision_factor < 2 ^ 256) × (scaled_threshold 30 500000000000000000 < 2 ^ 256)
scaled_threshold-fits_example =
    scaled_threshold-fits 10 30 500000000000000000 (omega arith) (omega arith) (omega arith)

abbrev some_votes : Votes
some_votes = record { yes = 1; no = 2; abstain = 3 }

abbrev more_votes : Votes
more_votes = record { yes = 1; no = 7; abstain = 3 }

vote_added : add_vote {E = ⊥} Vote.no 5 some_votes ≡ ok more_votes
unfolding add_vote
vote_added = refl

vote_removed : remove_vote {E = ⊥} Vote.no 5 more_votes ≡ ok some_votes
unfolding remove_vote
vote_removed = refl

add_vote_adds_example :
    (get more_votes Vote.no ≡ get some_votes Vote.no + (if same_vote Vote.no Vote.no then 5 else 0))
    × (cast more_votes ≡ cast some_votes + 5)
add_vote_adds_example = add_vote_adds Vote.no Vote.no 5 some_votes more_votes vote_added

remove_vote_removes_example :
    (get more_votes Vote.no ≡ get some_votes Vote.no + (if same_vote Vote.no Vote.no then 5 else 0))
    × (cast more_votes ≡ cast some_votes + 5)
remove_vote_removes_example =
    remove_vote_removes Vote.no Vote.no 5 more_votes some_votes vote_removed

abbrev history : Snapshots ℕ
history = (3, 10) ∷ (8, 20) ∷ []

abbrev raised : Unit {0} × Snapshots ℕ × ℕ
raised = (tt, (3, 10) ∷ (5, 17) ∷ (8, 27) ∷ [], 17)

abbrev seven_more : ℕ → Outcome ⊥ ℕ
seven_more v = add128 v 7

seven_more-values :
    (s : Unit {0}) (v t : ℕ) (x : Unit {0} × ℕ)
    → pointwise seven_more s v t ≡ ok x
    → seven_more v ≡ ok x.1
seven_more-values s v t x h = ground arith

history-raised : update 0 ◌==◌ (pointwise seven_more) tt 5 history ≡ ok raised
unfolding update load dao_contracts.Wormhole.revise dao_contracts.Wormhole.after
    dao_contracts.Wormhole.save
history-raised = refl

update-refines_example :
    ((if ltb 9 5
        then ok (unwrap_or 0 (load history 9))
        else seven_more (unwrap_or 0 (load history 9)))
      ≡ ok (unwrap_or 0 (load raised.1 9)))
    × (seven_more (unwrap_or 0 (load history 5)) ≡ ok raised.2)
update-refines_example =
    update-refines 0 ◌==◌ seven_more (pointwise seven_more) seven_more-values
      (λ a b. (==_iff a b).0) tt 5 9 history raised ((omega arith, tt), (tt, tt)) history-raised

abbrev nine_less : ℕ → Outcome ⊥ ℕ
nine_less v = sub128 v 9

nine_less_accepted : (t' : ℕ) → 4 ≤ t' → Accepts nine_less (unwrap_or 0 (load history t'))
unfolding load
nine_less_accepted t' l = (unwrap_or 0 (load history t') - 9, ground arith)

update_returns_example :
    (r : Unit {0} × Snapshots ℕ × ℕ) × (update 0 ◌==◌ (pointwise nine_less) tt 4 history ≡ ok r)
update_returns_example =
    update_returns ◌==◌ nine_less 0 4 history ((omega arith, tt), (tt, tt)) nine_less_accepted
