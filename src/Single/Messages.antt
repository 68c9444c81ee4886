-- ===== src/Single/Messages.antt =====
-- The messages that the contract sends: packages/dao-hooks/src/proposal.rs and vote.rs. The
-- attributes of a response are left out.
use dao_contracts.Prelude.{ℕ, ◌+◌, String, Bool, Option, none, some, List, [], ◌∷◌, if◌then◌else◌}
use dao_contracts.Cosmwasm.{Addr, CosmosMsg}
use dao_contracts.Voting.Votes.{Vote}
use dao_contracts.Voting.Status.{Status, same_status}
use dao_contracts.Voting.Policy.{ProposalCreationPolicy, anyone, module_may}
use dao_contracts.Hooks.{Hooks, hooks_of}
use dao_contracts.Reply.{
  mask_proposal_hook_index, mask_vote_hook_index, pre_propose_module_instantiation_id,
  failed_pre_propose_module_hook_id,
}

pub record NewVote : Type 0 where
  pub proposal_id : ℕ
  pub voter : Addr
  pub vote : Vote
  pub power : ℕ
  pub individual_power : ℕ
  pub height : ℕ
  pub is_first_vote : Bool

pub data Payload : Type 0 where
  new_proposal : ℕ → Addr → Payload
  proposal_status_changed : ℕ → Status → Status → Payload
  new_vote : NewVote → Payload
  proposal_completed_hook : ℕ → Status → Payload
  execute_proposal_hook : List CosmosMsg → Payload
  instantiate_module : String → Payload

pub data ReplyOn : Type 0 where
  never : ReplyOn
  error success : ℕ → ReplyOn

pub record SubMsg : Type 0 where
  pub to : Option Addr
  pub payload : Payload
  pub reply_on : ReplyOn

-- `prepare_hooks` with the counter of the closures: one message to each hook, whose reply id names
-- the hook's place.
unfoldable pub prepare_hooks : (ℕ → ℕ) → Payload → ℕ → List Addr → List SubMsg
prepare_hooks mask payload index [] = []
prepare_hooks mask payload index (a ∷ hooks) =
    (record { to = some a; payload = payload; reply_on = error (mask index) })
    ∷ prepare_hooks mask payload (index + 1) hooks

unfoldable pub new_proposal_hooks : Hooks → ℕ → Addr → List SubMsg
unfolding prepare_hooks
new_proposal_hooks hooks id proposer =
    prepare_hooks mask_proposal_hook_index (new_proposal id proposer) 0 (hooks_of hooks)

unfoldable pub proposal_status_changed_hooks : Hooks → ℕ → Status → Status → List SubMsg
unfolding prepare_hooks same_status
proposal_status_changed_hooks hooks id old_status new_status =
    if same_status old_status new_status
    then []
    else prepare_hooks mask_proposal_hook_index (proposal_status_changed id old_status new_status) 0
        (hooks_of hooks)

unfoldable pub new_vote_hooks : Hooks → NewVote → List SubMsg
unfolding prepare_hooks
new_vote_hooks hooks v = prepare_hooks mask_vote_hook_index (new_vote v) 0 (hooks_of hooks)

unfoldable pub proposal_completed_hooks : ProposalCreationPolicy → ℕ → Status → List SubMsg
proposal_completed_hooks anyone id new_status = []
proposal_completed_hooks (module_may addr) id new_status =
    (record {
      to = some addr;
      payload = proposal_completed_hook id new_status;
      reply_on = error failed_pre_propose_module_hook_id;
    })
    ∷ []

pub data PreProposeInfo : Type 0 where
  anyone_may_propose : PreProposeInfo
  module_may_propose : String → PreProposeInfo

-- `into_initial_policy_and_messages`: until the module is there, anyone may propose.
unfoldable pub into_initial_policy_and_messages :
    PreProposeInfo → ProposalCreationPolicy × List SubMsg
into_initial_policy_and_messages anyone_may_propose = (anyone, [])
into_initial_policy_and_messages (module_may_propose info) = (
  anyone,
  (record {
    to = none;
    payload = instantiate_module info;
    reply_on = success pre_propose_module_instantiation_id;
  })
      ∷ [],
)
