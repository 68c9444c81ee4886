-- ===== src/Reply.antt =====
-- packages/dao-voting/src/reply.rs: the kind of a reply and its payload in one 64-bit id. Three bits
-- hold the kind.
use dao_contracts.Prelude.{
  ℕ, ◌+◌, ◌*◌, ◌/◌, ◌%◌, ◌^◌, ◌<◌, ◌≡◌, refl, arith, ◌==◌, if◌then◌else◌, Outcome, ok, err,
}
use dao_contracts.Cosmwasm.{u64_mod}

pub data TaggedReplyId : Type 0 where
  failed_proposal_execution failed_proposal_hook failed_vote_hook : ℕ → TaggedReplyId
  failed_pre_propose_module_hook pre_propose_module_instantiation : TaggedReplyId

pub data TagError : Type 0 where
  unknown_reply_id : ℕ → TagError

-- `TaggedReplyId::new`: `id & 0b111` is `id % 8`, and `id >> 3` is `id / 8`.
unfoldable pub tagged : ℕ → Outcome TagError TaggedReplyId
tagged id =
    let reply_type = id % 8 in
    let id_after_shift = id / 8 in
    if reply_type == 0
    then ok (failed_proposal_execution id_after_shift)
    else if reply_type == 1
    then ok (failed_proposal_hook id_after_shift)
    else if reply_type == 2
    then ok (failed_vote_hook id_after_shift)
    else if reply_type == 3
    then ok pre_propose_module_instantiation
    else if reply_type == 4
    then ok failed_pre_propose_module_hook
    else err (unknown_reply_id id)

-- `mask | (n << 3)` on `u64`: the shift drops what leaves 64 bits, and its low bits are zero.
abbrev with_mask : ℕ → ℕ → ℕ
with_mask mask n = mask + n * 8 % u64_mod

unfoldable pub mask_proposal_execution_proposal_id : ℕ → ℕ
mask_proposal_execution_proposal_id proposal_id = with_mask 0 proposal_id

unfoldable pub mask_proposal_hook_index : ℕ → ℕ
mask_proposal_hook_index index = with_mask 1 index

unfoldable pub mask_vote_hook_index : ℕ → ℕ
mask_vote_hook_index index = with_mask 2 index

abbrev pub pre_propose_module_instantiation_id : ℕ
pre_propose_module_instantiation_id = 3

abbrev pub failed_pre_propose_module_hook_id : ℕ
failed_pre_propose_module_hook_id = 4

-- Every id that the module makes is read back as what it was made for, as long as the payload fits
-- the 61 bits that are left.
pub tagged-mask :
    (n : ℕ)
    → n < 2 ^ 61
    → (tagged (mask_proposal_execution_proposal_id n) ≡ ok (failed_proposal_execution n))
      × (tagged (mask_proposal_hook_index n) ≡ ok (failed_proposal_hook n))
      × (tagged (mask_vote_hook_index n) ≡ ok (failed_vote_hook n))
      × (tagged pre_propose_module_instantiation_id ≡ ok pre_propose_module_instantiation)
      × (tagged failed_pre_propose_module_hook_id ≡ ok failed_pre_propose_module_hook)
unfolding tagged mask_proposal_execution_proposal_id mask_proposal_hook_index mask_vote_hook_index
tagged-mask n h = (ground arith, ground arith, ground arith, refl, refl)
