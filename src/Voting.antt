-- ===== src/Voting.antt =====
-- packages/dao-voting: thresholds, tallies, the comparison of votes with a threshold, proposal
-- statuses, the veto, and who may create proposals.
pub mod Threshold
pub mod Votes
pub mod Status
pub mod Veto
pub mod Policy
