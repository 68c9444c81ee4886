-- ===== src/Condorcet/Counted.antt =====
-- contracts/proposal/dao-proposal-condorcet/src/contract.rs: every tally counts the ballots of its
-- proposal.
pub mod Entries
pub mod Ballots
pub mod Messages
