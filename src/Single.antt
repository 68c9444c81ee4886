-- ===== src/Single.antt =====
-- contracts/proposal/dao-proposal-single: the proposal module for yes/no votes.
pub mod Proposal
pub mod State
pub mod Ballots
pub mod Messages
pub mod Delegates
pub mod Contract
pub mod Finished
pub mod Ended
pub mod Final
pub mod Privileged
pub mod Tallied
pub mod Reachable
mod Samples
mod Tests
mod Endings
