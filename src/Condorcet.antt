-- ===== src/Condorcet.antt =====
-- contracts/proposal/dao-proposal-condorcet: votes that rank the choices of a proposal.
pub mod Cell
pub mod Matrix
pub mod Vote
pub mod Tally
pub mod Proposal
pub mod Contract
pub mod Counted
pub mod Reachable
mod Tests
