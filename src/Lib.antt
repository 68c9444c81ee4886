-- ===== src/Lib.antt =====
-- dao-contracts: the contracts of a DAO on CosmWasm. Modelled are the proposal modules for
-- yes/no votes and for ranked choices, a vesting contract, an escrow, and the packages that they
-- are built on.
--
-- A DAO is a core contract with one voting module, which says who has how much power, and
-- proposal modules, which may send messages through the core. A proposal module keeps proposals
-- and ballots. In the one for yes/no votes, a member votes with a power that the voting module
-- reports, and a delegate with the power of those who delegate to it; the vote of a delegator
-- takes back what its delegates have voted with. A proposal passes or fails by its threshold,
-- may then wait for a veto, and is executed or closed. Other contracts are told of all this by
-- hooks, and a hook that fails is removed by a reply.
--
-- Prelude: Boolean tests, lists, and Outcome, the result of a handler: a value, an error, or a
-- panic, which aborts the transaction. Cosmwasm: the types of cosmwasm_std and cw_utils.
-- Arithmetic on Uint128 panics out of range; Decimal is its number of atomics. The functions of
-- cw_utils on expirations are a parameter, of which only one law is used: what has expired stays
-- expired. An index of usize has 32 bits.
--
-- Voting: packages/dao-voting. Threshold (threshold.rs), Votes (voting.rs: tallies and the
-- comparison of votes with a percentage), Status (status.rs), Veto (veto.rs and the voting
-- periods of voting.rs), Policy (pre_propose.rs). Reply: reply.rs of the same package. Hooks:
-- packages/cw-hooks/src/lib.rs.
--
-- Single: contracts/proposal/dao-proposal-single. Proposal is proposal.rs, where the match on a
-- status or a threshold is a function of its own (status_from, tally_passes, tally_fails). State
-- is the storage of state.rs as a record: an item is a field, the map of proposals a function,
-- the map of ballots an association list keyed by proposal and voter. Chain holds what the
-- module asks other contracts. Messages are the submessages of packages/dao-hooks; Delegates is
-- the power with delegation of packages/dao-voting/src/voting.rs and delegation.rs. Contract is
-- contract.rs: execute and reply dispatch to Contract/Propose, Vote, Finish and Admin, which
-- have one function per handler. A handler returns the new state and the submessages; an error
-- or a panic leaves the state as it was, as the chain does. Finished, Ended, Final, Privileged,
-- Tallied and Reachable hold the theorems on the contract, Proposal/Reasons and Proposal/Decided
-- what a status and a decision mean, Tests, Endings and Samples the concrete inputs.
--
-- Wormhole: packages/cw-wormhole/src/lib.rs, a map whose values can be changed at any time with
-- effect on all later times. The snapshots of one key are a list in the order of their times, as
-- the range of the storage map visits them; the closure of update is a function with a state.
-- StakeTracker: packages/cw-stake-tracker/src/lib.rs, which keeps three of these maps.
--
-- Denom: packages/cw-denom/src/lib.rs. A text is the list of its code points, and its length
-- that of its UTF-8 bytes.
--
-- Vesting: contracts/external/cw-vesting, a payment that vests over time and that its receiver
-- may stake meanwhile. Payment is vesting.rs, with a function for each match on the status;
-- Contract is contract.rs, with a function for each handler; its staking keeps a StakeTracker,
-- and its denomination is a CheckedDenom. The curves of wynd_utils are the parameter WyndUtils,
-- of which three laws are used: a constant curve has its value everywhere and as its range, and
-- a curve that passes the check of the source is at most the end of its range. The chain,
-- cw_utils and cw_ownable are the parameter Chain, of which one law is used: assert_owner
-- accepts the owner alone. Solvent states what the contract holds of the payment's tokens, a
-- number that no field of the state has; its children prove it for every operation.
-- Solvent/Reachable has steps for the messages, each with a Chain of its own, and for slashes,
-- which the contract is not told of.
--
-- Condorcet: contracts/proposal/dao-proposal-condorcet, the proposal module for ranked choices.
-- Cell, Matrix (m.rs), Vote, Tally, Proposal (with config.rs and error.rs) and Contract (with
-- state.rs and msg.rs) follow its files. The matrix stores the cells above the diagonal in a
-- list; an index out of the list and an overflow of u32 panic. The maps of the storage are
-- association lists. What a matrix stands for is a function, the power that prefers one
-- candidate to another, which Matrix/Margins and Tally/Refines relate to the cells.
--
-- TokenSwap: contracts/external/cw-token-swap, an escrow in which two parties swap tokens.
-- Contract is contract.rs with state.rs; which of the two parties sends a message is a Side. Its
-- Chain has one law: must_pay accepts funds of one denomination only and returns their amount.
--
-- Addresses are numbers, since they are only compared. There is no fuel: every loop is over a
-- list or counts a number down. Blocks are their height and time.
--
-- Not modelled: the queries of the contracts, migrations, event attributes and the JSON encoding
-- of messages, whose size is a parameter where the source limits it. The answers of other
-- contracts are parameters without any law but those named above.
pub mod Prelude
pub mod Cosmwasm
pub mod Voting
pub mod Reply
pub mod Hooks
pub mod Denom
pub mod Wormhole
pub mod StakeTracker
pub mod Vesting
pub mod TokenSwap
pub mod Single
pub mod Condorcet
pub mod Tests
