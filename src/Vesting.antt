-- ===== src/Vesting.antt =====
-- contracts/external/cw-vesting: a payment that vests over time and may be staked meanwhile.
pub mod State
pub mod Payment
pub mod Contract
pub mod Solvent
pub mod Limits
pub mod Cancellation
pub mod Access
mod Tests
