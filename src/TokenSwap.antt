-- ===== src/TokenSwap.antt =====
-- contracts/external/cw-token-swap: an escrow in which two parties swap tokens.
pub mod Contract
pub mod Step
pub mod Covered
mod Tests
