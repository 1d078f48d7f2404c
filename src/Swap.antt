-- ===== src/Swap.antt =====
-- src/swap: the swap protocol's envelopes, its pairs, and the life of a trade.
pub mod Constants
mod Tests
pub mod Fees
pub mod Pairs
pub mod RefundPolicy
pub mod Schema
pub mod StateMachine
pub mod Terms
pub mod TimelockPolicy
pub mod Verify
