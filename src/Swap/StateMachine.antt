-- ===== src/Swap/StateMachine.antt =====
-- src/swap/stateMachine.js
pub mod Trade
pub mod Agreement
pub mod Settlement
pub mod Closing
pub mod Apply
pub mod Steps
pub mod Facts
pub mod Spec
pub mod Graph
pub mod Evidence
pub mod Trace
pub mod Authorship
pub mod Replay
pub mod Agreed
pub mod Invoice
pub mod Deadlines
pub mod Example
mod Tests
