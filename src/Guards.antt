-- ===== src/Guards.antt =====
-- src/prompt: the guards before the tools of a prompt spend anything.
mod Tests
pub mod EscrowLamports
