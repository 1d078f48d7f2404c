-- ===== src/Sidechannel.antt =====
-- features/sidechannel/index.js and src/sidechannel/capabilities.js: who may join, send on and
-- relay over a side channel.
mod Tests
mod Example
pub mod Settings
pub mod Seen
pub mod Rate
pub mod Keys
pub mod Rules
pub mod Pow
pub mod Sign
pub mod Node
pub mod Welcome
pub mod Invite
pub mod Receive
pub mod Send
pub mod Channels
pub mod Capabilities
