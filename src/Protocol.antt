-- ===== src/Protocol.antt =====
-- src/protocol and src/util: the deterministic encoding of an envelope, its hash and its signature.
pub mod Stringify
pub mod SignedMessage
