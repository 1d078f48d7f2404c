-- ===== src/Swap/Schema.antt =====
-- src/swap/schema.js
pub mod Fields
pub mod Discovery
pub mod Trading
pub mod Envelope
pub mod Total
pub mod TermsBody
