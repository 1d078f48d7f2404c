-- ===== src/Rfq.antt =====
-- src/rfq: what a peer makes of the offers that others announce.
mod Tests
pub mod AppHash
pub mod OfferMatch
