-- ===== src/Ln.antt =====
-- src/ln: Lightning invoices.
pub mod Bolt11
