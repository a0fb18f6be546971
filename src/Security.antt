-- ===== src/Security.antt =====
-- runtime/security.
pub mod EnvelopeState
pub mod Envelope
