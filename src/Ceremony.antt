-- ===== src/Ceremony.antt =====
-- The voting ceremony: aigenora/ceremony.
pub mod State
