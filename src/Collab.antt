-- ===== src/Collab.antt =====
-- The collaboration host: aigenora/collab.
pub mod Store
pub mod Dispatch
