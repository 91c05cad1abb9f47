-- ===== src/Proto.antt =====
-- The protocol layer, aigenora/proto.
pub mod JsonDelta
pub mod Poker
pub mod Mahjong
pub mod CardGames
pub mod Group
