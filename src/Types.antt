-- ===== src/Types.antt =====
-- Backend/internal/types: the records that the components exchange.
pub mod Vq
pub mod Call
pub mod Agent
pub mod Location
pub mod Message
