-- ===== src/Mpdu.antt =====
-- MAC frames as the MAC builds and parses them: dot15d4-frame/src, with its default features.
pub mod Security
pub mod Elements
pub mod Repr
pub mod Ranges
pub mod Frame
mod Examples
