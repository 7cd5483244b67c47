-- ===== src/FastTrack.antt =====
-- The FastTrack network's cipher.
pub mod Mix
pub mod Flow
pub mod EncType1
pub mod EncType2
pub mod EncType80
pub mod EncType20
pub mod Seed
pub mod Primitives
pub mod Cipher
pub mod Init
pub mod Link
mod Examples
