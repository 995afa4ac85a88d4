-- ===== src/Crypto.antt =====
-- The package crypto, with the encodings of Go's standard library that it calls.
pub mod Base64
pub mod Hex
pub mod Token
pub mod Password
pub mod Slots
mod Tests
