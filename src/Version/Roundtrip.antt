-- ===== src/Version/Roundtrip.antt =====
-- The text of a version is read back as that version.
pub mod Lexing
pub mod Numbers
pub mod Identifiers
pub mod Tags
pub mod Parts
pub mod Whole
