-- ===== src/Version/Total.antt =====
-- The parser never reads behind the last token and never runs out of fuel.
pub mod Streams
pub mod Loops
pub mod Whole
