-- ===== src/Version.antt =====
-- include/plg/version.hpp: semantic versions, their comparison, their text, and version ranges.
pub mod Types
pub mod Compare
pub mod Lexer
pub mod Parser
pub mod Text
pub mod Roundtrip
pub mod Total
pub mod Range
pub mod Tests
