-- ===== src/Manifest.antt =====
-- src/core/manifest.cpp: the checks of a parsed manifest, and the linking of its prototypes and enums.
pub mod Types
pub mod Checked
pub mod Validate
pub mod Valid
pub mod Uniqueness
pub mod Validity
pub mod Classes
pub mod Acceptance
pub mod Cycles
pub mod Linking
pub mod Registering
mod Tests
