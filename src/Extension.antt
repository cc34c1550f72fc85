-- ===== src/Extension.antt =====
-- include/plugify/extension.hpp and src/core/extension.cpp: an extension and its life cycle.
pub mod State
pub mod Core
pub mod Lifecycle
mod Tests
