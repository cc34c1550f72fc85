-- ===== src/Loader.antt =====
-- src/core/extension_loader.hpp: `ExtensionLoader`.
pub mod Host
pub mod Module
pub mod Plugin
pub mod Frame
pub mod Matching
pub mod Cache
