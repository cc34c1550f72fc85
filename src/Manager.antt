-- ===== src/Manager.antt =====
-- src/core/manager.cpp: `Manager::Impl` and the queries of `Manager`. The life-cycle mutex makes each
-- operation a step of its own; reports and logging are not modelled.
pub mod Discovery
pub mod Search
pub mod Core
pub mod Queries
pub mod Passes
pub mod Start
pub mod Stop
pub mod Sample
mod SearchTests
mod Tests
