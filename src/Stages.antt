-- ===== src/Stages.antt =====
-- src/core/stages_impl.hpp: the stages that `Manager::Initialize` puts into its pipeline.
pub mod Shared
pub mod Parsing
pub mod Resolution
pub mod Policy
pub mod Resolving
pub mod Failure
pub mod Loading
pub mod Exporting
pub mod Starting
pub mod States
pub mod Outcomes
pub mod Propagation
