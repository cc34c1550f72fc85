-- ===== src/Lib.antt =====
-- plugify: a plugin manager that finds language modules and plugins on the disk, resolves what they
-- depend on, and loads, exports, starts, updates and ends them. This library models its core.
--
-- The parts, and the files that model them (paths of the sources from the repository's root):
--   Version    include/plg/version.hpp: semantic versions. Version/Lexer is `lexer`, Version/Parser is
--              `version_parser` and `parse`, Version/Text is `to_string`, Version/Compare is
--              `prerelease_comparator`, `compare_parsed` and the operators. The numbers are `int`.
--              Version/Range is `range_comparator`, `range`, `range_set` and `range_parser`.
--   Extension  include/plugify/extension.hpp, include/plugify/types.hpp, src/core/extension.cpp: the
--              states, `IsValidTransition`, and the operations on an extension.
--   Graph      include/plugify/dependency_resolver.hpp: the maps from an identifier to identifiers.
--   Tracker    src/core/failure_tracker.hpp: the set of failed extensions.
--   Loader     src/core/extension_loader.hpp: `LoadModule`, `LoadPlugin` and the other operations, the
--              cache of assemblies and the statistics. Loader/Host holds what the loader calls.
--   Pipeline   src/core/pipeline.hpp, src/core/stages.hpp: stages over a vector of items.
--   Stages     src/core/stages_impl.hpp: parsing, resolution, loading, exporting and starting.
--   Resolver   src/core/libsolv_dependency_resolver.cpp: `ComputeInstallationOrder`.
--   Manager    src/core/manager.cpp: `Initialize`, `Update`, `Terminate`, discovery and queries.
--   Manifest   src/core/manifest.cpp: `Validate` in Manifest/Validate, `DetectCycles` in Manifest/Cycles,
--              `Register` in Manifest/Registering, pass two of `Resolve` in Manifest/Linking.
--   Services   src/core/service_locator.cpp: the services, their lifetimes and the scopes of a thread;
--              Services/Shared has several locators, which share the static stack of scopes.
--   Config     include/plugify/config.hpp, src/core/config.cpp: the sections of the configuration with
--              `MergeFrom`, `MergeField` and `Validate`; Config/Build is `PlugifyBuilder::Build` of
--              src/core/plugify.cpp as far as it makes the configuration.
--   Application src/core/plugify.cpp: `Plugify::Impl`, which checks and makes the directories and owns
--              the manager.
-- The manager runs the five stages in a pipeline. A stage sees the items, and shares with the others the
-- loader, the failure tracker and the graphs, which are the record `Shared`; every stage returns it
-- changed. The last three stages process an extension through the loader and record failures in the
-- tracker, which they ask before they process the next one.
--
-- State is passed explicitly. A mutable object is the value of its record; a pointer to an extension is
-- kept only where the source does not change the extension again, and so is the extension's value.
-- An assertion of `SetState` is a flag of the extension that stays true while every transition was valid.
-- A C++ exception of a language module is a value that `SafeCall` turns into an error.
-- Code outside the repository or at its edge is a parameter: the language modules, the assembly loader
-- and the file system in `Host` (each answer may depend on all calls made before), the reading of
-- a manifest, the resolver and the order of a hash map in `Env`, the pool of libsolv in `Pool`. The factories
-- of services are a function of the calls made before, and std::filesystem is `Platform`. The
-- hypotheses made on them are `VisitsElements`, that going through a hash map visits its elements,
-- `AppendsAbsolute`, that appending to an absolute path gives one, and which concrete paths are empty
-- or relative.
--
-- Bounds and fuel: the parser's accumulator wraps at 2 ^ 64 and its results are at most 2 ^ 31 - 1, as
-- in the source. The sizes of a version's identifiers and of their list are converted from size_t to
-- `int` as in the source; the laws of the comparison assume that they are below 2 ^ 31 (`IsSized`). The
-- difference of two values of type `int` is an integer: it is not wrapped where it is no `int`, which
-- is undefined in C++. The loops over tokens have the number of tokens as their fuel, and each round takes a
-- token. `to_chars` has the fuel n + 1, enough since a division by ten makes a positive number
-- smaller. The search of directories has fuel for the directories that it may visit, the
-- search for cycles the number of prototypes, each of which is put on the stack once.
--
-- Not modelled: the walk of `Manifest::Resolve` that collects inline definitions and its publishing of
-- the sorted tables, the getters of manifest entries, the registrar of names, the provider, which
-- forwards queries, the default services of the builder, loggers, JSON, the operating system's file
-- system and assemblies, the containers of include/plg, threads and locks (a parallel stage gives each
-- task an item of its own, and the other stages are sequential; the service locator is seen from one
-- thread), and texts that are only shown to people.
pub mod Prelude
pub mod Version
pub mod Extension
pub mod Graph
pub mod Tracker
pub mod Loader
pub mod Pipeline
pub mod Stages
pub mod Resolver
pub mod Manifest
pub mod Manager
pub mod Services
pub mod Config
pub mod Application
