-- ===== src/Config/Tests.antt =====
-- Runs of the configuration.
use Prim.Native.String.{String}
use plugify.Prelude.{
  ◌≡◌, ◌↔◌, refl, inl, inr, false, Option, none, some, List, [], ◌∷◌, ◌++◌, All, Bool-cases,
  if◌then◌else◌,
}
use plugify.Config.{
  Config, file_source, builder_source, ConfigSource, default_config, resolve_relative_paths,
}
use plugify.Config.Sample.{same_path, is_rooted, os}
use plugify.Config.Merge.{
  merge_from, customizes_paths, customizes_loading, customizes_security, customizes_logging,
}
use plugify.Config.Merge.Sources.{Tracks, merge_all, merge_all-Tracks}
use plugify.Config.Validate.{validate, compare_dir, compare_dirs, valid, same_directories}
use plugify.Config.Validate.Apart.{Apart, dirs, validate-Apart}
use plugify.Config.Build.{
  PlugifyBuilder, built, failed_to_load, new_builder, with_base_dir, with_config_file, with_logger,
  override, combine, build,
}
use plugify.Config.Build.Final.{IsPlaced, AppendsAbsolute, build-IsPlaced}
use plugify.Config.Build.Precedence.{first_set, base_if, file_base, has_override, build-base_dir}
use plugify.Config.Build.Doubled.{relative_base_doubled, with_logger_ignored}

os-AppendsAbsolute : AppendsAbsolute os
os-AppendsAbsolute [] p h = absurd (cc h)
os-AppendsAbsolute (x ∷ xs) p h = elim (Bool-cases (is_rooted p)) [
  | inl e ↦ rw e (rw e refl)
  | inr n ↦ rw n h
]

abbrev quick : Config (List String)
quick = record (default_config os) {
  paths = record (default_config os).paths { base_dir = "/" ∷ "srv" ∷ []; logs_dir = "log" ∷ [] };
  loading = record (default_config os).loading { load_timeout = 50 };
}

abbrev load : List String → Option (Config (List String))
load path = if same_path path ("plugify.json" ∷ []) then some quick else none

abbrev from_json : PlugifyBuilder (List String)
from_json = with_config_file ("plugify.json" ∷ []) (new_builder os)

abbrev quick_built : Config (List String)
quick_built = combine os from_json (merge_from os quick file_source (default_config os))

quick_builds : build os load from_json ≡ built quick_built
unfolding build combine override merge_from default_config validate compare_dirs compare_dir
quick_builds = refl

quick_logs : quick_built.paths.logs_dir ≡ "/" ∷ "srv" ∷ "log" ∷ []
unfolding combine override merge_from default_config resolve_relative_paths
quick_logs = refl

missing_file :
    build os load (with_config_file ("other.json" ∷ []) (new_builder os))
    ≡ failed_to_load ("other.json" ∷ [])
unfolding build
missing_file = refl

-- The same directory for the logs and the cache is refused.
abbrev colliding : Config (List String)
colliding = record (default_config os) {
  paths = record (default_config os).paths { base_dir = "/" ∷ []; logs_dir = "cache" ∷ [] };
}

colliding_refused : validate os colliding ≡ same_directories "logs" "cache" ("cache" ∷ [])
unfolding validate compare_dirs compare_dir default_config
colliding_refused = refl

validate-Apart_example :
    (validate os quick ≡ valid)
    ↔ ((os.is_empty quick.paths.base_dir ≡ false) × Apart os (dirs os quick.paths))
validate-Apart_example = validate-Apart os quick

build-IsPlaced_example :
    (os.is_empty quick_built.paths.base_dir ≡ false)
    × Apart os (dirs os quick_built.paths)
    × All (IsPlaced os) (dirs os quick_built.paths)
unfolding combine override merge_from default_config resolve_relative_paths
build-IsPlaced_example =
    build-IsPlaced os load from_json os-AppendsAbsolute quick_built quick_builds refl

build-base_dir_example :
    quick_built.paths.base_dir
    ≡ first_set os
        (base_if os (has_override os from_json) from_json.config_overrides
          ++ (base_if os from_json.has_base_config from_json.base_config
              ++ file_base os from_json load from_json.config_file_path))
        os.current_path
build-base_dir_example = build-base_dir os from_json load refl quick_built quick_builds

relative_base_doubled_example :
    (combine os
      (with_base_dir ("game" ∷ []) (new_builder os))
      (default_config os)).paths.extensions_dir
    ≡ "game" ∷ "game" ∷ "extensions" ∷ []
relative_base_doubled_example =
    relative_base_doubled os ("game" ∷ []) refl refl (refl, refl) (refl, refl)

with_logger_ignored_example : build os load (with_logger 1 from_json) ≡ build os load from_json
with_logger_ignored_example = with_logger_ignored os load 1 from_json refl refl

abbrev merges : List (Config (List String) × ConfigSource)
merges = (quick, builder_source) ∷ (colliding, file_source) ∷ []

merge_all-Tracks_example :
    Tracks
      (λ o. customizes_paths os o.paths)
      merges
      (default_config os).sources.paths
      (merge_all os merges (default_config os)).sources.paths
    × Tracks
        (λ o. customizes_loading o.loading)
        merges
        (default_config os).sources.loading
        (merge_all os merges (default_config os)).sources.loading
    × Tracks
        (λ o. customizes_security os o.security)
        merges
        (default_config os).sources.security
        (merge_all os merges (default_config os)).sources.security
    × Tracks
        (λ o. customizes_logging os o.logging)
        merges
        (default_config os).sources.logging
        (merge_all os merges (default_config os)).sources.logging
merge_all-Tracks_example = merge_all-Tracks os merges (default_config os)

file_after_builder : (merge_all os merges (default_config os)).sources.paths ≡ builder_source
unfolding merge_all merge_from default_config
file_after_builder = refl
