-- ===== src/Config/Build.antt =====
-- src/core/plugify.cpp: the configuration of `PlugifyBuilder`. `load` is `LoadConfigFromFile`, none for an
-- error. The services that `Build` registers are not modelled here.
pub mod Final
pub mod Precedence
pub mod Doubled
use plugify.Prelude.{ℕ, Bool, true, false, ◌||◌, Option, none, some, if◌then◌else◌}
use plugify.Config.{
  ConfigSource, file_source, builder_source, override_source, Platform, Paths, Logging, Config,
  default_config, resolve_relative_paths,
}
use plugify.Config.Merge.{merge_from}
use plugify.Config.Validate.{Validated, valid, base_dir_not_set, same_directories, validate}

pub record PlugifyBuilder (FsPath : Type 0) : Type 0 where
  pub base_config : Config FsPath
  pub config_overrides : Config FsPath
  pub config_file_path : Option FsPath
  pub has_base_config : Bool
  pub has_base_dir_override : Bool
  pub has_paths_override : Bool

-- What `Build` ends with.
pub data Built (FsPath : Type 0) : Type 0 where
  failed_to_load : FsPath → Built FsPath
  validation_failed : Validated FsPath → Built FsPath
  built : Config FsPath → Built FsPath

module _ {FsPath : Type 0} where
  abbrev pub with_base_dir : FsPath → PlugifyBuilder FsPath → PlugifyBuilder FsPath
  with_base_dir dir b = record b {
    config_overrides = record b.config_overrides {
      paths = record b.config_overrides.paths { base_dir = dir };
    };
    has_base_dir_override = true;
  }

  abbrev pub with_paths : Paths FsPath → PlugifyBuilder FsPath → PlugifyBuilder FsPath
  with_paths paths b = record b {
    config_overrides = record b.config_overrides { paths = paths };
    has_paths_override = true;
  }

  abbrev pub with_config_file : FsPath → PlugifyBuilder FsPath → PlugifyBuilder FsPath
  with_config_file path b = record b { config_file_path = some path }

  abbrev pub with_config : Config FsPath → PlugifyBuilder FsPath → PlugifyBuilder FsPath
  with_config config b = record b { base_config = config; has_base_config = true }

  -- The level of a logger that is not null, as far as the configuration goes.
  abbrev pub with_logger : ℕ → PlugifyBuilder FsPath → PlugifyBuilder FsPath
  with_logger level b = record b {
    config_overrides = record b.config_overrides {
      logging = record b.config_overrides.logging { severity = level };
    };
  }

module _ {FsPath : Type 0} (os : Platform FsPath) where
  abbrev pub new_builder : PlugifyBuilder FsPath
  new_builder = record {
    base_config = default_config os;
    config_overrides = default_config os;
    config_file_path = none;
    has_base_config = false;
    has_base_dir_override = false;
    has_paths_override = false;
  }

  -- Steps 3 and 4, on the defaults with the file's configuration.
  unfoldable pub override : PlugifyBuilder FsPath → Config FsPath → Config FsPath
  unfolding merge_from
  override b from_file =
      let based =
        if b.has_base_config
        then merge_from os b.base_config builder_source from_file
        else from_file in
      if b.has_base_dir_override || b.has_paths_override
      then merge_from os b.config_overrides override_source based
      else based

  -- Step 5.
  abbrev pub ensure_base_dir : Config FsPath → Config FsPath
  ensure_base_dir c =
      if os.is_empty c.paths.base_dir
      then record c { paths = record c.paths { base_dir = os.current_path } }
      else c

  -- Step 6.
  abbrev pub resolve_config : Config FsPath → Config FsPath
  resolve_config c = record c { paths = resolve_relative_paths os c.paths }

  unfoldable pub combine : PlugifyBuilder FsPath → Config FsPath → Config FsPath
  unfolding override
  combine b from_file = resolve_config (ensure_base_dir (override b from_file))

  -- Step 7.
  abbrev pub checked : Validated FsPath → Config FsPath → Built FsPath
  checked valid c = built c
  checked base_dir_not_set c = validation_failed base_dir_not_set
  checked (same_directories i j p) c = validation_failed (same_directories i j p)

  abbrev pub finish : PlugifyBuilder FsPath → Config FsPath → Built FsPath
  finish b from_file = let final = combine b from_file in checked (validate os final) final

  abbrev pub load_then : PlugifyBuilder FsPath → FsPath → Option (Config FsPath) → Built FsPath
  load_then b path none = failed_to_load path
  load_then b path (some c) = finish b (merge_from os c file_source (default_config os))

  abbrev pub from_config_file :
      (FsPath → Option (Config FsPath)) → PlugifyBuilder FsPath → Option FsPath → Built FsPath
  from_config_file load b none = finish b (default_config os)
  from_config_file load b (some path) = load_then b path (load path)

  unfoldable pub build : (FsPath → Option (Config FsPath)) → PlugifyBuilder FsPath → Built FsPath
  build load b = from_config_file load b b.config_file_path

  -- `MakePlugify`.
  abbrev pub make_plugify : FsPath → Built FsPath
  make_plugify root = build (λ path. none) (with_base_dir root new_builder)
