-- ===== src/Config.antt =====
-- include/plugify/config.hpp: the configuration, its sections and where each came from. A path is a value
-- of a type that std::filesystem gives, with its operations; a set is the list of its elements.
pub mod Merge
pub mod Validate
pub mod Build
pub mod Sample
mod Tests
use Prim.Native.String.{String}
use plugify.Prelude.{
  ℕ, Bool, true, false, ◌&&◌, ◌||◌, not, List, [], ◌∷◌, ◌==◌, leb, if◌then◌else◌, any_of, all_of,
  length, empty,
}

pub data ConfigSource : Type 0 where
  default_source file_source builder_source override_source : ConfigSource

-- The number of an enumerator.
abbrev pub rank : ConfigSource → ℕ
rank default_source = 0
rank file_source = 1
rank builder_source = 2
rank override_source = 3

-- What std::filesystem::path offers: a path of a text, tests, `/`, `lexically_normal` and `==`.
-- `current_path` is that of the process, and `default_verbosity` depends on the build.
pub record Platform (FsPath : Type 0) : Type 0 where
  pub path_of : String → FsPath
  pub is_empty : FsPath → Bool
  pub is_relative : FsPath → Bool
  pub append : FsPath → FsPath → FsPath
  pub lexically_normal : FsPath → FsPath
  pub equal : FsPath → FsPath → Bool
  pub elements : FsPath → List String
  pub current_path : FsPath
  pub default_verbosity : ℕ

pub record SourceTracking : Type 0 where
  pub paths : ConfigSource
  pub loading : ConfigSource
  pub security : ConfigSource
  pub logging : ConfigSource

pub record Paths (FsPath : Type 0) : Type 0 where
  pub base_dir : FsPath
  pub extensions_dir : FsPath
  pub configs_dir : FsPath
  pub data_dir : FsPath
  pub logs_dir : FsPath
  pub cache_dir : FsPath

-- Timeouts are in milliseconds.
pub record Loading : Type 0 where
  pub prefer_own_symbols : Bool
  pub max_concurrent_loads : ℕ
  pub load_timeout : ℕ
  pub export_timeout : ℕ
  pub start_timeout : ℕ

pub record Security (FsPath : Type 0) : Type 0 where
  pub whitelisted_extensions : List String
  pub blacklisted_extensions : List String
  pub excluded_dirs : List FsPath

pub record Logging (FsPath : Type 0) : Type 0 where
  pub severity : ℕ
  pub print_report : Bool
  pub print_load_order : Bool
  pub print_dependency_graph : Bool
  pub print_digraph_dot : Bool
  pub export_digraph_dot : FsPath

pub record Config (FsPath : Type 0) : Type 0 where
  pub sources : SourceTracking
  pub paths : Paths FsPath
  pub loading : Loading
  pub security : Security FsPath
  pub logging : Logging FsPath

module _ {FsPath : Type 0} (os : Platform FsPath) where
  -- `GetDefaultExcludedDirs`.
  abbrev pub default_excluded_dirs : List FsPath
  default_excluded_dirs =
      os.path_of "disabled"
      ∷ os.path_of ".git"
      ∷ os.path_of ".svn"
      ∷ os.path_of "temp"
      ∷ os.path_of "tmp"
      ∷ []

  -- A new `Config`, which `Reset` assigns.
  unfoldable pub default_config : Config FsPath
  default_config = record {
    sources = record {
      paths = default_source;
      loading = default_source;
      security = default_source;
      logging = default_source;
    };
    paths = record {
      base_dir = os.path_of "";
      extensions_dir = os.path_of "extensions";
      configs_dir = os.path_of "configs";
      data_dir = os.path_of "data";
      logs_dir = os.path_of "logs";
      cache_dir = os.path_of "cache";
    };
    loading = record {
      prefer_own_symbols = false;
      max_concurrent_loads = 4;
      load_timeout = 500;
      export_timeout = 100;
      start_timeout = 250;
    };
    security = record {
      whitelisted_extensions = [];
      blacklisted_extensions = [];
      excluded_dirs = default_excluded_dirs;
    };
    logging = record {
      severity = os.default_verbosity;
      print_report = false;
      print_load_order = false;
      print_dependency_graph = false;
      print_digraph_dot = false;
      export_digraph_dot = os.path_of "";
    };
  }

  -- The tests of `Paths`: whether a directory is not the default one.
  abbrev pub has_custom_extensions_dir : Paths FsPath → Bool
  has_custom_extensions_dir p = not (os.equal p.extensions_dir (os.path_of "extensions"))

  abbrev pub has_custom_configs_dir : Paths FsPath → Bool
  has_custom_configs_dir p = not (os.equal p.configs_dir (os.path_of "configs"))

  abbrev pub has_custom_data_dir : Paths FsPath → Bool
  has_custom_data_dir p = not (os.equal p.data_dir (os.path_of "data"))

  abbrev pub has_custom_logs_dir : Paths FsPath → Bool
  has_custom_logs_dir p = not (os.equal p.logs_dir (os.path_of "logs"))

  abbrev pub has_custom_cache_dir : Paths FsPath → Bool
  has_custom_cache_dir p = not (os.equal p.cache_dir (os.path_of "cache"))

  -- `make_absolute`.
  abbrev pub make_absolute : FsPath → FsPath → FsPath
  make_absolute base p =
      if not (os.is_empty p) && (os.is_relative p && not (os.is_empty base))
      then os.lexically_normal (os.append base p)
      else p

  unfoldable pub resolve_relative_paths : Paths FsPath → Paths FsPath
  resolve_relative_paths p = record p {
    extensions_dir = make_absolute p.base_dir p.extensions_dir;
    configs_dir = make_absolute p.base_dir p.configs_dir;
    data_dir = make_absolute p.base_dir p.data_dir;
    logs_dir = make_absolute p.base_dir p.logs_dir;
    cache_dir = make_absolute p.base_dir p.cache_dir;
  }

  -- Whether two sets have the same elements: `==` of std::unordered_set.
  abbrev pub same_dirs : List FsPath → List FsPath → Bool
  same_dirs a b = length a == length b && all_of (λ x. any_of (λ y. os.equal x y) b) a

  abbrev pub has_excluded : Security FsPath → Bool
  has_excluded s = not (same_dirs s.excluded_dirs default_excluded_dirs)

  abbrev pub has_custom_severity : Logging FsPath → Bool
  has_custom_severity l = not (l.severity == os.default_verbosity)

  abbrev pub has_export_path : Logging FsPath → Bool
  has_export_path l = not (os.is_empty l.export_digraph_dot)

-- The tests of `Loading`, and of `Security` for its lists.
abbrev pub has_custom_max_concurrent_loads : Loading → Bool
has_custom_max_concurrent_loads l = not (l.max_concurrent_loads == 4)

abbrev pub has_custom_load_timeout : Loading → Bool
has_custom_load_timeout l = not (l.load_timeout == 500)

abbrev pub has_custom_export_timeout : Loading → Bool
has_custom_export_timeout l = not (l.export_timeout == 100)

abbrev pub has_custom_start_timeout : Loading → Bool
has_custom_start_timeout l = not (l.start_timeout == 250)

abbrev pub has_whitelist : {FsPath : Type 0} → Security FsPath → Bool
has_whitelist s = not (empty s.whitelisted_extensions)

abbrev pub has_blacklist : {FsPath : Type 0} → Security FsPath → Bool
has_blacklist s = not (empty s.blacklisted_extensions)
