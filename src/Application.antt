-- ===== src/Application.antt =====
-- src/core/plugify.cpp: `Plugify::Impl`. The disk is a value of a type that the file system gives. Messages
-- of the log, the profiler and the version are not modelled, nor the time between two updates.
pub mod Checks
pub mod Sound
mod Tests
use Prim.Native.String.{String}
use text.Mathlib.Text.{◌==◌ as str_eq}
use plugify.Prelude.{
  ℕ, Bool, true, false, ◌&&◌, ◌||◌, not, List, [], ◌∷◌, ◌++◌, ◌==◌, empty, if◌then◌else◌,
}
use plugify.Config.{Platform, Paths, Config}
use plugify.Manager.Core.{Manager, terminate, update}
use plugify.Stages.Shared.{Env}

-- `IsExists` and `CreateDirectories`, whose error is only logged.
pub record Disk (World FsPath : Type 0) : Type 0 where
  pub is_exists : World → FsPath → Bool
  pub make_directories : World → FsPath → World

pub record PathValidation (FsPath : Type 0) : Type 0 where
  pub name : String
  pub path : FsPath
  pub require_exists : Bool
  pub require_relative : Bool
  pub can_create : Bool

pub data Problem : Type 0 where
  not_configured not_normalized not_relative not_existing : String → Problem
  conflict : String → String → Problem

pub record ValidationResult : Type 0 where
  pub errors : List Problem
  pub warnings : List String

abbrev pub push_error : Problem → ValidationResult → ValidationResult
push_error e r = record r { errors = r.errors ++ e ∷ [] }

abbrev pub push_warning : String → ValidationResult → ValidationResult
push_warning w r = record r { warnings = r.warnings ++ w ∷ [] }

abbrev pub is_success : ValidationResult → Bool
is_success r = empty r.errors

abbrev pub validation : {FsPath : Type 0} → String → FsPath → PathValidation FsPath
validation name path = record {
  name = name;
  path = path;
  require_exists = false;
  require_relative = false;
  can_create = true;
}

abbrev pub paths_to_validate : {FsPath : Type 0} → Paths FsPath → List (PathValidation FsPath)
paths_to_validate p =
    record {
      name = "baseDir";
      path = p.base_dir;
      require_exists = true;
      require_relative = false;
      can_create = false;
    }
    ∷ validation "extensionsDir" p.extensions_dir
    ∷ validation "configsDir" p.configs_dir
    ∷ validation "dataDir" p.data_dir
    ∷ validation "logsDir" p.logs_dir
    ∷ validation "cacheDir" p.cache_dir
    ∷ []

-- Whether `std::mismatch` comes to the end of one of the two: one path is the other or above it.
unfoldable pub overlap : List String → List String → Bool
overlap [] ys = true
overlap (x ∷ xs) [] = true
overlap (x ∷ xs) (y ∷ ys) = let rest = overlap xs ys in if str_eq x y then rest else false

module _ {World FsPath : Type 0} (os : Platform FsPath) (fs : Disk World FsPath) where
  abbrev pub check_existence : Bool → PathValidation FsPath → ValidationResult → ValidationResult
  check_existence exists v r =
      if v.require_exists && not exists
      then push_error (not_existing v.name) r
      else (if not exists && v.can_create then push_warning v.name r else r)

  -- Step 1, for one path.
  unfoldable pub check_path : World → PathValidation FsPath → ValidationResult → ValidationResult
  check_path w v r =
      if os.is_empty v.path
      then push_error (not_configured v.name) r
      else (if not (os.equal (os.lexically_normal v.path) v.path)
          then push_error (not_normalized v.name) r
          else (if v.require_relative && not (os.is_relative v.path)
              then push_error (not_relative v.name) r
              else check_existence (fs.is_exists w v.path) v r))

  unfoldable pub check_paths :
      World → List (PathValidation FsPath) → ValidationResult → ValidationResult
  unfolding check_path
  check_paths w [] r = r
  check_paths w (v ∷ vs) r = check_paths w vs (check_path w v r)

  abbrev pub check_pair :
      PathValidation FsPath → PathValidation FsPath → ValidationResult → ValidationResult
  check_pair v u r =
      if os.is_empty u.path
      then r
      else (if overlap (os.elements v.path) (os.elements u.path)
          then push_error (conflict v.name u.name) r
          else r)

  unfoldable pub check_against :
      PathValidation FsPath → List (PathValidation FsPath) → ValidationResult → ValidationResult
  check_against v [] r = r
  check_against v (u ∷ us) r = check_against v us (check_pair v u r)

  -- Step 2, from a start index on.
  unfoldable pub check_collisions :
      List (PathValidation FsPath) → ValidationResult → ValidationResult
  unfolding check_against
  check_collisions [] r = r
  check_collisions (v ∷ vs) r =
      check_collisions vs (if os.is_empty v.path then r else check_against v vs r)

  abbrev pub skip_base : List (PathValidation FsPath) → List (PathValidation FsPath)
  skip_base [] = []
  skip_base (v ∷ vs) = vs

  unfoldable pub check_directories : World → Config FsPath → Bool
  unfolding check_paths check_collisions
  check_directories w c =
      let vs = paths_to_validate c.paths in
      is_success
        (check_collisions (skip_base vs) (check_paths w vs (record { errors = []; warnings = [] })))

  abbrev pub create_dir : World → FsPath → World
  create_dir w dir =
      if not (os.is_empty dir) && not (fs.is_exists w dir) then fs.make_directories w dir else w

  abbrev pub create_all : World → Paths FsPath → World
  create_all w p =
      create_dir
        (create_dir
          (create_dir (create_dir (create_dir w p.extensions_dir) p.configs_dir) p.data_dir)
          p.logs_dir)
        p.cache_dir

  -- `Plugify::Impl`, with the disk.
  pub record Application : Type 0 where
    pub config : Config FsPath
    pub manager : Manager
    pub initialized : Bool
    pub owner_thread : ℕ
    pub disk : World

  pub data Initialized : Type 0 where
    succeeded wrong_thread already_initialized no_directories : Initialized

  -- `Initialize`, called from a thread.
  unfoldable pub initialize : ℕ → Application → Application × Initialized
  unfolding check_directories
  initialize thread a =
      if not (thread == a.owner_thread)
      then (a, wrong_thread)
      else (if a.initialized
          then (a, already_initialized)
          else (if check_directories a.disk a.config
              then (
                record a { disk = create_all a.disk a.config.paths; initialized = true },
                succeeded,
              )
              else (a, no_directories)))

  -- Whether an exception is thrown, with `Terminate` and `Update`.
  unfoldable pub terminate_app : Env → ℕ → Application → Bool × Application
  terminate_app env thread a =
      if not (thread == a.owner_thread)
      then (true, a)
      else (if a.initialized
          then (false, record a { manager = terminate env a.manager; initialized = false })
          else (false, a))

  unfoldable pub update_app : Env → ℕ → Application → Bool × Application
  update_app env thread a =
      if not (thread == a.owner_thread)
      then (true, a)
      else (if a.initialized
          then (false, record a { manager = update env a.manager })
          else (false, a))
