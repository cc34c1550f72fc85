-- ===== src/Config/Validate.antt =====
-- src/core/config.cpp: `Validate`.
pub mod Apart
use Prim.Native.String.{String}
use plugify.Prelude.{Bool, true, false, List, [], ◌∷◌, if◌then◌else◌}
use plugify.Config.{Platform, Paths, Config}

pub data Validated (FsPath : Type 0) : Type 0 where
  valid : Validated FsPath
  base_dir_not_set : Validated FsPath
  same_directories : String → String → FsPath → Validated FsPath

-- The array of the directories with their names.
abbrev pub named_dirs : {FsPath : Type 0} → Paths FsPath → List (String × FsPath)
named_dirs p =
    ("extensions", p.extensions_dir)
    ∷ ("configs", p.configs_dir)
    ∷ ("data", p.data_dir)
    ∷ ("logs", p.logs_dir)
    ∷ ("cache", p.cache_dir)
    ∷ []

module _ {FsPath : Type 0} (os : Platform FsPath) where
  -- The inner loop: a directory against those behind it; then the rest of the outer loop.
  unfoldable pub compare_dir :
      String × FsPath → List (String × FsPath) → Validated FsPath → Validated FsPath
  compare_dir d [] rest = rest
  compare_dir (i, p) ((j, q) ∷ ds) rest =
      if os.equal p q then same_directories i j p else compare_dir (i, p) ds rest

  unfoldable pub compare_dirs : List (String × FsPath) → Validated FsPath
  unfolding compare_dir
  compare_dirs [] = valid
  compare_dirs (d ∷ ds) = compare_dir d ds (compare_dirs ds)

  unfoldable pub validate : Config FsPath → Validated FsPath
  unfolding compare_dirs
  validate c =
      if os.is_empty c.paths.base_dir then base_dir_not_set else compare_dirs (named_dirs c.paths)
