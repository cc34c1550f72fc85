-- ===== src/Config/Build/Doubled.antt =====
-- Two things that `Build` does to its arguments that its callers may not expect.
use plugify.Prelude.{ℕ, ◌≡◌, refl, ap, true, false, Option, none, some}
use plugify.Config.{Platform, Config, default_config, make_absolute, resolve_relative_paths}
use plugify.Config.Merge.{merge_from}
use plugify.Config.Validate.{validate}
use plugify.Config.Build.{
  PlugifyBuilder, new_builder, with_base_dir, with_logger, override, resolve_config, combine,
  finish, build, from_config_file, load_then, checked, ensure_base_dir,
}

module _ {FsPath : Type 0} (os : Platform FsPath) where
  -- Not empty, and relative.
  abbrev pub IsRelative : FsPath → Type 0
  IsRelative p = (os.is_empty p ≡ false) × (os.is_relative p ≡ true)

  abbrev pub under : FsPath → FsPath → FsPath
  under base p = os.lexically_normal (os.append base p)

  make_absolute_relative :
      (base p : FsPath)
      → os.is_empty base ≡ false
      → IsRelative p
      → make_absolute os base p ≡ under base p
  make_absolute_relative base p set (e, r) = rw e (rw r (rw set refl))

  -- `MakePlugify` with a relative root: the root is put before the extensions directory twice, first
  -- when the overrides are merged and then again at the end, if the default directory and its path
  -- under the root are relative.
  pub relative_base_doubled :
      (root : FsPath)
      → os.is_empty root ≡ false
      → os.equal (os.path_of "extensions") (os.path_of "extensions") ≡ true
      → IsRelative (os.path_of "extensions")
      → IsRelative (under root (os.path_of "extensions"))
      → (combine os (with_base_dir root (new_builder os)) (default_config os)).paths.extensions_dir
        ≡ under root (under root (os.path_of "extensions"))
  unfolding combine override merge_from resolve_relative_paths default_config
  relative_base_doubled root set same rel again =
      rw same (simp (set, rel.0, rel.1, again.0, again.1))

  module _ (level : ℕ) (b : PlugifyBuilder FsPath) where
    override_same :
        (start : Config FsPath)
        → b.has_base_dir_override ≡ false
        → b.has_paths_override ≡ false
        → override os (with_logger level b) start ≡ override os b start
    unfolding override
    override_same start e f = rw e (rw f refl)

    finish_same :
        (start : Config FsPath)
        → b.has_base_dir_override ≡ false
        → b.has_paths_override ≡ false
        → finish os (with_logger level b) start ≡ finish os b start
    unfolding combine
    finish_same start e f =
        ap
          (λ c.
            let final = resolve_config os (ensure_base_dir os c) in
            checked os (validate os final) final)
          (override_same start e f)

    load_same :
        (path : FsPath) (c : Option (Config FsPath))
        → b.has_base_dir_override ≡ false
        → b.has_paths_override ≡ false
        → load_then os (with_logger level b) path c ≡ load_then os b path c
    load_same path none e f = refl
    load_same path (some c) e f = finish_same _ e f

  -- The level of a logger is ignored: unless the base directory or the paths are overridden, `Build`
  -- gives the same with `WithLogger` as without it.
  pub with_logger_ignored :
      (load : FsPath → Option (Config FsPath)) (level : ℕ) (b : PlugifyBuilder FsPath)
      → b.has_base_dir_override ≡ false
      → b.has_paths_override ≡ false
      → build os load (with_logger level b) ≡ build os load b
  unfolding build
  with_logger_ignored load level b e f = by_path b.config_file_path
    where
      by_path :
          (path : Option FsPath)
          → from_config_file os load (with_logger level b) path ≡ from_config_file os load b path
      by_path none = finish_same level b (default_config os) e f
      by_path (some path) = load_same level b path (load path) e f
