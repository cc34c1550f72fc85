-- ===== src/Config/Build/Final.antt =====
-- The configuration that a successful `Build` gives to the manager.
use plugify.Prelude.{
  ◌≡◌, ◌⊎◌, refl, subst, inl, inr, true, false, Option, none, some, Option-cases, Bool-cases, All,
}
use plugify.Config.{
  Platform, Paths, Config, file_source, default_config, make_absolute, resolve_relative_paths,
}
use plugify.Config.Merge.{merge_from}
use plugify.Config.Validate.{Validated, valid, base_dir_not_set, same_directories, validate}
use plugify.Config.Validate.Apart.{Apart, dirs, validate-Apart}
use plugify.Config.Build.{
  PlugifyBuilder, ensure_base_dir, override, built, combine, checked, finish, from_config_file,
  build,
}

module _ {FsPath : Type 0} (os : Platform FsPath) where
  -- A path that is absolute, or empty.
  abbrev pub IsPlaced : FsPath → Type 0
  IsPlaced p = (os.is_relative p ≡ false) ⊎ (os.is_empty p ≡ true)

  -- Appending to an absolute path and normalizing gives an absolute path.
  abbrev pub AppendsAbsolute : Type 0
  AppendsAbsolute =
      (base p : FsPath)
      → os.is_relative base ≡ false
      → os.is_relative (os.lexically_normal (os.append base p)) ≡ false

  make_absolute-IsPlaced :
      AppendsAbsolute
      → (base p : FsPath) → os.is_relative base ≡ false
      → os.is_empty base ≡ false
      → IsPlaced (make_absolute os base p)
  make_absolute-IsPlaced law base p abs set = elim (Bool-cases (os.is_empty p)) [
    | inl e ↦ rw e (inr e)
    | inr n ↦ elim (Bool-cases (os.is_relative p)) [
      | inl r ↦ rw n (rw r (rw set (inl (law base p abs))))
      | inr a ↦ rw n (rw a (inl a))
    ]
  ]

  resolve-IsPlaced :
      AppendsAbsolute
      → (p : Paths FsPath) → os.is_relative p.base_dir ≡ false
      → os.is_empty p.base_dir ≡ false
      → All IsPlaced (dirs os (resolve_relative_paths os p))
  unfolding resolve_relative_paths
  resolve-IsPlaced law p abs set = (
    make_absolute-IsPlaced law p.base_dir p.extensions_dir abs set,
    (
      make_absolute-IsPlaced law p.base_dir p.configs_dir abs set,
      (
        make_absolute-IsPlaced law p.base_dir p.data_dir abs set,
        (
          make_absolute-IsPlaced law p.base_dir p.logs_dir abs set,
          (make_absolute-IsPlaced law p.base_dir p.cache_dir abs set, tt),
        ),
      ),
    ),
  )

  checked_built :
      (v : Validated FsPath) (f c : Config FsPath)
      → checked os v f ≡ built c
      → (v ≡ valid) × (f ≡ c)
  checked_built valid f c e = (refl, cc e)
  checked_built base_dir_not_set f c e = absurd (cc e)
  checked_built (same_directories i j p) f c e = absurd (cc e)

  module _ (load : FsPath → Option (Config FsPath)) (b : PlugifyBuilder FsPath) where
    abbrev pub with_defaults : Option (Config FsPath) → Option (Config FsPath)
    with_defaults none = none
    with_defaults (some c) = some (merge_from os c file_source (default_config os))

    -- The defaults with the configuration of the file, if there is one.
    abbrev pub from_file : Option FsPath → Option (Config FsPath)
    from_file none = some (default_config os)
    from_file (some path) = with_defaults (load path)

    from_config_file_built :
        (path : Option FsPath) (c : Config FsPath)
        → from_config_file os load b path ≡ built c
        → (start : Config FsPath) × (from_file path ≡ some start) × (finish os b start ≡ built c)
    unfolding default_config
    from_config_file_built none c e = (default_config os, refl, e)
    from_config_file_built (some path) c e = elim (Option-cases (load path)) [
      | inl missing ↦ absurd (cc (rw missing at e))
      | inr (d, found) ↦
          (merge_from os d file_source (default_config os), rw found refl, rw found at e)
    ]

    combine-IsPlaced :
        AppendsAbsolute
        → (start : Config FsPath) → os.is_relative (combine os b start).paths.base_dir ≡ false
        → os.is_empty (combine os b start).paths.base_dir ≡ false
        → All IsPlaced (dirs os (combine os b start).paths)
    unfolding combine
    combine-IsPlaced law start abs set =
        resolve-IsPlaced law (ensure_base_dir os (override os b start)).paths abs set

    pub build_built :
        (c : Config FsPath)
        → build os load b ≡ built c
        → (start : Config FsPath) × (from_file b.config_file_path ≡ some start)
          × (combine os b start ≡ c)
          × (validate os c ≡ valid)
    unfolding build validate
    build_built c e =
        (let h = from_config_file_built b.config_file_path c e in
          let k = checked_built (validate os (combine os b h.0)) (combine os b h.0) c h.2 in
          (h.0, h.1, k.1, subst (λ x. validate os x ≡ valid) k.1 k.0))

    -- If `Build` succeeds with a base directory that is absolute, and appending to an absolute path gives an
    -- absolute one, then the base directory is set, no two of the five directories are the same, and
    -- each of them is absolute or empty: `Build` accepts an empty path.
    pub build-IsPlaced :
        AppendsAbsolute
        → (c : Config FsPath) → build os load b ≡ built c
        → os.is_relative c.paths.base_dir ≡ false
        → (os.is_empty c.paths.base_dir ≡ false)
          × Apart os (dirs os c.paths)
          × All IsPlaced (dirs os c.paths)
    build-IsPlaced law c e abs =
        (let h = build_built c e in
          let v = (validate-Apart os c).0 h.3 in
          let placed =
            subst
              (λ x.
                os.is_relative x.paths.base_dir ≡ false
                → os.is_empty x.paths.base_dir ≡ false
                → All IsPlaced (dirs os x.paths))
              h.2 (combine-IsPlaced law h.0) in
          (v.0, v.1, placed abs v.0))
