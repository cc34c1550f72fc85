-- ===== src/Config/Build/Precedence.antt =====
-- Where the base directory of a built configuration comes from.
use plugify.Prelude.{
  ◌≡◌, ◌≤◌, refl, sym, ◌∙◌, ap, subst, inl, inr, Bool, true, false, ◌||◌, not, Option, none, some,
  Bool-cases, List, [], ◌∷◌, ◌++◌, arith, if◌then◌else◌,
}
use plugify.Config.{
  ConfigSource, file_source, builder_source, override_source, rank, Platform, Config,
  default_config, resolve_relative_paths,
}
use plugify.Config.Merge.{merge_from, customizes_paths, take_paths}
use plugify.Config.Merge.Section.{section-taken, section-Moves, Moves-rank}
use plugify.Config.Build.{
  PlugifyBuilder, built, ensure_base_dir, override, resolve_config, combine, build,
}
use plugify.Config.Build.Final.{with_defaults, from_file, build_built}

module _ {FsPath : Type 0} (os : Platform FsPath) where
  -- The first of the paths that is not empty.
  abbrev pub first_set : List FsPath → FsPath → FsPath
  first_set [] last = last
  first_set (p ∷ ps) last = if os.is_empty p then first_set ps last else p

  abbrev pub base_if : Bool → Config FsPath → List FsPath
  base_if true c = c.paths.base_dir ∷ []
  base_if false c = []

  merge_from-rank :
      (o : Config FsPath) (s : ConfigSource) (c : Config FsPath)
      → rank c.sources.paths ≤ rank s
      → rank (merge_from os o s c).sources.paths ≤ rank s
  unfolding merge_from
  merge_from-rank o s c h =
      Moves-rank
        (section-Moves (customizes_paths os) (take_paths os) s o.paths c.paths c.sources.paths) h

  merge_from-base :
      (o : Config FsPath) (s : ConfigSource) (c : Config FsPath)
      → rank c.sources.paths ≤ rank s
      → (merge_from os o s c).paths.base_dir
        ≡ (if os.is_empty o.paths.base_dir then c.paths.base_dir else o.paths.base_dir)
  unfolding merge_from resolve_relative_paths
  merge_from-base o s c h =
      ap (λ p. p.base_dir)
        (section-taken (customizes_paths os) (take_paths os) s o.paths c.paths c.sources.paths h)
      ∙ by_test (os.is_empty o.paths.base_dir)
    where
      by_test :
          (b : Bool)
          → (if not b then o.paths.base_dir else c.paths.base_dir)
            ≡ (if b then c.paths.base_dir else o.paths.base_dir)
      by_test true = refl
      by_test false = refl

  first_set-append :
      (xs ys : List FsPath) (z : FsPath) → first_set xs (first_set ys z) ≡ first_set (xs ++ ys) z
  first_set-append [] ys z = refl
  first_set-append (x ∷ xs) ys z =
      ap (λ p. if os.is_empty x then p else x) (first_set-append xs ys z)

  -- A missing base directory is replaced by another path.
  first_set-last :
      (xs : List FsPath) (z last : FsPath)
      → os.is_empty z ≡ true
      → (if os.is_empty (first_set xs z) then last else first_set xs z) ≡ first_set xs last
  first_set-last [] z last e = rw e refl
  first_set-last (x ∷ xs) z last e = elim (Bool-cases (os.is_empty x)) [
    | inl i ↦ rw i (first_set-last xs z last e)
    | inr n ↦ rw n (rw n refl)
  ]

  merge_if :
      (flag : Bool) (o : Config FsPath) (s : ConfigSource) (c : Config FsPath)
      → rank c.sources.paths ≤ rank s
      → (if flag then merge_from os o s c else c).paths.base_dir
        ≡ first_set (base_if flag o) c.paths.base_dir
  merge_if true o s c h = merge_from-base o s c h
  merge_if false o s c h = refl

  merge_if-rank :
      (flag : Bool) (o : Config FsPath) (s : ConfigSource) (c : Config FsPath)
      → rank c.sources.paths ≤ rank s
      → rank (if flag then merge_from os o s c else c).sources.paths ≤ rank s
  merge_if-rank true o s c h = merge_from-rank o s c h
  merge_if-rank false o s c h = h

  some_injective : {x y : Config FsPath} → some x ≡ some y → x ≡ y
  some_injective e = cc e

  module _ (b : PlugifyBuilder FsPath) where
    abbrev pub has_override : Bool
    has_override = b.has_base_dir_override || b.has_paths_override

    override-base :
        (start : Config FsPath)
        → rank start.sources.paths ≤ 1
        → (override os b start).paths.base_dir
          ≡ first_set
              (base_if has_override b.config_overrides)
              (first_set (base_if b.has_base_config b.base_config) start.paths.base_dir)
    unfolding override
    override-base start h =
        merge_if has_override b.config_overrides override_source
          (if b.has_base_config then merge_from os b.base_config builder_source start else start)
          (omega (
            arith,
            merge_if-rank b.has_base_config b.base_config builder_source start (omega (arith, h)),
          ))
        ∙ ap (first_set (base_if has_override b.config_overrides))
            (merge_if b.has_base_config b.base_config builder_source start (omega (arith, h)))

    ensure-base :
        (c : Config FsPath)
        → (resolve_config os (ensure_base_dir os c)).paths.base_dir
          ≡ (if os.is_empty c.paths.base_dir then os.current_path else c.paths.base_dir)
    unfolding resolve_relative_paths
    ensure-base c = by_test (os.is_empty c.paths.base_dir)
      where
        by_test :
            (e : Bool)
            → (if e
                then record c { paths = record c.paths { base_dir = os.current_path } }
                else c).paths.base_dir
              ≡ (if e then os.current_path else c.paths.base_dir)
        by_test true = refl
        by_test false = refl

    module _ (load : FsPath → Option (Config FsPath)) where
      abbrev pub loaded_base : Option (Config FsPath) → List FsPath
      loaded_base none = []
      loaded_base (some c) = c.paths.base_dir ∷ []

      -- The base directory that the file gives.
      abbrev pub file_base : Option FsPath → List FsPath
      file_base none = []
      file_base (some path) = loaded_base (load path)

      with_defaults-base :
          (o : Option (Config FsPath)) (start : Config FsPath)
          → with_defaults os load b o ≡ some start
          → (start.paths.base_dir ≡ first_set (loaded_base o) (os.path_of ""))
            × (rank start.sources.paths ≤ 1)
      unfolding default_config
      with_defaults-base none start e = absurd (cc e)
      with_defaults-base (some c) start e =
          subst
            (λ x.
              (x.paths.base_dir ≡ first_set (loaded_base (some c)) (os.path_of ""))
              × (rank x.sources.paths ≤ 1))
            (some_injective e)
            (
              merge_from-base c file_source (default_config os) (omega arith),
              merge_from-rank c file_source (default_config os) (omega arith),
            )

      from_file-base :
          (path : Option FsPath) (start : Config FsPath)
          → from_file os load b path ≡ some start
          → (start.paths.base_dir ≡ first_set (file_base path) (os.path_of ""))
            × (rank start.sources.paths ≤ 1)
      unfolding default_config
      from_file-base none start e =
          subst (λ x. (x.paths.base_dir ≡ os.path_of "") × (rank x.sources.paths ≤ 1))
            (some_injective e) (refl, omega arith)
      from_file-base (some path) start e = with_defaults-base (load path) start e

      -- The base directory of the configuration that `Build` gives is the first that is set of these:
      -- the one of the overrides, if `WithBaseDir` or `WithPaths` was called, the one of the base
      -- configuration, if there is one, the one of the file, if there is one, and the current
      -- directory.
      pub build-base_dir :
          os.is_empty (os.path_of "") ≡ true
          → (c : Config FsPath) → build os load b ≡ built c
          → c.paths.base_dir
            ≡ first_set
                (base_if has_override b.config_overrides
                  ++ (base_if b.has_base_config b.base_config ++ file_base b.config_file_path))
                os.current_path
      unfolding combine
      build-base_dir law c e =
          (let h = build_built os load b c e in
            let based = base_if b.has_base_config b.base_config in
            let files = file_base b.config_file_path in
            let file = from_file-base b.config_file_path h.0 h.1 in
            let found =
              override-base h.0 file.1
              ∙ (ap
                    (λ p.
                      first_set (base_if has_override b.config_overrides)
                        (first_set (base_if b.has_base_config b.base_config) p))
                    file.0
                  ∙ (ap (first_set (base_if has_override b.config_overrides))
                        (first_set-append based files (os.path_of ""))
                      ∙ first_set-append (base_if has_override b.config_overrides) (based ++ files)
                          (os.path_of ""))) in
            ap (λ x. x.paths.base_dir) (sym h.2)
            ∙ (ensure-base (override os b h.0)
                ∙ (rw found (
                    first_set-last (base_if has_override b.config_overrides ++ (based ++ files))
                      (os.path_of "") os.current_path law))))
