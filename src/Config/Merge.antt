-- ===== src/Config/Merge.antt =====
-- src/core/config.cpp: `MergeFrom`, section by section, and `MergeField`.
pub mod Section
pub mod Sources
use Prim.Native.String.{String}
use plugify.Prelude.{
  ℕ, Bool, true, false, ◌&&◌, ◌||◌, not, List, [], ◌∷◌, leb, if◌then◌else◌, any_of,
}
use text.Mathlib.Text.{◌==◌ as str_eq}
use plugify.Config.{
  ConfigSource, default_source, file_source, builder_source, override_source, rank, Platform,
  SourceTracking, Paths, Loading, Security, Logging, Config, has_custom_extensions_dir,
  has_custom_configs_dir, has_custom_data_dir, has_custom_logs_dir, has_custom_cache_dir,
  resolve_relative_paths, has_excluded, has_custom_severity, has_export_path,
  has_custom_max_concurrent_loads, has_custom_load_timeout, has_custom_export_timeout,
  has_custom_start_timeout, has_whitelist, has_blacklist,
}

-- A section with its source.
abbrev pub Sourced : Type 0 → Type 0
Sourced A = A × ConfigSource

-- What the four sections have in common: the test of the source, and the flag that it changed.
abbrev pub merge_section :
    {A : Type 0} → (A → Bool) → (A → A → A) → ConfigSource → A → Sourced A → Sourced A
merge_section customizes take source other (own, tracked) =
    if leb (rank tracked) (rank source)
    then (take other own, if customizes other then source else tracked)
    else (own, tracked)

-- The elements of a second set are inserted into a first one.
abbrev pub insert : {A : Type 0} → (A → A → Bool) → A → List A → List A
insert same x xs = if any_of (λ y. same x y) xs then xs else x ∷ xs

unfoldable pub insert_range : {A : Type 0} → (A → A → Bool) → List A → List A → List A
insert_range same [] own = own
insert_range same (x ∷ xs) own = insert_range same xs (insert same x own)

abbrev pub is_override : ConfigSource → Bool
is_override override_source = true
is_override default_source = false
is_override file_source = false
is_override builder_source = false

-- An override replaces a set; any other source adds to it.
abbrev pub merge_set : {A : Type 0} → (A → A → Bool) → ConfigSource → List A → List A → List A
merge_set same source other own = if is_override source then other else insert_range same other own

abbrev pub customizes_loading : Loading → Bool
customizes_loading l =
    l.prefer_own_symbols
    || (has_custom_max_concurrent_loads l
        || (has_custom_load_timeout l
            || (has_custom_export_timeout l || has_custom_start_timeout l)))

abbrev pub take_loading : Loading → Loading → Loading
take_loading other own = record {
  prefer_own_symbols =
      if other.prefer_own_symbols then other.prefer_own_symbols else own.prefer_own_symbols;
  max_concurrent_loads =
      if has_custom_max_concurrent_loads other
      then other.max_concurrent_loads
      else own.max_concurrent_loads;
  load_timeout = if has_custom_load_timeout other then other.load_timeout else own.load_timeout;
  export_timeout =
      if has_custom_export_timeout other then other.export_timeout else own.export_timeout;
  start_timeout = if has_custom_start_timeout other then other.start_timeout else own.start_timeout;
}

module _ {FsPath : Type 0} (os : Platform FsPath) where
  abbrev pub customizes_paths : Paths FsPath → Bool
  customizes_paths p =
      not (os.is_empty p.base_dir)
      || (has_custom_extensions_dir os p
          || (has_custom_configs_dir os p
              || (has_custom_data_dir os p
                  || (has_custom_logs_dir os p || has_custom_cache_dir os p))))

  abbrev pub take_paths : Paths FsPath → Paths FsPath → Paths FsPath
  take_paths other own = record {
    base_dir = if not (os.is_empty other.base_dir) then other.base_dir else own.base_dir;
    extensions_dir =
        if has_custom_extensions_dir os other then other.extensions_dir else own.extensions_dir;
    configs_dir = if has_custom_configs_dir os other then other.configs_dir else own.configs_dir;
    data_dir = if has_custom_data_dir os other then other.data_dir else own.data_dir;
    logs_dir = if has_custom_logs_dir os other then other.logs_dir else own.logs_dir;
    cache_dir = if has_custom_cache_dir os other then other.cache_dir else own.cache_dir;
  }

  abbrev pub customizes_security : Security FsPath → Bool
  customizes_security s = has_whitelist s || (has_blacklist s || has_excluded os s)

  abbrev pub take_security : ConfigSource → Security FsPath → Security FsPath → Security FsPath
  take_security source other own = record {
    whitelisted_extensions =
        if has_whitelist other
        then merge_set str_eq source other.whitelisted_extensions own.whitelisted_extensions
        else own.whitelisted_extensions;
    blacklisted_extensions =
        if has_blacklist other
        then merge_set str_eq source other.blacklisted_extensions own.blacklisted_extensions
        else own.blacklisted_extensions;
    excluded_dirs =
        if has_excluded os other
        then merge_set os.equal source other.excluded_dirs own.excluded_dirs
        else own.excluded_dirs;
  }

  abbrev pub customizes_logging : Logging FsPath → Bool
  customizes_logging l =
      has_custom_severity os l
      || (l.print_report
          || (l.print_load_order
              || (l.print_dependency_graph || (l.print_digraph_dot || has_export_path os l))))

  abbrev pub take_logging : Logging FsPath → Logging FsPath → Logging FsPath
  take_logging other own = record {
    severity = if has_custom_severity os other then other.severity else own.severity;
    print_report = if other.print_report then other.print_report else own.print_report;
    print_load_order =
        if other.print_load_order then other.print_load_order else own.print_load_order;
    print_dependency_graph =
        if other.print_dependency_graph
        then other.print_dependency_graph
        else own.print_dependency_graph;
    print_digraph_dot =
        if other.print_digraph_dot then other.print_digraph_dot else own.print_digraph_dot;
    export_digraph_dot =
        if has_export_path os other then other.export_digraph_dot else own.export_digraph_dot;
  }

  unfoldable pub merge_from : Config FsPath → ConfigSource → Config FsPath → Config FsPath
  unfolding resolve_relative_paths insert_range
  merge_from other source c =
      let p =
        merge_section (customizes_paths) take_paths source other.paths (c.paths, c.sources.paths) in
      let l =
        merge_section customizes_loading take_loading source other.loading
          (c.loading, c.sources.loading) in
      let s =
        merge_section (customizes_security) (take_security source) source other.security
          (c.security, c.sources.security) in
      let g =
        merge_section (customizes_logging) take_logging source other.logging
          (c.logging, c.sources.logging) in
      record {
        sources = record { paths = p.1; loading = l.1; security = s.1; logging = g.1 };
        paths = resolve_relative_paths os p.0;
        loading = l.0;
        security = s.0;
        logging = g.0;
      }

  abbrev pub replace_section : {A : Type 0} → (A → A) → ConfigSource → A → Sourced A → Sourced A
  replace_section after source other (own, tracked) =
      if leb (rank tracked) (rank source) then (after other, source) else (own, tracked)

  -- A name that is none of the four changes nothing.
  unfoldable pub merge_field : String → Config FsPath → ConfigSource → Config FsPath → Config FsPath
  unfolding resolve_relative_paths
  merge_field field other source c =
      if str_eq field "paths"
      then (let p =
            replace_section (resolve_relative_paths os) source other.paths
              (c.paths, c.sources.paths) in
          record c { paths = p.0; sources = record c.sources { paths = p.1 } })
      else (if str_eq field "loading"
          then (let l =
                replace_section (λ x. x) source other.loading (c.loading, c.sources.loading) in
              record c { loading = l.0; sources = record c.sources { loading = l.1 } })
          else (if str_eq field "security"
              then (let s =
                    replace_section (λ x. x) source other.security
                      (c.security, c.sources.security) in
                  record c { security = s.0; sources = record c.sources { security = s.1 } })
              else (if str_eq field "logging"
                  then (let g =
                        replace_section (λ x. x) source other.logging
                          (c.logging, c.sources.logging) in
                      record c { logging = g.0; sources = record c.sources { logging = g.1 } })
                  else c)))
