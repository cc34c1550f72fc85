-- ===== src/Config/Merge/Sources.antt =====
-- The sources that a configuration has after a sequence of merges.
use plugify.Prelude.{◌≡◌, ◌≤◌, ◌⊎◌, refl, inl, inr, Bool, true, List, [], ◌∷◌, arith, All}
use plugify.Config.{ConfigSource, rank, Platform, Config}
use plugify.Config.Merge.{
  merge_from, customizes_paths, customizes_loading, customizes_security, customizes_logging,
  take_paths, take_loading, take_security, take_logging,
}
use plugify.Config.Merge.Section.{Moves, stays, moves, section-Moves}

abbrev pub Any : {A : Type 0} → (A → Type 0) → List A → Type 0
Any P [] = ⊥
Any P (x ∷ xs) = P x ⊎ Any P xs

abbrev pub Merge : Type 0 → Type 0
Merge FsPath = Config FsPath × ConfigSource

module _ {FsPath : Type 0} where
  -- The source after the merges is the highest of the source before and those of the merges that
  -- customize the section.
  pub record Tracks (customizes : Config FsPath → Bool) (ms : List (Merge FsPath))
      (before after : ConfigSource) : Type 0 where
    pub never_falls : rank before ≤ rank after
    pub bounds : All (λ m. customizes m.0 ≡ true → rank m.1 ≤ rank after) ms
    pub attained : (after ≡ before) ⊎ Any (λ m. (customizes m.0 ≡ true) × (after ≡ m.1)) ms

  Tracks-step :
      (customizes : Config FsPath → Bool) (m : Merge FsPath) (ms : List (Merge FsPath))
      {t u v : ConfigSource}
      → Moves (customizes m.0) m.1 t u
      → Tracks customizes ms u v
      → Tracks customizes (m ∷ ms) t v
  Tracks-step customizes m ms (stays k) h = record {
    never_falls = h.never_falls;
    bounds = ((λ e. omega (arith, k e, h.never_falls)), h.bounds);
    attained = elim h.attained [ inl e ↦ inl e | inr a ↦ inr (inr a) ];
  }
  Tracks-step customizes m ms (moves e k) h = record {
    never_falls = omega (arith, k, h.never_falls);
    bounds = ((λ c. h.never_falls), h.bounds);
    attained = elim h.attained [ inl a ↦ inr (inl (e, a)) | inr a ↦ inr (inr a) ];
  }

module _ {FsPath : Type 0} (os : Platform FsPath) where
  unfoldable pub merge_all : List (Merge FsPath) → Config FsPath → Config FsPath
  merge_all [] c = c
  merge_all (m ∷ ms) c = merge_all ms (merge_from os m.0 m.1 c)

  merge_from-Moves :
      (o : Config FsPath) (s : ConfigSource) (c : Config FsPath)
      → Moves (customizes_paths os o.paths) s c.sources.paths (merge_from os o s c).sources.paths
        × Moves
            (customizes_loading o.loading)
            s
            c.sources.loading
            (merge_from os o s c).sources.loading
        × Moves
            (customizes_security os o.security)
            s
            c.sources.security
            (merge_from os o s c).sources.security
        × Moves
            (customizes_logging os o.logging)
            s
            c.sources.logging
            (merge_from os o s c).sources.logging
  unfolding merge_from
  merge_from-Moves o s c = (
    section-Moves (customizes_paths os) (take_paths os) s o.paths c.paths c.sources.paths,
    section-Moves customizes_loading take_loading s o.loading c.loading c.sources.loading,
    section-Moves (customizes_security os) (take_security os s) s o.security c.security
        c.sources.security,
    section-Moves (customizes_logging os) (take_logging os) s o.logging c.logging c.sources.logging,
  )

  Unmerged : (customizes : Config FsPath → Bool) (t : ConfigSource) → Tracks customizes [] t t
  Unmerged customizes t = record { never_falls = omega arith; bounds = tt; attained = inl refl }

  -- After any sequence of merges, the source that each of the four sections has is the highest of the
  -- one before and the sources of the merges whose configuration customizes that section: it is at
  -- least each of these, and it is one of these.
  pub merge_all-Tracks :
      (ms : List (Merge FsPath)) (c : Config FsPath)
      → Tracks (λ o. customizes_paths os o.paths) ms c.sources.paths (merge_all ms c).sources.paths
        × Tracks
            (λ o. customizes_loading o.loading)
            ms
            c.sources.loading
            (merge_all ms c).sources.loading
        × Tracks
            (λ o. customizes_security os o.security)
            ms
            c.sources.security
            (merge_all ms c).sources.security
        × Tracks
            (λ o. customizes_logging os o.logging)
            ms
            c.sources.logging
            (merge_all ms c).sources.logging
  unfolding merge_all
  merge_all-Tracks [] c = (Unmerged _ _, Unmerged _ _, Unmerged _ _, Unmerged _ _)
  merge_all-Tracks (m ∷ ms) c =
      (let one = merge_from-Moves m.0 m.1 c in
        let rest = merge_all-Tracks ms (merge_from os m.0 m.1 c) in
        (
          Tracks-step _ m ms one.0 rest.0,
          Tracks-step _ m ms one.1 rest.1,
          Tracks-step _ m ms one.2 rest.2,
          Tracks-step _ m ms one.3 rest.3,
        ))
