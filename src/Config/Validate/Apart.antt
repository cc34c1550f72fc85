-- ===== src/Config/Validate/Apart.antt =====
-- What a valid configuration is.
use Prim.Native.String.{String}
use plugify.Prelude.{◌≡◌, ◌↔◌, refl, false, List, [], ◌∷◌, All, Bool-cases, inl, inr}
use plugify.Config.{Platform, Paths, Config}
use plugify.Config.Validate.{Validated, valid, named_dirs, compare_dir, compare_dirs, validate}

module _ {FsPath : Type 0} (os : Platform FsPath) where
  -- No two paths of the list are the same.
  abbrev pub Apart : List FsPath → Type 0
  Apart [] = Unit
  Apart (p ∷ ps) = All (λ q. os.equal p q ≡ false) ps × Apart ps

  abbrev pub dirs : Paths FsPath → List FsPath
  dirs p = p.extensions_dir ∷ p.configs_dir ∷ p.data_dir ∷ p.logs_dir ∷ p.cache_dir ∷ []

  ApartNamed : List (String × FsPath) → Type 0
  ApartNamed [] = Unit
  ApartNamed (d ∷ ds) = All (λ e. os.equal d.1 e.1 ≡ false) ds × ApartNamed ds

  compare_dir_iff :
      (d : String × FsPath) (ds : List (String × FsPath)) (rest : Validated FsPath)
      → (compare_dir os d ds rest ≡ valid)
        ↔ (All (λ e. os.equal d.1 e.1 ≡ false) ds × (rest ≡ valid))
  unfolding compare_dir
  compare_dir_iff d [] rest = ((λ e. (tt, e)), λ h. h.1)
  compare_dir_iff (i, p) ((j, q) ∷ ds) rest = elim (Bool-cases (os.equal p q)) [
    | inl e ↦ ((λ h. absurd (cc (rw e at h))), λ h. absurd (cc (e, h.0.0)))
    | inr n ↦
        (let ih = compare_dir_iff (i, p) ds rest in
          ((λ h. (let k = ih.0 (rw n at h) in ((n, k.0), k.1))), λ h. rw n (ih.1 (h.0.1, h.1))))
  ]

  compare_dirs_iff : (ds : List (String × FsPath)) → (compare_dirs os ds ≡ valid) ↔ ApartNamed ds
  unfolding compare_dirs ApartNamed
  compare_dirs_iff [] = ((λ e. tt), λ h. refl)
  compare_dirs_iff (d ∷ ds) =
      (let first = compare_dir_iff d ds (compare_dirs os ds) in
        let rest = compare_dirs_iff ds in
        ((λ h. (let k = first.0 h in (k.0, rest.0 k.1))), λ h. first.1 (h.0, rest.1 h.1)))

  -- `Validate` succeeds exactly if the base directory is set and no two of the five directories are
  -- the same path.
  pub validate-Apart :
      (c : Config FsPath)
      → (validate os c ≡ valid) ↔ ((os.is_empty c.paths.base_dir ≡ false) × Apart (dirs c.paths))
  unfolding validate ApartNamed
  validate-Apart c = elim (Bool-cases (os.is_empty c.paths.base_dir)) [
    | inl e ↦ ((λ h. absurd (cc (rw e at h))), λ h. absurd (cc (e, h.0)))
    | inr n ↦
        (let all = compare_dirs_iff (named_dirs c.paths) in
          ((λ h. (n, all.0 (rw n at h))), λ h. rw n (all.1 h.1)))
  ]
