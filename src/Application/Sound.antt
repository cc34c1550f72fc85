-- ===== src/Application/Sound.antt =====
-- When `CheckDirectories` succeeds, and with it `Initialize`.
use Prim.Native.String.{String}
use plugify.Prelude.{◌≡◌, ◌↔◌, refl, true, false, List, [], ◌∷◌, map, All, All-map_of}
use plugify.Config.{Platform, Paths, Config}
use plugify.Application.{
  validation, Disk, PathValidation, ValidationResult, paths_to_validate, overlap, check_paths,
  check_directories, skip_base, Application,
}
use plugify.Application.Checks.{Good, paths-Clean, Free, AllFree, collisions-Clean}

module _ {World FsPath : Type 0} (os : Platform FsPath) (fs : Disk World FsPath) where
  -- No path of the list is another one of it, or above it.
  abbrev pub Separate : List FsPath → Type 0
  Separate [] = Unit
  Separate (p ∷ ps) = All (λ q. overlap (os.elements p) (os.elements q) ≡ false) ps × Separate ps

  abbrev pub dirs : Paths FsPath → List FsPath
  dirs p = p.extensions_dir ∷ p.configs_dir ∷ p.data_dir ∷ p.logs_dir ∷ p.cache_dir ∷ []

  -- The six paths are set and normalized, the base directory exists, and the five others are apart.
  pub record IsSound (w : World) (p : Paths FsPath) : Type 0 where
    pub configured : All (λ q. os.is_empty q ≡ false) (p.base_dir ∷ dirs p)
    pub normalized : All (λ q. os.equal (os.lexically_normal q) q ≡ true) (p.base_dir ∷ dirs p)
    pub base_exists : fs.is_exists w p.base_dir ≡ true
    pub separate : Separate (dirs p)

  abbrev path_of_validation : PathValidation FsPath → FsPath
  path_of_validation v = v.path

  Free-Separate :
      (v : PathValidation FsPath) (us : List (PathValidation FsPath))
      → All (λ u. os.is_empty u.path ≡ false) us
      → All (Free os fs v) us
        ↔ All
            (λ q. overlap (os.elements v.path) (os.elements q) ≡ false)
            (map path_of_validation us)
  Free-Separate v [] c = ((λ h. tt), λ h. tt)
  Free-Separate v (u ∷ us) (c, cs) =
      (let rest = Free-Separate v us cs in
        ((λ h. (h.0 c, rest.0 h.1)), λ h. ((λ x. h.0), rest.1 h.1)))

  All-Separate :
      (vs : List (PathValidation FsPath))
      → All (λ u. os.is_empty u.path ≡ false) vs
      → AllFree os fs vs ↔ Separate (map path_of_validation vs)
  unfolding AllFree
  All-Separate [] c = ((λ h. tt), λ h. tt)
  All-Separate (v ∷ vs) (c, cs) =
      (let first = Free-Separate v vs cs in
        let rest = All-Separate vs cs in
        ((λ h. (first.0 (h.0 c), rest.0 h.1)), λ h. ((λ x. first.1 h.0), rest.1 h.1)))

  dir-Good :
      (w : World) (name : String) (p : FsPath)
      → os.is_empty p ≡ false
      → os.equal (os.lexically_normal p) p ≡ true
      → Good os fs w (validation name p)
  dir-Good w name p c n = record {
    configured = c;
    normal = n;
    relative = λ x. absurd (cc x);
    exists = λ x. absurd (cc x);
  }

  All-Good : (w : World) (p : Paths FsPath) → IsSound w p → All (Good os fs w) (paths_to_validate p)
  All-Good w p s =
      (let (c0, (c1, (c2, (c3, (c4, (c5, _)))))) = s.configured in
        let (n0, (n1, (n2, (n3, (n4, (n5, _)))))) = s.normalized in
        (
          record {
            configured = c0;
            normal = n0;
            relative = λ x. absurd (cc x);
            exists = λ x. s.base_exists;
          },
          (
            dir-Good w _ _ c1 n1,
            (
              dir-Good w _ _ c2 n2,
              (dir-Good w _ _ c3 n3, (dir-Good w _ _ c4 n4, (dir-Good w _ _ c5 n5, tt))),
            ),
          ),
        ))

  -- `CheckDirectories` finds no error exactly if the six paths are set and normalized, the base
  -- directory exists, and no other directory is or is above another of the five.
  pub check_directories-IsSound :
      (w : World) (c : Config FsPath) → (check_directories os fs w c ≡ true) ↔ IsSound w c.paths
  unfolding check_directories
  check_directories-IsSound w c =
      (let vs = paths_to_validate c.paths in
        let start : ValidationResult = record { errors = []; warnings = [] } in
        let paths = paths-Clean os fs w vs start in
        let others = skip_base os fs vs in
        let collisions = collisions-Clean os fs others (check_paths os fs w vs start) in
        (
          (λ h.
              (let k = collisions.0 h in
                let good = (paths.0 k.0).1 in
                let set =
                  All-map_of (Good os fs w) (λ v. os.is_empty v.path ≡ false) (λ v x. x.configured)
                    vs good in
                record {
                  configured = set;
                  normalized =
                      All-map_of (Good os fs w)
                        (λ v. os.equal (os.lexically_normal v.path) v.path ≡ true) (λ v x. x.normal)
                        vs good;
                  base_exists = good.0.exists refl;
                  separate = (All-Separate others set.1).0 k.1;
                })),
          λ s.
              (let good = All-Good w c.paths s in
                collisions.1
                  (paths.1 (refl, good), (All-Separate others s.configured.1).1 s.separate)),
        ))
