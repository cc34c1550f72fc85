-- ===== src/Manager/Search.antt =====
-- src/core/manager.cpp: the search of `DiscoverExtensions` against a tree of directories.
use Prim.Native.String.{String}
use plugify.Prelude.{
  ℕ, zero, suc, ◌+◌, ◌≤◌, ◌-◌, ◌≡◌, refl, sym, ap, ◌∙◌, subst, Option, some, List, [], ◌∷◌, ◌++◌,
  arith, append_assoc, append-nil,
}
use plugify.Extension.State.{ExtensionType}
use plugify.Manager.Discovery.{Entry, manifests, entries_of, pushed_directories, search_directories}

-- Directories with the directories that are searched below them, the first child and the next sibling.
pub data Forest : Type 0 where
  bare : Forest
  tree : String → Forest → Forest → Forest

abbrev pub roots : Forest → List String
roots bare = []
roots (tree d below next) = d ∷ roots next

abbrev pub size : Forest → ℕ
size bare = 0
size (tree d below next) = suc (size below + size next)

module _ (ls : String → Option (List Entry)) (excluded : List String) where
  -- The forest is what the file system shows: under each directory stand those that are to be searched.
  abbrev pub Describes : Forest → Type 0
  Describes bare = Unit
  Describes (tree d below next) =
      (pushed_directories excluded (entries_of (ls d)) ≡ roots below)
      × Describes below
      × Describes next

  -- The manifests of the forest, directory by directory, each before those below it.
  abbrev pub manifests_in : Forest → List (String × ExtensionType)
  manifests_in bare = []
  manifests_in (tree d below next) =
      manifests (entries_of (ls d)) ++ (manifests_in below ++ manifests_in next)

  search-forest :
      (f : Forest) (k : ℕ) (rest : List String) (found : List (String × ExtensionType))
      → Describes f
      → search_directories ls excluded (size f + k) (roots f ++ rest) found
        ≡ search_directories ls excluded k rest (found ++ manifests_in f)
  unfolding search_directories
  search-forest bare k rest found h =
      let fuel_is : 0 + k ≡ k = omega arith in
      rw fuel_is (ap (search_directories ls excluded k rest) (sym (append-nil found)))
  search-forest (tree d below next) k rest found (e, hb, hn) =
      let here = manifests (entries_of (ls d)) in
      let fuel_is : suc (size below + (size next + k)) ≡ suc (size below + size next) + k =
        omega arith in
      let first = search-forest below (size next + k) (roots next ++ rest) (found ++ here) hb in
      let second = search-forest next k rest ((found ++ here) ++ manifests_in below) hn in
      let regroup : ((found ++ here) ++ manifests_in below) ++ manifests_in next
          ≡ found ++ (here ++ (manifests_in below ++ manifests_in next)) =
        append_assoc (found ++ here) (manifests_in below) (manifests_in next)
        ∙ append_assoc found here (manifests_in below ++ manifests_in next) in
      subst
        (λ n.
          search_directories ls excluded n (d ∷ (roots next ++ rest)) found
          ≡ search_directories ls excluded k rest
              (found ++ (here ++ (manifests_in below ++ manifests_in next))))
        fuel_is
        (ap
            (λ ds.
              search_directories ls excluded (size below + (size next + k))
                (ds ++ (roots next ++ rest)) (found ++ here))
            e
          ∙ (first ∙ (second ∙ ap (search_directories ls excluded k rest) regroup)))

  ended :
      (k : ℕ) (found : List (String × ExtensionType))
      → search_directories ls excluded k [] found ≡ some found
  unfolding search_directories
  ended zero found = refl
  ended (suc k) found = refl

  -- If the directories make up a finite forest, then with fuel for each of its directories the search
  -- ends, and finds the manifests of the forest, each directory visited once, before those below it.
  pub search_directories-forest :
      (f : Forest) (fuel : ℕ) (found : List (String × ExtensionType))
      → Describes f
      → size f ≤ fuel
      → search_directories ls excluded fuel (roots f) found ≡ some (found ++ manifests_in f)
  unfolding search_directories
  search_directories-forest f fuel found h n =
      let fuel_is : size f + (fuel - size f) ≡ fuel = omega arith in
      subst (λ n. search_directories ls excluded n (roots f) found ≡ some (found ++ manifests_in f))
        fuel_is
        (ap (λ ds. search_directories ls excluded (size f + (fuel - size f)) ds found)
            (sym (append-nil (roots f)))
          ∙ (search-forest f (fuel - size f) [] found h
              ∙ ended (fuel - size f) (found ++ manifests_in f)))
