-- ===== src/Loader/Matching.antt =====
-- What a successful `LoadPlugin` says of the methods that the language module hands over.
use plugify.Prelude.{
  ℕ, suc, ◌≡◌, refl, Bool, true, Option, none, some, List, [], ◌∷◌, map, length, All, ◌==◌, ==_iff,
  arith, Bool-cases, inl, inr,
}
use plugify.Extension.State.{plugin_type}
use plugify.Extension.Core.{
  Extension, Result, ok, err, get_methods, get_methods_data, set_methods_data,
}
use plugify.Loader.Host.{Host, Loader, LoadData}
use plugify.Loader.Plugin.{
  is_invalid, invalid_numbers, keep_data, validate_and_set_plugin_data, keep_loaded,
  load_plugin_body, load_plugin,
}

-- The loaded methods are the manifest's, in order, and each has an address.
abbrev pub Matches : List (ℕ × Bool) → List ℕ → Type 0
Matches loaded exported = (map (λ m. m.0) loaded ≡ exported) × All (λ m. m.1 ≡ true) loaded

invalid_numbers-Matches :
    (i : ℕ) (loaded : List (ℕ × Bool)) (exported : List ℕ)
    → length loaded ≡ length exported
    → invalid_numbers i loaded exported ≡ []
    → Matches loaded exported
unfolding invalid_numbers
invalid_numbers-Matches i [] [] n h = (refl, tt)
invalid_numbers-Matches i [] (e ∷ es) n h = absurd (omega arith)
invalid_numbers-Matches i (m ∷ ms) [] n h = absurd (omega arith)
invalid_numbers-Matches i ((k, a) ∷ ms) (e ∷ es) n h = elim (Bool-cases (is_invalid (k, a) e)) [
  | inl y ↦ absurd (cc (rw y at h))
  | inr y ↦
      let (p, q) = invalid_numbers-Matches (suc i) ms es (omega arith) (rw y at h) in
      let same : k ≡ e = (==_iff k e).0 (ground arith) in (rw (same, p) refl, (ground arith, q))
]

keep_data-Matches :
    (x : Extension) (d : LoadData) (ns : List ℕ)
    → x.type ≡ plugin_type
    → (keep_data ns d x).1 ≡ ok tt
    → (ns ≡ []) × (get_methods_data (keep_data ns d x).0 ≡ d.methods)
unfolding set_methods_data get_methods_data
keep_data-Matches x d [] t r = (refl, simp t refl)
keep_data-Matches x d (n ∷ ns) t r = absurd (cc r)

validate-Matches :
    (x : Extension) (d : LoadData)
    → x.type ≡ plugin_type
    → (validate_and_set_plugin_data d x).1 ≡ ok tt
    → Matches (get_methods_data (validate_and_set_plugin_data d x).0) (get_methods x)
unfolding validate_and_set_plugin_data
validate-Matches x d t r = elim (Bool-cases (length d.methods == length (get_methods x))) [
  | inr y ↦ absurd (cc (rw y at r))
  | inl y ↦
      let (e, m) =
        keep_data-Matches x d (invalid_numbers 0 d.methods (get_methods x)) t (rw y at r) in
      rw (y, m) (invalid_numbers-Matches 0 d.methods (get_methods x) ((==_iff _ _).0 y) e)
]

keep_loaded-Matches :
    (r : Result LoadData) (l : Loader) (x : Extension)
    → x.type ≡ plugin_type
    → (keep_loaded r l x).2 ≡ ok tt
    → Matches (get_methods_data (keep_loaded r l x).1) (get_methods x)
keep_loaded-Matches (err m) l x t r = absurd (cc r)
keep_loaded-Matches (ok d) l x t r = validate-Matches x d t r

load_plugin_body-Matches :
    (h : Host) (m : Option ℕ) (l : Loader) (x : Extension)
    → x.type ≡ plugin_type
    → (load_plugin_body h m l x).2 ≡ ok tt
    → Matches (get_methods_data (load_plugin_body h m l x).1) (get_methods x)
unfolding load_plugin_body get_methods
load_plugin_body-Matches h none l x t r = absurd (cc r)
load_plugin_body-Matches h (some m) l x t r =
    keep_loaded-Matches _ _ (record x { language_module = some m }) t r

-- `LoadPlugin` on a plugin succeeds only if the language module has handed over exactly the methods of
-- the plugin's manifest, in their order, each with an address that is not null; and these are the
-- methods that the plugin has afterwards.
pub load_plugin-Matches :
    (h : Host) (mod_ext : Extension) (l : Loader) (x : Extension)
    → x.type ≡ plugin_type
    → (load_plugin h mod_ext l x).2 ≡ ok tt
    → Matches (get_methods_data (load_plugin h mod_ext l x).1) (get_methods x)
unfolding load_plugin
load_plugin-Matches h mod_ext l x t r = load_plugin_body-Matches h mod_ext.language_module l x t r
