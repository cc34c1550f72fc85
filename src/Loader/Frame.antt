-- ===== src/Loader/Frame.antt =====
-- What the loader leaves alone: the operations write an extension's pointers, table and data only.
use plugify.Prelude.{
  ℕ, ◌≡◌, refl, Option, none, some, List, [], ◌∷◌, arith, length, ◌==◌, Bool-cases, inl, inr,
}
use plugify.Extension.Core.{
  Extension, MethodTable, Result, ok, err, set_assembly, set_methods_data, get_methods,
}
use plugify.Loader.Host.{Host, Loader, LoadData}
use plugify.Loader.Module.{
  load_module, load_module_body, load_language_module, load_from_symbol, load_from_assembly,
  get_or_load_assembly, keep_module, unload_module,
}
use plugify.Loader.Plugin.{
  load_plugin, load_plugin_body, keep_loaded, keep_data, validate_and_set_plugin_data,
  unload_plugin,
}

-- The parts of an extension that the stages decide by.
pub record SameCore (x y : Extension) : Type 0 where
  pub same_id : y.id ≡ x.id
  pub same_type : y.type ≡ x.type
  pub same_state : y.state ≡ x.state
  pub same_name : y.name ≡ x.name
  pub same_language : y.language ≡ x.language
  pub same_asserts : y.asserts_hold ≡ x.asserts_hold

pub SameCore-refl : (x : Extension) → SameCore x x
SameCore-refl x = record {
  same_id = refl;
  same_type = refl;
  same_state = refl;
  same_name = refl;
  same_language = refl;
  same_asserts = refl;
}

keep_module-SameCore :
    (m a : ℕ) (r : Result MethodTable) (x : Extension) → SameCore x (keep_module m a r x).0
unfolding set_assembly
keep_module-SameCore m a (err e) x = SameCore-refl x
keep_module-SameCore m a (ok t) x = ground arith

load_from_symbol-SameCore :
    (h : Host) (r : Result (Option ℕ)) (a : ℕ) (l : Loader) (x : Extension)
    → SameCore x (load_from_symbol h r a l x).1
load_from_symbol-SameCore h (err m) a l x = SameCore-refl x
load_from_symbol-SameCore h (ok none) a l x = SameCore-refl x
load_from_symbol-SameCore h (ok (some m)) a l x = keep_module-SameCore m a _ x

load_from_assembly-SameCore :
    (h : Host) (r : Result ℕ) (l : Loader) (x : Extension)
    → SameCore x (load_from_assembly h r l x).1
unfolding load_language_module
load_from_assembly-SameCore h (err m) l x = SameCore-refl x
load_from_assembly-SameCore h (ok a) l x =
    load_from_symbol-SameCore h (h.get_language_module a) a l x

-- `LoadModule` keeps what the stages decide by.
pub load_module-SameCore :
    (h : Host) (l : Loader) (x : Extension) → SameCore x (load_module h l x).1
unfolding load_module load_module_body
load_module-SameCore h l x =
    load_from_assembly-SameCore h (get_or_load_assembly h x.runtime l).1 _ x

keep_data-SameCore :
    (ns : List ℕ) (d : LoadData) (x y : Extension) → SameCore x y → SameCore x (keep_data ns d y).0
unfolding set_methods_data
keep_data-SameCore [] d x y s = ground arith
keep_data-SameCore (n ∷ ns) d x y s = s

validate-SameCore :
    (d : LoadData) (x y : Extension)
    → SameCore x y
    → SameCore x (validate_and_set_plugin_data d y).0
unfolding validate_and_set_plugin_data
validate-SameCore d x y s = elim (Bool-cases (length d.methods == length (get_methods y))) [
  | inl e ↦ rw e (keep_data-SameCore _ d x y s)
  | inr e ↦ rw e s
]

keep_loaded-SameCore :
    (r : Result LoadData) (l : Loader) (x y : Extension)
    → SameCore x y
    → SameCore x (keep_loaded r l y).1
keep_loaded-SameCore (err m) l x y s = s
keep_loaded-SameCore (ok d) l x y s = validate-SameCore d x y s

load_plugin_body-SameCore :
    (h : Host) (m : Option ℕ) (l : Loader) (x : Extension) → SameCore x (load_plugin_body h m l x).1
unfolding load_plugin_body
load_plugin_body-SameCore h none l x = SameCore-refl x
load_plugin_body-SameCore h (some m) l x = keep_loaded-SameCore _ _ x _ (record {
  same_id = refl;
  same_type = refl;
  same_state = refl;
  same_name = refl;
  same_language = refl;
  same_asserts = refl;
})

pub load_plugin-SameCore :
    (h : Host) (mod_ext : Extension) (l : Loader) (x : Extension)
    → SameCore x (load_plugin h mod_ext l x).1
unfolding load_plugin
load_plugin-SameCore h mod_ext l x = load_plugin_body-SameCore h mod_ext.language_module l x

pub unload_module-SameCore :
    (h : Host) (l : Loader) (x : Extension) → SameCore x (unload_module h l x).1
unfolding unload_module set_assembly
unload_module-SameCore h l x = ground arith

pub unload_plugin-SameCore : (l : Loader) (x : Extension) → SameCore x (unload_plugin l x).1
unfolding unload_plugin set_methods_data
unload_plugin-SameCore l x = ground arith
