-- ===== src/Manifest/Linking.antt =====
-- src/core/manifest.cpp: pass two of `Manifest::Resolve`, which puts definitions in place of their names. A
-- table is an association list; its order stands for that of the hash map. A manifest whose linking fails
-- is not used again, so the part of it that was already linked is not returned.
pub mod Linked
pub mod Whole
mod Tests
use Prim.Native.String.{String}
use plugify.Prelude.{ℕ, suc, Option, none, some, List, [], ◌∷◌, map, ◌==◌, if◌then◌else◌}
use plugify.Stages.Shared.{find_text}
use plugify.Manifest.Types.{Definition, absent, named, defined, Property, Method, Heap}
use plugify.Manifest.Checked.{
  Where, scope, at_param, at_return, unknown_definition, Checked, ok, err, ◌>>=◌,
}

pub record TypeTable : Type 0 where
  pub prototypes : List (String × ℕ)
  pub enums : List (String × ℕ)

abbrev pub link_found : Option ℕ → String → String → Where → Checked Definition
link_found none type name context = err (unknown_definition context type name)
link_found (some p) type name context = ok (defined p)

-- `Link` of a reference.
unfoldable pub link : List (String × ℕ) → Definition → String → Where → Checked Definition
link table absent type context = ok absent
link table (defined p) type context = ok (defined p)
link table (named name) type context = link_found (find_text name table) type name context

-- The lambda `link`.
unfoldable pub link_property : TypeTable → Property → Where → Checked Property
unfolding link
link_property t prop context = link t.prototypes prop.prototype "prototype" context >>= λ p.
    link t.enums prop.enumerate "enum" context >>= λ e.
    ok (record prop { prototype = p; enumerate = e })

unfoldable pub link_params :
    TypeTable → Where → String → ℕ → List Property → Checked (List Property)
unfolding link_property
link_params t context name i [] = ok []
link_params t context name i (p ∷ ps) = link_property t p (at_param context name i) >>= λ p'.
    link_params t context name (suc i) ps >>= λ ps'. ok (p' ∷ ps')

-- `Link` of a method.
unfoldable pub link_method : TypeTable → Method → Where → Checked Method
unfolding link_params link_property
link_method t m context = link_params t context m.name 0 m.param_types >>= λ ps.
    link_property t m.ret_type (at_return context m.name) >>= λ r.
    ok (record m { param_types = ps; ret_type = r })

-- The two loops of pass two.
unfoldable pub link_methods : TypeTable → List Method → Checked (List Method)
unfolding link_method
link_methods t [] = ok []
link_methods t (m ∷ ms) =
    link_method t m (scope "Method") >>= λ m'. link_methods t ms >>= λ ms'. ok (m' ∷ ms')

abbrev pub set_method : ℕ → Method → Heap → Heap
set_method p m h = record h { method_at = λ q. if p == q then m else h.method_at q }

unfoldable pub link_prototypes : TypeTable → List ℕ → Heap → Checked Heap
unfolding link_method
link_prototypes t [] h = ok h
link_prototypes t (p ∷ ps) h = link_method t (h.method_at p) (scope "Prototype") >>= λ m.
    link_prototypes t ps (set_method p m h)

abbrev pub addresses_of : List (String × ℕ) → List ℕ
addresses_of table = map (λ e. e.1) table

unfoldable pub link_all : TypeTable → List Method → Heap → Checked (List Method × Heap)
unfolding link_methods link_prototypes
link_all t ms h = link_methods t ms >>= λ ms'.
    link_prototypes t (addresses_of t.prototypes) h >>= λ h'. ok (ms', h')
