-- ===== src/Manifest/Linking/Tests.antt =====
-- A run of pass two.
use plugify.Prelude.{◌≡◌, refl, none, [], ◌∷◌, All}
use plugify.Stages.Shared.{find_text}
use plugify.Manifest.Types.{Definition, absent, named, defined, Method, Heap, function_type}
use plugify.Manifest.Checked.{scope, at_param, ok, err, unknown_definition}
use plugify.Manifest.Linking.{TypeTable, link_methods, addresses_of, link_all}
use plugify.Manifest.Linking.Linked.{IsKnownMethod, IsLinkedMethod, Decides}
use plugify.Manifest.Linking.Whole.{link_all-Decides}

abbrev taking : Definition → Method
taking d = record {
  param_types = record { type = function_type; ref = none; prototype = d; enumerate = absent } ∷ [];
  ret_type = record { type = 1; ref = none; prototype = absent; enumerate = absent };
  name = "Hook";
  func_name = "Lib_Hook";
  call_conv = none;
  var_index = none;
}

-- The prototype 0 takes a callback of itself, by name.
abbrev heap : Heap
heap = record {
  method_at = λ p. taking (named "Handler");
  enum_at = λ p. record { name = ""; values = [] };
}

abbrev table : TypeTable
table = record { prototypes = ("Handler", 0) ∷ []; enums = [] }

linked :
    link_methods table (taking (named "Handler") ∷ taking absent ∷ [])
    ≡ ok (taking (defined 0) ∷ taking absent ∷ [])
unfolding link_methods find_text
linked = refl

unknown :
    link_methods table (taking (named "Other") ∷ [])
    ≡ err (unknown_definition (at_param (scope "Method") "Hook" 0) "prototype" "Other")
unfolding link_methods find_text
unknown = refl

link_all-Decides_example :
    Decides
      (All (IsKnownMethod table) (taking (named "Handler") ∷ [])
        × All (λ p. IsKnownMethod table (heap.method_at p)) (addresses_of table.prototypes))
      (λ r.
        All IsLinkedMethod r.0
        × All (λ p. IsLinkedMethod (r.1.method_at p)) (addresses_of table.prototypes))
      (link_all table (taking (named "Handler") ∷ []) heap)
link_all-Decides_example = link_all-Decides table (taking (named "Handler") ∷ []) heap
