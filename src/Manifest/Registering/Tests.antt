-- ===== src/Manifest/Registering/Tests.antt =====
-- Runs of `Register`.
use Prim.Native.String.{String}
use plugify.Prelude.{◌≡◌, refl, true, false, none, [], ◌∷◌, ◌==◌, if◌then◌else◌}
use plugify.Prelude.Int.{pos}
use plugify.Stages.Shared.{find_text}
use plugify.Manifest.Types.{Definition, absent, named, defined, Property, Enum, Heap}
use plugify.Manifest.Checked.{scope, ok, err, conflicting_definitions}
use plugify.Manifest.Registering.{same_enum, same_method, register, register_enum}

abbrev level : String → Enum
level first = record {
  name = "Level";
  values = record { name = first; value = pos 0 } ∷ record { name = "High"; value = pos 1 } ∷ [];
}

abbrev plain : Definition → Property
plain e = record { type = 8; ref = none; prototype = absent; enumerate = e }

-- 0 and 1 are the same enum, 2 is another one of the same name; the prototypes name it.
abbrev heap : Heap
heap = record {
  method_at = λ p. record {
    param_types = plain (if p == 0 then named "Level" else defined 1) ∷ [];
    ret_type = plain absent;
    name = "OnLevel";
    func_name = "";
    call_conv = none;
    var_index = none;
  };
  enum_at = λ p. level (if p == 2 then "Low" else "None");
}

collapsed :
    register_enum heap (scope "Method") (defined 1) (("Level", 0) ∷ [])
    ≡ ok (false, defined 0, ("Level", 0) ∷ [])
unfolding register find_text same_enum
collapsed = refl

refused :
    register_enum heap (scope "Method") (defined 2) (("Level", 0) ∷ [])
    ≡ err (conflicting_definitions (scope "Method") "enum" "Level")
unfolding register find_text same_enum
refused = refl

-- A name and a definition of that name say the same.
by_name : same_method heap (heap.method_at 0) (heap.method_at 1) ≡ true
unfolding same_method
by_name = refl
