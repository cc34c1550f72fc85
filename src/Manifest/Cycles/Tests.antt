-- ===== src/Manifest/Cycles/Tests.antt =====
-- Runs of `DetectCycles` on a table of two prototypes.
use plugify.Prelude.{
  ℕ, ◌≡◌, ◌⊎◌, refl, inl, inr, true, none, some, [], ◌∷◌, ◌==◌, if◌then◌else◌, Bool-cases,
}
use plugify.Graph.{contains}
use plugify.Manifest.Types.{
  Definition, absent, defined, Property, Method, Enum, Heap, function_type,
}
use plugify.Manifest.Checked.{ok, err, reference_cycle}
use plugify.Manifest.Cycles.{nested, detect_cycles}
use plugify.Manifest.Cycles.Search.{Reaches}
use plugify.Manifest.Cycles.Visiting.{Closed}
use plugify.Manifest.Cycles.Detected.{detect_cycles_total}

abbrev reference : Definition → Property
reference d = record { type = function_type; ref = none; prototype = d; enumerate = absent }

abbrev referring : Definition → Method
referring d = record {
  param_types = reference d ∷ [];
  ret_type = reference absent;
  name = "callback";
  func_name = "";
  call_conv = none;
  var_index = none;
}

abbrev no_enum : ℕ → Enum
no_enum p = record { name = ""; values = [] }

-- 0 refers to 1, which refers to nothing.
abbrev chain : Heap
chain = record {
  method_at = λ p. referring (if p == 0 then defined 1 else absent);
  enum_at = no_enum;
}

-- 0 and 1 refer to each other.
abbrev ring : Heap
ring = record { method_at = λ p. referring (defined (if p == 0 then 1 else 0)); enum_at = no_enum }

chain_accepted : detect_cycles chain (0 ∷ 1 ∷ []) ≡ some (ok tt)
unfolding detect_cycles
chain_accepted = refl

ring_reported : detect_cycles ring (0 ∷ 1 ∷ []) ≡ some (err (reference_cycle "callback"))
unfolding detect_cycles
ring_reported = refl

ring-Closed : Closed (nested ring) (0 ∷ 1 ∷ [])
unfolding nested
ring-Closed p e = elim (Bool-cases (p == 0)) [ inl i ↦ rw i (refl, tt) | inr i ↦ rw i (refl, tt) ]

detect_cycles_total_example :
    ((detect_cycles ring (0 ∷ 1 ∷ []) ≡ some (ok tt))
      × ((p : ℕ) → contains (0 ∷ 1 ∷ []) p ≡ true → ¬ Reaches (nested ring) p p))
    ⊎ ((p : ℕ) × (detect_cycles ring (0 ∷ 1 ∷ [])
          ≡ some (err (reference_cycle (ring.method_at p).name)))
        × Reaches (nested ring) p p)
detect_cycles_total_example = detect_cycles_total ring (0 ∷ 1 ∷ []) ring-Closed
