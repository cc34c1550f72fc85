-- ===== src/Manifest/Cycles.antt =====
-- src/core/manifest.cpp: `TypeTable::DetectCycles`, the depth-first search over the prototypes. The map
-- of marks is a function; the prototypes are given by their addresses, in the order of the table.
pub mod Search
pub mod Order
pub mod Visiting
pub mod Detected
mod Tests
use plugify.Prelude.{
  ℕ, zero, suc, Bool, true, false, Option, none, some, List, [], ◌∷◌, ◌++◌, ◌==◌, if◌then◌else◌,
  length,
}
use plugify.Manifest.Types.{Definition, absent, named, defined, Property, Method, Heap}
use plugify.Manifest.Checked.{Checked, ok, err, reference_cycle}

pub data Mark : Type 0 where
  unvisited on_stack done : Mark

abbrev pub Marks : Type 0
Marks = ℕ → Mark

-- `marks[p] = m`.
abbrev pub set_mark : ℕ → Mark → Marks → Marks
set_mark p m marks q = if p == q then m else marks q

abbrev pub addresses : Definition → List ℕ
addresses absent = []
addresses (named name) = []
addresses (defined p) = p ∷ []

unfoldable pub prototypes_of : List Property → List ℕ
prototypes_of [] = []
prototypes_of (p ∷ ps) = addresses p.prototype ++ prototypes_of ps

-- What `descend` is called on: the prototypes of the parameters, and that of the return type.
unfoldable pub nested : Heap → ℕ → List ℕ
unfolding prototypes_of
nested h p = let m = h.method_at p in prototypes_of m.param_types ++ addresses m.ret_type.prototype

-- How a visit ends.
pub data Visit : Type 0 where
  visited : Marks → Visit
  cycle : ℕ → Visit
  out_of_fuel : Visit

abbrev pub then_visit : Visit → (Marks → Visit) → Visit
then_visit (visited marks) k = k marks
then_visit (cycle p) k = cycle p
then_visit out_of_fuel k = out_of_fuel

-- The switch on the mark.
abbrev pub by_mark : Mark → ℕ → Marks → Visit → Visit
by_mark done p marks rest = visited marks
by_mark on_stack p marks rest = cycle p
by_mark unvisited p marks rest = rest

-- A loop that visits each of the prototypes.
unfoldable pub visit_each : (Marks → ℕ → Visit) → List ℕ → Marks → Visit
visit_each visit [] marks = visited marks
visit_each visit (p ∷ ps) marks = then_visit (visit marks p) (visit_each visit ps)

-- `visit`; the fuel bounds the depth of the recursion.
unfoldable pub visit : (ℕ → List ℕ) → ℕ → Marks → ℕ → Visit
unfolding visit_each
visit children zero marks p = by_mark (marks p) p marks out_of_fuel
visit children (suc fuel) marks p = by_mark (marks p) p marks (
    then_visit (visit_each (visit children fuel) (children p) (set_mark p on_stack marks))
      (λ marks'. visited (set_mark p done marks')))

abbrev pub reported : Heap → Visit → Option (Checked (Unit {0}))
reported h (visited marks) = some (ok tt)
reported h (cycle p) = some (err (reference_cycle (h.method_at p).name))
reported h out_of_fuel = none

-- The outcome is none if the fuel runs out.
unfoldable pub detect_cycles : Heap → List ℕ → Option (Checked (Unit {0}))
unfolding visit nested
detect_cycles h prototypes =
    reported h (visit_each (visit (nested h) (length prototypes)) prototypes (λ p. unvisited))
