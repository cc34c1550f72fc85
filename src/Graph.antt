-- ===== src/Graph.antt =====
-- include/plugify/dependency_resolver.hpp: the dependency graphs of a resolution report, maps from an
-- identifier to a vector of identifiers. The order of a hash map's keys is read nowhere in this part.
use plugify.Prelude.{ℕ, Bool, Option, none, some, List, [], ◌∷◌, ◌++◌, ◌==◌, if◌then◌else◌, any_of}

abbrev pub Graph : Type 0
Graph = List (ℕ × List ℕ)

-- `find`, with the vector that it points to.
unfoldable pub find : ℕ → Graph → Option (List ℕ)
find k [] = none
find k ((j, vs) ∷ rest) = if j == k then some vs else find k rest

-- `graph[k].push_back(v)`.
unfoldable pub push_edge : ℕ → ℕ → Graph → Graph
push_edge k v [] = (k, v ∷ []) ∷ []
push_edge k v ((j, vs) ∷ rest) =
    if j == k then (j, vs ++ v ∷ []) ∷ rest else (j, vs) ∷ push_edge k v rest

abbrev pub or_empty : Option (List ℕ) → List ℕ
or_empty none = []
or_empty (some vs) = vs

-- The vector of a key, empty for a missing one.
abbrev pub edges : ℕ → Graph → List ℕ
edges k g = or_empty (find k g)

abbrev pub contains : List ℕ → ℕ → Bool
contains xs a = any_of (λ x. a == x) xs
