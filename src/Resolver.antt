-- ===== src/Resolver.antt =====
-- src/core/libsolv_dependency_resolver.cpp: `ComputeInstallationOrder`, which turns the transaction of
-- the solver into the load order and the two graphs. The solver's pool is a parameter.
pub mod Transpose
mod Tests
use plugify.Prelude.{
  ℕ, Bool, true, false, ◌&&◌, not, Option, none, some, List, [], ◌∷◌, ◌++◌, ◌==◌, if◌then◌else◌,
}
use plugify.Graph.{Graph, push_edge}
use plugify.Stages.Shared.{ResolutionReport}

-- What libsolv knows: the requirements of a solvable, and the solvables that provide a requirement.
pub record Pool : Type 0 where
  pub requires : ℕ → List ℕ
  pub what_provides : ℕ → List ℕ

-- `_solvableIdToExtension.find`.
unfoldable pub find_id : ℕ → List (ℕ × ℕ) → Option ℕ
find_id p [] = none
find_id p ((q, id) ∷ rest) = if q == p then some id else find_id p rest

-- `dependencyGraph[extId].push_back(depId)`, and the same edge backwards.
unfoldable pub push_dependency : ℕ → ℕ → ResolutionReport → ResolutionReport
unfolding push_edge
push_dependency ext_id dep_id r = record r {
  dependency_graph = push_edge ext_id dep_id r.dependency_graph;
  reverse_dependency_graph = push_edge dep_id ext_id r.reverse_dependency_graph;
}

abbrev pub push_provider : Bool → ℕ → Option ℕ → ResolutionReport → ResolutionReport
push_provider is_self ext_id none r = r
push_provider is_self ext_id (some dep_id) r =
    if is_self then r else push_dependency ext_id dep_id r

-- The loop over the providers of a requirement of the solvable `p`.
unfoldable pub push_providers : List (ℕ × ℕ) → ℕ → ℕ → List ℕ → ResolutionReport → ResolutionReport
unfolding find_id push_dependency
push_providers ids p ext_id [] r = r
push_providers ids p ext_id (q ∷ qs) r =
    push_providers ids p ext_id qs (push_provider (q == p) ext_id (find_id q ids) r)

-- The loop over the requirements.
unfoldable pub push_requirements :
    Pool → List (ℕ × ℕ) → ℕ → ℕ → List ℕ → ResolutionReport → ResolutionReport
unfolding push_providers
push_requirements pool ids p ext_id [] r = r
push_requirements pool ids p ext_id (req ∷ reqs) r =
    push_requirements pool ids p ext_id reqs
      (push_providers ids p ext_id (pool.what_provides req) r)

abbrev pub push_step : Pool → List (ℕ × ℕ) → ℕ → Option ℕ → ResolutionReport → ResolutionReport
push_step pool ids p none r = r
push_step pool ids p (some ext_id) r =
    push_requirements pool ids p ext_id (pool.requires p)
      (record r { load_order = r.load_order ++ ext_id ∷ [] })

-- The loop over the steps of the ordered transaction.
unfoldable pub push_steps : Pool → List (ℕ × ℕ) → List ℕ → ResolutionReport → ResolutionReport
unfolding push_requirements find_id
push_steps pool ids [] r = r
push_steps pool ids (p ∷ ps) r = push_steps pool ids ps (push_step pool ids p (find_id p ids) r)

unfoldable pub compute_installation_order :
    Pool → List (ℕ × ℕ) → List ℕ → ResolutionReport → ResolutionReport
unfolding push_steps
compute_installation_order pool ids steps r = record (push_steps pool ids steps r) {
  is_load_order_valid = true;
}
