-- ===== src/Tracker.antt =====
-- src/core/failure_tracker.hpp: the identifiers of the extensions that have failed, a set that the
-- stages of the pipeline share. The mutex is not modelled: only sequential stages use the set.
use plugify.Prelude.{ℕ, Bool, false, Option, none, some, List, ◌∷◌, if◌then◌else◌, any_of, find_if}
use plugify.Graph.{Graph, find, contains}

unfoldable pub mark_failed : ℕ → List ℕ → List ℕ
mark_failed id failed = if contains failed id then failed else id ∷ failed

unfoldable pub has_failed : ℕ → List ℕ → Bool
has_failed id failed = contains failed id

abbrev pub any_failed : List ℕ → Option (List ℕ) → Bool
any_failed failed none = false
any_failed failed (some ids) = any_of (contains failed) ids

-- `HasAnyDependencyFailed(ext, reverseDeps)`.
unfoldable pub has_any_dependency_failed : List ℕ → ℕ → Graph → Bool
has_any_dependency_failed failed id reverse_deps = any_failed failed (find id reverse_deps)

abbrev pub first_failed : List ℕ → Option (List ℕ) → Option ℕ
first_failed failed none = none
first_failed failed (some ids) = find_if (contains failed) ids

-- `GetFailedDependencyName`: the identifier whose name the text gives, or none for the empty text.
unfoldable pub get_failed_dependency : List ℕ → ℕ → Graph → Option ℕ
get_failed_dependency failed id reverse_deps = first_failed failed (find id reverse_deps)
