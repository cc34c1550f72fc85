-- ===== src/Stages/Failure.antt =====
-- src/core/stages_impl.hpp: `BaseFailurePropagatingStage`.
use plugify.Prelude.{ℕ, Option, none, some, List, [], ◌∷◌, ltb, if◌then◌else◌}
use plugify.Extension.State.{ExtensionState, skipped}
use plugify.Extension.Core.{
  Extension, Result, err, Message, skipped_dependency, dependency_failed, took_long, set_state,
  end_operation, get_operation_time, add_error, add_warning,
}
use plugify.Graph.{find}
use plugify.Tracker.{mark_failed, has_any_dependency_failed, get_failed_dependency}
use plugify.Stages.Shared.{Shared}

abbrev pub or_zero : Option ℕ → ℕ
or_zero none = 0
or_zero (some id) = id

abbrev pub mark : ℕ → Shared → Shared
mark id w = record w { tracker = mark_failed id w.tracker }

-- `HandleDependencyFailure`.
unfoldable pub handle_dependency_failure :
    Shared → Extension → Shared × Extension × Result (Unit {0})
unfolding set_state add_error get_failed_dependency mark_failed
handle_dependency_failure w e =
    let dep = or_zero (get_failed_dependency w.tracker e.id w.reverse_dep_graph) in
    (
      mark e.id w,
      add_error (skipped_dependency dep) (set_state skipped e),
      err (dependency_failed dep),
    )

unfoldable pub mark_all : List ℕ → Shared → Shared
unfolding mark_failed
mark_all [] w = w
mark_all (id ∷ ids) w = mark_all ids (mark id w)

abbrev pub mark_found : Option (List ℕ) → Shared → Shared
mark_found none w = w
mark_found (some ids) w = mark_all ids w

-- `PropagateFailureToDirectDependents`.
unfoldable pub propagate_failure_to_direct_dependents : ℕ → Shared → Shared
unfolding mark_all find
propagate_failure_to_direct_dependents id w = mark_found (find id w.dep_graph) w

-- `HandleOperationFailure`; `t` is the time of the operation that ends.
unfoldable pub handle_operation_failure :
    ExtensionState → ℕ → Message → Shared → Extension → Shared × Extension
unfolding add_error end_operation mark_failed propagate_failure_to_direct_dependents
handle_operation_failure failed_state t m w e = (
  propagate_failure_to_direct_dependents e.id (mark e.id w),
  end_operation failed_state t (add_error m e),
)

-- `CheckTimeout`.
unfoldable pub check_timeout : ℕ → ExtensionState → Extension → Extension
unfolding get_operation_time add_warning
check_timeout timeout s e =
    let time = get_operation_time s e.timepoints in
    if ltb timeout time then add_warning (took_long s time) e else e

-- `ProcessItem`: the check of the dependencies, and then the stage's own `DoProcessItem`.
unfoldable pub process_item :
    (Shared → Extension → Shared × Extension × Result (Unit {0}))
    → Shared
    → Extension
    → Shared × Extension × Result (Unit {0})
unfolding handle_dependency_failure has_any_dependency_failed
process_item do_process_item w e =
    if has_any_dependency_failed w.tracker e.id w.reverse_dep_graph
    then handle_dependency_failure w e
    else do_process_item w e
