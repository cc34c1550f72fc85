-- ===== src/Stages/Exporting.antt =====
-- src/core/stages_impl.hpp: `ExportingStage`.
use plugify.Prelude.{ℕ, Bool, true, ◌&&◌, List, [], ◌∷◌, if◌then◌else◌}
use plugify.Extension.State.{
  failed, loaded, exporting, exported, running, same_state, is_module, is_plugin,
}
use plugify.Extension.Core.{Extension, Result, ok, err, start_operation, end_operation}
use plugify.Loader.Host.{Host, Loader}
use plugify.Loader.Plugin.{method_export}
use plugify.Pipeline.{Stage, execute_sequential}
use plugify.Stages.Shared.{Env, Shared}
use plugify.Stages.Failure.{process_item, handle_operation_failure, check_timeout}

abbrev pub should_export : Extension → Bool
should_export e = same_state e.state loaded && is_plugin e.type

-- `Setup`: the modules that are running, in the order of the items.
unfoldable pub collect_running : List Extension → List Extension
collect_running [] = []
collect_running (e ∷ es) =
    let rest = collect_running es in
    if is_module e.type && same_state e.state running then e ∷ rest else rest

-- The loop over the modules, up to the first export that fails.
unfoldable pub export_to : Host → List Extension → Loader → Extension → Loader × Result (Unit {0})
unfolding method_export
export_to h [] l e = (l, ok tt)
export_to h (m ∷ ms) l e =
    let (l', r) = method_export h m l e in
    elim r [ err x ↦ (l', err x) | ok _ ↦ export_to h ms l' e ]

abbrev pub end_exporting :
    Env → ℕ → Result (Unit {0}) → Shared → Extension → Shared × Extension × Result (Unit {0})
end_exporting env t (err m) w e =
    let (w', e') = handle_operation_failure failed t m w e in (w', e', err m)
end_exporting env t (ok _) w e =
    (w, check_timeout env.settings.export_timeout exporting (end_operation exported t e), ok tt)

-- `DoProcessItem`.
unfoldable pub do_export : Env → Shared → Extension → Shared × Extension × Result (Unit {0})
unfolding start_operation end_operation export_to handle_operation_failure check_timeout
do_export env w e =
    let e₀ = start_operation exporting e in
    let (l, r) = export_to env.host w.running_modules w.loader e₀ in
    end_exporting env (env.host.elapsed w.loader.calls exporting e₀) r (record w { loader = l }) e₀

unfoldable pub exporting_stage : Env → Stage Shared Extension
unfolding process_item do_export collect_running execute_sequential
exporting_stage env = record {
  required = true;
  setup = λ w items. record w { running_modules = collect_running items };
  run = λ w s items.
      execute_sequential true should_export (process_item (do_export env)) (λ e. e.name) w s items;
}
