-- ===== src/Stages/Starting.antt =====
-- src/core/stages_impl.hpp: `StartingStage`.
use plugify.Prelude.{ℕ, Bool, true, ◌&&◌}
use plugify.Extension.State.{failed, exported, starting, started, running, same_state, is_plugin}
use plugify.Extension.Core.{Extension, Result, ok, err, start_operation, end_operation}
use plugify.Loader.Plugin.{start_plugin}
use plugify.Pipeline.{Stage, execute_sequential}
use plugify.Stages.Shared.{Env, Shared}
use plugify.Stages.Failure.{process_item, handle_operation_failure, check_timeout}

abbrev pub should_start : Extension → Bool
should_start e = same_state e.state exported && is_plugin e.type

abbrev pub end_starting :
    Env → ℕ → Result (Unit {0}) → Shared → Extension → Shared × Extension × Result (Unit {0})
end_starting env t (err m) w e =
    let (w', e') = handle_operation_failure failed t m w e in (w', e', err m)
end_starting env t (ok _) w e = (
  w,
  start_operation running
      (check_timeout env.settings.start_timeout starting (end_operation started t e)),
  ok tt,
)

-- `DoProcessItem`.
unfoldable pub do_start : Env → Shared → Extension → Shared × Extension × Result (Unit {0})
unfolding start_operation end_operation start_plugin handle_operation_failure check_timeout
do_start env w e =
    let e₀ = start_operation starting e in
    let (l, r) = start_plugin env.host w.loader e₀ in
    end_starting env (env.host.elapsed w.loader.calls starting e₀) r (record w { loader = l }) e₀

unfoldable pub starting_stage : Env → Stage Shared Extension
unfolding process_item do_start execute_sequential
starting_stage env = record {
  required = true;
  setup = λ w items. w;
  run = λ w s items.
      execute_sequential true should_start (process_item (do_start env)) (λ e. e.name) w s items;
}
