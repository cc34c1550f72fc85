-- ===== src/Stages/Parsing.antt =====
-- src/core/stages_impl.hpp: `ParsingStage`.
use plugify.Prelude.{ℕ, Bool, true}
use plugify.Extension.State.{discovered, parsing, parsed, corrupted, same_state}
use plugify.Extension.Core.{Extension, Result, ok, err, start_operation, end_operation, add_error}
use plugify.Pipeline.{Stage, execute_transform}
use plugify.Stages.Shared.{Env, Manifest, Shared}

-- `SetManifest` and `Impl::Setup`.
unfoldable pub set_manifest : Manifest → Extension → Extension
set_manifest m e = record e {
  name = m.name;
  version = m.version;
  language = m.language;
  runtime = m.runtime;
  platforms = m.platforms;
  methods = m.methods;
  dependencies = m.dependencies;
}

abbrev pub should_parse : Extension → Bool
should_parse e = same_state e.state discovered

abbrev pub parsed_with : ℕ → Result Manifest → Extension → Extension × Result (Unit {0})
parsed_with t (err m) e = (end_operation corrupted t (add_error m e), err m)
parsed_with t (ok m) e = (end_operation parsed t (set_manifest m e), ok tt)

-- `ProcessItem`; `t` is the time that it takes.
unfoldable pub parse_item : Env → ℕ → Extension → Extension × Result (Unit {0})
unfolding start_operation end_operation add_error set_manifest
parse_item env t e = let e' = start_operation parsing e in parsed_with t (env.parse_manifest e') e'

unfoldable pub parsing_stage : Env → Stage Shared Extension
unfolding parse_item execute_transform
parsing_stage env = record {
  required = true;
  setup = λ w items. w;
  run = λ w s items.
      let (s', items') =
        execute_transform should_parse
          (λ e. parse_item env (env.host.elapsed w.loader.calls parsing e) e) (λ e. e.name) s
          items in
      (w, s', items');
}
