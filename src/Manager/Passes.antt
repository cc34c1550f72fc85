-- ===== src/Manager/Passes.antt =====
-- What each stage of the pipeline makes of all the extensions, where it counts no failure.
use plugify.Prelude.{◌≡◌, ◌≢◌, refl, ◌⊎◌, inl, inr, Bool, true, false, ◌&&◌, List, arith, All}
use plugify.Extension.State.{
  ExtensionState, ExtensionType, module_type, plugin_type, unknown_type, discovered, parsed,
  resolved, unresolved, disabled, loaded, exported, running, same_state,
}
use plugify.Extension.Core.{Extension, Result, ok, err}
use plugify.Pipeline.{execute_stage}
use plugify.Pipeline.Rules.{sequential-ok, transform-ok}
use plugify.Stages.Shared.{Env, Shared}
use plugify.Stages.States.{Now}
use plugify.Stages.Policy.{LeftOut, Stands, Resolved}
use plugify.Stages.Outcomes.{
  Ends, Parses, parse_item-Parses, load-Ends, export-Ends, start-Ends, load_target,
}
use plugify.Stages.Parsing.{should_parse, parsing_stage}
use plugify.Stages.Loading.{should_load, do_load, loading_stage}
use plugify.Stages.Exporting.{should_export, do_export, exporting_stage}
use plugify.Stages.Starting.{should_start, do_start, starting_stage}
use plugify.Stages.Failure.{process_item}

-- Where the extensions stand after each stage.
abbrev pub Loaded : Extension → Type 0
Loaded e = Now module_type running e ⊎ (Now plugin_type loaded e ⊎ LeftOut e)

abbrev pub Exported : Extension → Type 0
Exported e = Now module_type running e ⊎ (Now plugin_type exported e ⊎ LeftOut e)

abbrev pub Started : Extension → Type 0
Started e = ((t : ExtensionType) × Now t running e) ⊎ LeftOut e

Parses-ok :
    (t : ExtensionType) (r : Result (Unit {0})) (e : Extension)
    → Parses t r e
    → r ≡ ok tt
    → Now t parsed e
Parses-ok t (ok u) e p h = p
Parses-ok t (err m) e p h = cc

Ends-ok :
    (t : ExtensionType) (s : ExtensionState) (r : Result (Unit {0})) (e : Extension)
    → Ends t s r e
    → r ≡ ok tt
    → Now t s e
Ends-ok t s (ok u) e p h = p
Ends-ok t s (err m) e p h = cc

-- What the tests of the stages say of an extension in a known state.
other_state :
    {t : ExtensionType} {s : ExtensionState} {e : Extension}
    → Now t s e
    → (r : ExtensionState) → same_state s r ≡ true
    → same_state e.state r ≡ false
    → ⊥
other_state now r h k = cc (now.state_is, h, k)

pub parsing_pass :
    (env : Env) (w : Shared) (xs : List Extension)
    → All (Stands discovered) xs
    → (execute_stage (parsing_stage env) w xs).1.failed ≡ 0
    → All (Stands parsed) (execute_stage (parsing_stage env) w xs).2
unfolding execute_stage parsing_stage
parsing_pass env w xs h f =
    transform-ok should_parse _ (λ e. e.name) (Stands discovered) (Stands parsed)
      (λ x (t, k, now) e r. (t, k, Parses-ok t _ _ (parse_item-Parses env t _ x now) r))
      (λ x (t, k, now) e. absurd (other_state now discovered refl e)) _ xs h (omega arith)

and_left : (a b : Bool) → (a && b) ≡ true → a ≡ true
and_left a b h = ground arith

-- What the later stages do not touch.
LeftOut-state :
    {e : Extension} (r : ExtensionState)
    → LeftOut e
    → same_state disabled r ≡ false
    → same_state unresolved r ≡ false
    → same_state e.state r ≡ true
    → ⊥
LeftOut-state r (t, inl now) h k y = cc (now.state_is, h, y)
LeftOut-state r (t, inr now) h k y = cc (now.state_is, k, y)

load_target-Loaded :
    (t : ExtensionType) (e : Extension) → (t ≢ unknown_type) → Now t (load_target t) e → Loaded e
load_target-Loaded module_type e k now = inl now
load_target-Loaded plugin_type e k now = inr (inl now)
load_target-Loaded unknown_type e k now = absurd (k refl)

load_item :
    (env : Env) (w : Shared) (e : Extension)
    → Resolved e
    → should_load e ≡ true
    → (process_item (do_load env) w e).2 ≡ ok tt
    → Loaded (process_item (do_load env) w e).1
load_item env w e (inl (t, k, now)) h r =
    load_target-Loaded t _ k (Ends-ok t (load_target t) _ _ (load-Ends env t w e now) r)
load_item env w e (inr out) h r = absurd (LeftOut-state resolved out refl refl h)

pub loading_pass :
    (env : Env) (w : Shared) (xs : List Extension)
    → All Resolved xs
    → (execute_stage (loading_stage env) w xs).1.failed ≡ 0
    → All Loaded (execute_stage (loading_stage env) w xs).2
unfolding execute_stage loading_stage
loading_pass env w xs h f =
    sequential-ok should_load _ (λ e. e.name) Resolved Loaded (load_item env) left _ _ xs h
      (omega arith)
  where
    left : (x : Extension) → Resolved x → should_load x ≡ false → Loaded x
    left x (inl (t, k, now)) e = absurd (other_state now resolved refl e)
    left x (inr out) e = inr (inr out)

export_item :
    (env : Env) (w : Shared) (e : Extension)
    → Loaded e
    → should_export e ≡ true
    → (process_item (do_export env) w e).2 ≡ ok tt
    → Exported (process_item (do_export env) w e).1
export_item env w e (inl now) h r = absurd (cc (now.state_is, h))
export_item env w e (inr (inl now)) h r =
    inr (inl (Ends-ok plugin_type exported _ _ (export-Ends env plugin_type w e now) r))
export_item env w e (inr (inr out)) h r =
    absurd (LeftOut-state loaded out refl refl (and_left _ _ h))

pub exporting_pass :
    (env : Env) (w : Shared) (xs : List Extension)
    → All Loaded xs
    → (execute_stage (exporting_stage env) w xs).1.failed ≡ 0
    → All Exported (execute_stage (exporting_stage env) w xs).2
unfolding execute_stage exporting_stage
exporting_pass env w xs h f =
    sequential-ok should_export _ (λ e. e.name) Loaded Exported (export_item env) left _ _ xs h
      (omega arith)
  where
    left : (x : Extension) → Loaded x → should_export x ≡ false → Exported x
    left x (inl now) e = inl now
    left x (inr (inl now)) e = absurd (cc (now.state_is, now.type_is, e))
    left x (inr (inr out)) e = inr (inr out)

start_item :
    (env : Env) (w : Shared) (e : Extension)
    → Exported e
    → should_start e ≡ true
    → (process_item (do_start env) w e).2 ≡ ok tt
    → Started (process_item (do_start env) w e).1
start_item env w e (inl now) h r = absurd (cc (now.state_is, h))
start_item env w e (inr (inl now)) h r =
    inl (plugin_type, Ends-ok plugin_type running _ _ (start-Ends env plugin_type w e now) r)
start_item env w e (inr (inr out)) h r =
    absurd (LeftOut-state exported out refl refl (and_left _ _ h))

pub starting_pass :
    (env : Env) (w : Shared) (xs : List Extension)
    → All Exported xs
    → (execute_stage (starting_stage env) w xs).1.failed ≡ 0
    → All Started (execute_stage (starting_stage env) w xs).2
unfolding execute_stage starting_stage
starting_pass env w xs h f =
    sequential-ok should_start _ (λ e. e.name) Exported Started (start_item env) left _ _ xs h
      (omega arith)
  where
    left : (x : Extension) → Exported x → should_start x ≡ false → Started x
    left x (inl now) e = inl (module_type, now)
    left x (inr (inl now)) e = absurd (cc (now.state_is, now.type_is, e))
    left x (inr (inr out)) e = inr out
