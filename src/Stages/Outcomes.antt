-- ===== src/Stages/Outcomes.antt =====
-- In which state each stage leaves an item that it processes, on every outcome.
use plugify.Prelude.{ℕ, ◌≡◌, refl, ◌⊎◌, inl, inr, true, Option, none, some, Bool-cases}
use plugify.Extension.State.{
  ExtensionState, ExtensionType, module_type, plugin_type, unknown_type, discovered, parsing,
  parsed, corrupted, resolved, loading, loaded, exporting, exported, starting, started, running,
  skipped, failed, is_valid_transition,
}
use plugify.Extension.Core.{Extension, Result, ok, err, Message, start_operation}
use plugify.Loader.Host.{Host}
use plugify.Loader.Frame.{SameCore, SameCore-refl, load_module-SameCore, load_plugin-SameCore}
use plugify.Loader.Plugin.{start_plugin}
use plugify.Tracker.{has_any_dependency_failed}
use plugify.Stages.Shared.{Env, Shared, Manifest, find_text}
use plugify.Stages.States.{
  Now, set_state-Now, start_operation-Now, end_operation-Now, add_error-Now, check_timeout-Now,
  SameCore-Now,
}
use plugify.Stages.Parsing.{parse_item, parsed_with, set_manifest}
use plugify.Stages.Failure.{process_item, handle_dependency_failure, handle_operation_failure}
use plugify.Stages.Loading.{do_load, load_by_type, load_with, end_loading, set_running}
use plugify.Stages.Exporting.{do_export, end_exporting, export_to}
use plugify.Stages.Starting.{do_start, end_starting}

-- After a success the extension is in the state that the stage aims at; otherwise it has failed, or was
-- skipped because of the failure tracker.
abbrev pub Ends : ExtensionType → ExtensionState → Result (Unit {0}) → Extension → Type 0
Ends t target (ok _) e = Now t target e
Ends t target (err m) e = Now t failed e ⊎ Now t skipped e

handle_operation_failure-Now :
    (t : ExtensionType) (s : ExtensionState) (d : ℕ) (m : Message) (w : Shared) (e : Extension)
    → Now t s e
    → is_valid_transition s failed ≡ true
    → Now t failed (handle_operation_failure failed d m w e).1
unfolding handle_operation_failure
handle_operation_failure-Now t s d m w e now h = end_operation-Now (add_error-Now now m) failed d h

-- The common part of the failure-propagating stages.
process_item-Ends :
    (t : ExtensionType) (s target : ExtensionState)
    (body : Shared → Extension → Shared × Extension × Result (Unit {0})) (w : Shared)
    (e : Extension)
    → Now t s e
    → is_valid_transition s skipped ≡ true
    → Ends t target (body w e).2 (body w e).1
    → Ends t target (process_item body w e).2 (process_item body w e).1
unfolding process_item handle_dependency_failure
process_item-Ends t s target body w e now h k =
    elim (Bool-cases (has_any_dependency_failed w.tracker e.id w.reverse_dep_graph)) [
      | inl x ↦ rw x (inr (add_error-Now (set_state-Now now skipped h) _))
      | inr x ↦ rw x k
    ]

-- Where a successful load leaves an extension: a module runs, a plugin is loaded.
abbrev pub load_target : ExtensionType → ExtensionState
load_target module_type = running
load_target plugin_type = loaded
load_target unknown_type = loaded

load_with-SameCore :
    (h : Host) (m : Option Extension) (w : Shared) (e : Extension)
    → SameCore e (load_with h m w e).1
load_with-SameCore h none w e = SameCore-refl e
load_with-SameCore h (some m) w e = load_plugin-SameCore h m w.loader e

load_by_type-SameCore :
    (h : Host) (t : ExtensionType) (w : Shared) (e : Extension)
    → SameCore e (load_by_type h t w e).1
unfolding load_by_type
load_by_type-SameCore h module_type w e = load_module-SameCore h w.loader e
load_by_type-SameCore h plugin_type w e =
    load_with-SameCore h (find_text e.language w.loaded_modules) w e
load_by_type-SameCore h unknown_type w e = SameCore-refl e

set_running-Now :
    (t : ExtensionType) (e : Extension) → Now t loaded e → Now t (load_target t) (set_running e)
unfolding is_valid_transition
set_running-Now module_type e now = simp now.type_is (start_operation-Now now running refl)
set_running-Now plugin_type e now = simp now.type_is now
set_running-Now unknown_type e now = simp now.type_is now

end_loading-Ends :
    (env : Env) (t : ExtensionType) (d : ℕ) (r : Result (Unit {0})) (w : Shared) (e : Extension)
    → Now t loading e
    → Ends t (load_target t) (end_loading env d r w e).2 (end_loading env d r w e).1
unfolding is_valid_transition
end_loading-Ends env t d (err m) w e now =
    inl (handle_operation_failure-Now t loading d m w e now refl)
end_loading-Ends env t d (ok u) w e now =
    set_running-Now t _
      (check_timeout-Now (end_operation-Now now loaded d refl) env.settings.load_timeout loading)

-- `ProcessItem` of `LoadingStage` on a resolved extension, whatever the language modules do: if it
-- succeeds, a module is running and a plugin is loaded; otherwise the extension has failed or is
-- skipped. Each of its transitions is one that `IsValidTransition` allows.
pub load-Ends :
    (env : Env) (t : ExtensionType) (w : Shared) (e : Extension)
    → Now t resolved e
    → Ends t (load_target t) (process_item (do_load env) w e).2 (process_item (do_load env) w e).1
unfolding is_valid_transition do_load
load-Ends env t w e now = process_item-Ends t resolved (load_target t) (do_load env) w e now refl (
    end_loading-Ends env t _ (load_by_type env.host e.type w (start_operation loading e)).2 _ _ (
      SameCore-Now (start_operation-Now now loading refl)
        (load_by_type-SameCore env.host e.type w (start_operation loading e))))

end_exporting-Ends :
    (env : Env) (t : ExtensionType) (d : ℕ) (r : Result (Unit {0})) (w : Shared) (e : Extension)
    → Now t exporting e
    → Ends t exported (end_exporting env d r w e).2 (end_exporting env d r w e).1
unfolding is_valid_transition
end_exporting-Ends env t d (err m) w e now =
    inl (handle_operation_failure-Now t exporting d m w e now refl)
end_exporting-Ends env t d (ok u) w e now =
    check_timeout-Now (end_operation-Now now exported d refl) env.settings.export_timeout exporting

-- `ProcessItem` of `ExportingStage` on a loaded extension: it is exported after a success, and has
-- failed or is skipped otherwise. Each of its transitions is one that `IsValidTransition` allows.
pub export-Ends :
    (env : Env) (t : ExtensionType) (w : Shared) (e : Extension)
    → Now t loaded e
    → Ends t exported (process_item (do_export env) w e).2 (process_item (do_export env) w e).1
unfolding is_valid_transition do_export
export-Ends env t w e now = process_item-Ends t loaded exported (do_export env) w e now refl (
    end_exporting-Ends env t _
      (export_to env.host w.running_modules w.loader (start_operation exporting e)).1 _ _
      (start_operation-Now now exporting refl))

end_starting-Ends :
    (env : Env) (t : ExtensionType) (d : ℕ) (r : Result (Unit {0})) (w : Shared) (e : Extension)
    → Now t starting e
    → Ends t running (end_starting env d r w e).2 (end_starting env d r w e).1
unfolding is_valid_transition
end_starting-Ends env t d (err m) w e now =
    inl (handle_operation_failure-Now t starting d m w e now refl)
end_starting-Ends env t d (ok u) w e now =
    start_operation-Now
      (check_timeout-Now (end_operation-Now now started d refl) env.settings.start_timeout starting)
      running refl

-- `ProcessItem` of `StartingStage` on an exported extension: it is running after a success, and has
-- failed or is skipped otherwise. Each of its transitions is one that `IsValidTransition` allows.
pub start-Ends :
    (env : Env) (t : ExtensionType) (w : Shared) (e : Extension)
    → Now t exported e
    → Ends t running (process_item (do_start env) w e).2 (process_item (do_start env) w e).1
unfolding is_valid_transition do_start
start-Ends env t w e now = process_item-Ends t exported running (do_start env) w e now refl (
    end_starting-Ends env t _ (start_plugin env.host w.loader (start_operation starting e)).1 _ _
      (start_operation-Now now starting refl))

-- `ParsingStage`: parsed after a success, corrupted otherwise.
abbrev pub Parses : ExtensionType → Result (Unit {0}) → Extension → Type 0
Parses t (ok _) e = Now t parsed e
Parses t (err m) e = Now t corrupted e

set_manifest-Now :
    (t : ExtensionType) (s : ExtensionState) (m : Manifest) (e : Extension)
    → Now t s e
    → Now t s (set_manifest m e)
unfolding set_manifest
set_manifest-Now t s m e now = record {
  type_is = now.type_is;
  state_is = now.state_is;
  sound = now.sound;
}

parsed_with-Parses :
    (t : ExtensionType) (d : ℕ) (r : Result Manifest) (e : Extension)
    → Now t parsing e
    → Parses t (parsed_with d r e).1 (parsed_with d r e).0
unfolding is_valid_transition
parsed_with-Parses t d (err m) e now = end_operation-Now (add_error-Now now m) corrupted d refl
parsed_with-Parses t d (ok m) e now =
    end_operation-Now (set_manifest-Now t parsing m e now) parsed d refl

-- `ProcessItem` of `ParsingStage` on a discovered extension: it is parsed after a success, and corrupted
-- otherwise. Each of its transitions is one that `IsValidTransition` allows.
pub parse_item-Parses :
    (env : Env) (t : ExtensionType) (d : ℕ) (e : Extension)
    → Now t discovered e
    → Parses t (parse_item env d e).1 (parse_item env d e).0
unfolding is_valid_transition parse_item
parse_item-Parses env t d e now =
    parsed_with-Parses t d (env.parse_manifest (start_operation parsing e)) _
      (start_operation-Now now parsing refl)
