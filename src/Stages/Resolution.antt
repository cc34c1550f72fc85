-- ===== src/Stages/Resolution.antt =====
-- src/core/stages_impl.hpp: `ResolutionStage`.
use Prim.Native.String.{String}
use plugify.Prelude.{
  ℕ, Bool, true, ◌&&◌, ◌||◌, not, Option, none, some, List, [], ◌∷◌, ◌++◌, map, ◌==◌, if◌then◌else◌,
  empty,
}
use plugify.Extension.State.{
  parsed, resolving, resolved, unresolved, disabled, same_state, is_module, is_plugin,
}
use plugify.Extension.Core.{
  Extension, Result, ok, err, excluded_by_policy, language_module_missing, foreign,
  nothing_to_resolve, no_loading_order, nothing_to_load, set_state, add_error, add_warning,
  add_dependency,
}
use plugify.Pipeline.{Stage, execute_barrier}
use plugify.Stages.Shared.{
  Env, Settings, Shared, ResolutionReport, DependencyIssue, contains_text, find_text, insert_text,
}

-- `IsSupportsPlatform`.
abbrev pub is_supports_platform : String → List String → Bool
is_supports_platform platform supported = empty supported || contains_text supported platform

-- The four checks of `FilterByPolicy`, in their order.
abbrev pub is_included : Settings → Extension → Bool
is_included c e =
    same_state e.state parsed
    && ((empty c.whitelisted_extensions || contains_text c.whitelisted_extensions e.name)
        && (not (contains_text c.blacklisted_extensions e.name)
            && is_supports_platform c.platform e.platforms))

-- An extension that is left out.
abbrev pub exclude : Extension → Extension
exclude e =
    if same_state e.state parsed then add_warning excluded_by_policy (set_state disabled e) else e

unfoldable pub filter_by_policy : Settings → List Extension → List Extension × List Extension
unfolding set_state add_warning
filter_by_policy c [] = ([], [])
filter_by_policy c (e ∷ es) =
    let (filtered, excluded) = filter_by_policy c es in
    if is_included c e
    then (set_state resolving e ∷ filtered, excluded)
    else (filtered, exclude e ∷ excluded)

-- The first loop of `AddLanguageDependencies`: the last module of a language is its module.
unfoldable pub collect_languages : List Extension → List (String × String) → List (String × String)
unfolding insert_text
collect_languages [] languages = languages
collect_languages (e ∷ es) languages =
    collect_languages es
      (if is_module e.type then insert_text e.language e.name languages else languages)

abbrev pub add_language : Option String → Extension → Extension
add_language (some name) e = add_dependency name e
add_language none e = add_error (language_module_missing e.language) (add_dependency e.language e)

unfoldable pub add_language_dependencies : List Extension → List Extension
unfolding collect_languages find_text add_dependency add_error
add_language_dependencies items =
    let languages = collect_languages items [] in
    map (λ e. if is_plugin e.type then add_language (find_text e.language languages) e else e) items

-- `idToExtension[ext.GetId()] = ext`.
unfoldable pub insert_extension : Extension → List Extension → List Extension
insert_extension e [] = e ∷ []
insert_extension e (x ∷ xs) = if x.id == e.id then e ∷ xs else x ∷ insert_extension e xs

unfoldable pub by_id : List Extension → List Extension → List Extension
unfolding insert_extension
by_id [] m = m
by_id (e ∷ es) m = by_id es (insert_extension e m)

abbrev pub kept_before :
    Extension → Option (Extension × List Extension) → Option (Extension × List Extension)
kept_before x none = none
kept_before x (some (y, ys)) = some (y, x ∷ ys)

-- `find` and `erase` of an identifier.
unfoldable pub take_extension : ℕ → List Extension → Option (Extension × List Extension)
take_extension id [] = none
take_extension id (x ∷ xs) =
    let rest = take_extension id xs in if x.id == id then some (x, xs) else kept_before x rest

-- The loop over the load order: the resolved extensions, and what is left of the map.
unfoldable pub in_load_order : List ℕ → List Extension → List Extension × List Extension
unfolding take_extension set_state
in_load_order [] m = ([], m)
in_load_order (id ∷ ids) m = elim (take_extension id m) [
  | none ↦ in_load_order ids m
  | some (e, m') ↦ (let (done, left) = in_load_order ids m' in (set_state resolved e ∷ done, left))
]

unfoldable pub add_issue : Extension → DependencyIssue → Extension
unfolding add_error add_warning
add_issue e i =
    if i.is_blocking
    then add_error (foreign i.description) e
    else add_warning (foreign i.description) e

unfoldable pub add_issues : List DependencyIssue → Extension → Extension
unfolding add_issue
add_issues [] e = e
add_issues (i ∷ is) e = add_issues is (add_issue e i)

unfoldable pub find_issues : ℕ → List (ℕ × List DependencyIssue) → List DependencyIssue
find_issues id [] = []
find_issues id ((j, is) ∷ rest) = if j == id then is else find_issues id rest

unfoldable pub mark_unresolved : ResolutionReport → Extension → Extension
unfolding set_state add_issues find_issues
mark_unresolved report e = add_issues (find_issues e.id report.issues) (set_state unresolved e)

-- `BuildResultInOrder`, on the emptied vector of items.
unfoldable pub build_result_in_order :
    Env → List Extension → List Extension → ResolutionReport → List Extension
unfolding by_id in_load_order mark_unresolved
build_result_in_order env filtered excluded report =
    let (done, left) = in_load_order report.load_order (by_id filtered []) in
    done ++ (map (mark_unresolved report) (env.iteration_order left) ++ excluded)

-- `RestoreResult` keeps the extensions; `ProcessAll` stores the graphs only at its end.
unfoldable pub resolve_filtered :
    Env → Shared → List Extension → List Extension → Shared × List Extension × Result (Unit {0})
unfolding add_language_dependencies build_result_in_order
resolve_filtered env w filtered excluded =
    let items = add_language_dependencies filtered in
    let report = env.resolve items in
    if not report.is_load_order_valid
    then (w, items ++ excluded, err no_loading_order)
    else if empty report.load_order
    then (w, items ++ excluded, err nothing_to_load)
    else (
      record w {
        dep_graph = report.dependency_graph;
        reverse_dep_graph = report.reverse_dependency_graph;
        load_order = report.load_order;
      },
      build_result_in_order env items excluded report,
      ok tt,
    )

-- `ProcessAll`.
unfoldable pub resolve_all :
    Env → Shared → List Extension → Shared × List Extension × Result (Unit {0})
unfolding filter_by_policy resolve_filtered
resolve_all env w items =
    let (filtered, excluded) = filter_by_policy env.settings items in
    if empty filtered
    then (w, filtered ++ excluded, err nothing_to_resolve)
    else resolve_filtered env w filtered excluded

unfoldable pub resolution_stage : Env → Stage Shared Extension
unfolding resolve_all execute_barrier
resolution_stage env = record {
  required = true;
  setup = λ w items. w;
  run = λ w s items. execute_barrier "Resolution" (resolve_all env) w s items;
}
