-- ===== src/Resolver/Tests.antt =====
-- Runs of the resolver's last step: a plugin that requires the module of its language.
use plugify.Prelude.{ℕ, ◌≡◌, refl, ◌↔◌, true, false, List, [], ◌∷◌, ◌==◌, if◌then◌else◌}
use plugify.Graph.{find, edges, contains}
use plugify.Stages.Shared.{ResolutionReport}
use plugify.Tracker.{has_any_dependency_failed}
use plugify.Resolver.{Pool, compute_installation_order}
use plugify.Resolver.Transpose.{
  IsTransposed, compute_installation_order-IsTransposed, has_any_dependency_failed_iff,
}

-- Solvable 8 is the plugin and requires 5, which solvable 9, the module, provides.
abbrev pool : Pool
pool = record {
  requires = λ p. if p == 8 then 5 ∷ [] else [];
  what_provides = λ req. if req == 5 then 9 ∷ [] else [];
}

abbrev ids : List (ℕ × ℕ)
ids = (8, 1) ∷ (9, 0) ∷ []

abbrev empty_report : ResolutionReport
empty_report = record {
  issues = [];
  dependency_graph = [];
  reverse_dependency_graph = [];
  load_order = [];
  is_load_order_valid = false;
}

empty_report-IsTransposed : IsTransposed empty_report
unfolding find
empty_report-IsTransposed a b = refl

compute_installation_order-IsTransposed_example :
    IsTransposed (compute_installation_order pool ids (9 ∷ 8 ∷ []) empty_report)
compute_installation_order-IsTransposed_example =
    compute_installation_order-IsTransposed pool ids (9 ∷ 8 ∷ []) empty_report
      empty_report-IsTransposed

abbrev report : ResolutionReport
report = compute_installation_order pool ids (9 ∷ 8 ∷ []) empty_report

report_order : report.load_order ≡ 0 ∷ 1 ∷ []
unfolding compute_installation_order
report_order = refl

-- When the plugin has failed, its module is the one to be skipped.
has_any_dependency_failed_iff_example :
    (has_any_dependency_failed (1 ∷ []) 0 report.reverse_dependency_graph ≡ true) ↔ (
      (other : ℕ) × (contains (1 ∷ []) other ≡ true)
      × (contains (edges other report.dependency_graph) 0 ≡ true))
has_any_dependency_failed_iff_example = has_any_dependency_failed_iff report (1 ∷ []) 0 (
    compute_installation_order-IsTransposed pool ids (9 ∷ 8 ∷ []) empty_report
      empty_report-IsTransposed)

module_skipped : has_any_dependency_failed (1 ∷ []) 0 report.reverse_dependency_graph ≡ true
unfolding compute_installation_order has_any_dependency_failed find
module_skipped = refl

-- When the module has failed, the plugin that needs it is not skipped.
plugin_kept : has_any_dependency_failed (0 ∷ []) 1 report.reverse_dependency_graph ≡ false
unfolding compute_installation_order has_any_dependency_failed find
plugin_kept = refl
