-- ===== src/Stages/Shared.antt =====
-- src/core/stages_impl.hpp: what the stages share, and what they ask of parts that are not modelled.
use Prim.Native.String.{String}
use text.Mathlib.Text.{◌==◌ as str_eq}
use plugify.Prelude.{
  ℕ, Bool, Option, none, some, List, [], ◌∷◌, ◌≡◌, All, if◌then◌else◌, any_of, length,
}
use plugify.Version.Types.{Version}
use plugify.Extension.Core.{Extension, Result}
use plugify.Graph.{Graph}
use plugify.Loader.Host.{Host, Loader}

-- The fields of a parsed manifest that the stages read.
pub record Manifest : Type 0 where
  pub name : String
  pub version : Version
  pub language : String
  pub runtime : String
  pub platforms : List String
  pub methods : List ℕ
  pub dependencies : List String

-- include/plugify/dependency_resolver.hpp: an issue by its description, and the report.
pub record DependencyIssue : Type 0 where
  pub description : String
  pub is_blocking : Bool

pub record ResolutionReport : Type 0 where
  pub issues : List (ℕ × List DependencyIssue)
  pub dependency_graph : Graph
  pub reverse_dependency_graph : Graph
  pub load_order : List ℕ
  pub is_load_order_valid : Bool

-- The settings of include/plugify/config.hpp that the stages read.
pub record Settings : Type 0 where
  pub whitelisted_extensions : List String
  pub blacklisted_extensions : List String
  pub platform : String
  pub load_timeout : ℕ
  pub export_timeout : ℕ
  pub start_timeout : ℕ

pub record Env : Type 0 where
  pub host : Host
  pub settings : Settings
  -- Reading, checking and completing the manifest at an extension's location.
  pub parse_manifest : Extension → Result Manifest
  -- `IDependencyResolver::Resolve`.
  pub resolve : List Extension → ResolutionReport
  -- The order in which a std::unordered_map of extensions is gone through.
  pub iteration_order : List Extension → List Extension

-- Going through the map visits each of its elements once, and nothing else.
pub record VisitsElements (env : Env) : Type 1 where
  pub visits :
      (P : Extension → Type 0) (xs : List Extension) → All P xs → All P (env.iteration_order xs)
  pub visits_all : (xs : List Extension) → length (env.iteration_order xs) ≡ length xs

-- The failure tracker, the loader, the graphs, and the maps that two of the stages keep. An entry of
-- such a map is a pointer to an extension that the stage does not touch again, so its value is kept.
pub record Shared : Type 0 where
  pub loader : Loader
  pub tracker : List ℕ
  pub loaded_modules : List (String × Extension)
  pub running_modules : List Extension
  pub dep_graph : Graph
  pub reverse_dep_graph : Graph
  pub load_order : List ℕ

abbrev pub contains_text : List String → String → Bool
contains_text xs s = any_of (λ x. str_eq x s) xs

-- A std::map with texts as keys.
module _ {ℓ} {V : Type ℓ} where
  unfoldable pub find_text : String → List (String × V) → Option V
  find_text k [] = none
  find_text k ((j, v) ∷ rest) = if str_eq j k then some v else find_text k rest

  unfoldable pub insert_text : String → V → List (String × V) → List (String × V)
  insert_text k v [] = (k, v) ∷ []
  insert_text k v ((j, w) ∷ rest) =
      if str_eq j k then (j, v) ∷ rest else (j, w) ∷ insert_text k v rest
