-- ===== src/Extension/State.antt =====
-- include/plugify/extension.hpp, include/plugify/types.hpp and src/core/extension.cpp: the states and
-- the types of an extension, and `Extension::IsValidTransition`.
use plugify.Prelude.{ℕ, Bool, true, false, List, [], ◌∷◌, ◌==◌, any_of}

-- The sentinel `Max`, which no extension is ever in, is left out.
pub data ExtensionState : Type 0 where
  unknown discovered : ExtensionState
  parsing parsed corrupted : ExtensionState
  resolving resolved unresolved : ExtensionState
  disabled skipped failed : ExtensionState
  loading loaded exporting exported starting started running : ExtensionState
  ending ended terminating terminated : ExtensionState

pub data ExtensionType : Type 0 where
  unknown_type module_type plugin_type : ExtensionType

-- The value of the enumerator.
abbrev pub to_number : ExtensionState → ℕ
to_number unknown = 0
to_number discovered = 1
to_number parsing = 2
to_number parsed = 3
to_number corrupted = 4
to_number resolving = 5
to_number resolved = 6
to_number unresolved = 7
to_number disabled = 8
to_number skipped = 9
to_number failed = 10
to_number loading = 11
to_number loaded = 12
to_number exporting = 13
to_number exported = 14
to_number starting = 15
to_number started = 16
to_number running = 17
to_number ending = 18
to_number ended = 19
to_number terminating = 20
to_number terminated = 21

abbrev pub same_state : ExtensionState → ExtensionState → Bool
same_state s t = to_number s == to_number t

abbrev pub is_module : ExtensionType → Bool
is_module module_type = true
is_module plugin_type = false
is_module unknown_type = false

abbrev pub is_plugin : ExtensionType → Bool
is_plugin module_type = false
is_plugin plugin_type = true
is_plugin unknown_type = false

-- The states that the switch lets follow a state.
unfoldable pub targets : ExtensionState → List ExtensionState
targets unknown = discovered ∷ []
targets discovered = parsing ∷ failed ∷ []
targets parsing = parsed ∷ corrupted ∷ []
targets parsed = resolving ∷ failed ∷ disabled ∷ []
targets resolving = resolved ∷ unresolved ∷ disabled ∷ []
targets resolved = loading ∷ skipped ∷ failed ∷ []
targets loading = loaded ∷ failed ∷ []
targets loaded = running ∷ exporting ∷ skipped ∷ failed ∷ []
targets exporting = exported ∷ skipped ∷ failed ∷ []
targets exported = starting ∷ skipped ∷ failed ∷ []
targets starting = started ∷ skipped ∷ failed ∷ []
targets started = running ∷ failed ∷ []
targets running = ending ∷ failed ∷ []
targets ending = ended ∷ failed ∷ []
targets ended = terminating ∷ []
targets terminating = terminated ∷ []
targets failed = []
targets terminated = []
targets corrupted = []
targets unresolved = []
targets disabled = []
targets skipped = []

unfoldable pub is_valid_transition : ExtensionState → ExtensionState → Bool
unfolding targets
is_valid_transition from to = any_of (λ s. same_state to s) (targets from)
