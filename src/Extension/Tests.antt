-- ===== src/Extension/Tests.antt =====
-- A life cycle of an extension, and a terminal state.
use plugify.Prelude.{◌≡◌, refl, ◌↔◌, ◌≤◌, true, false}
use plugify.Extension.State.{ExtensionState, discovered, parsing, corrupted, is_valid_transition}
use plugify.Extension.Lifecycle.{is_terminal, Life, still, then, Life-bounded, is_terminal_iff}

corrupted-Life : Life discovered corrupted 2
unfolding is_valid_transition
corrupted-Life = then {t = parsing} (then {t = discovered} still refl) refl

Life-bounded_example : 2 ≤ 16
Life-bounded_example = Life-bounded corrupted-Life

is_terminal_iff_example :
    (is_terminal corrupted ≡ true)
    ↔ ((t : ExtensionState) → is_valid_transition corrupted t ≡ false)
is_terminal_iff_example = is_terminal_iff corrupted
