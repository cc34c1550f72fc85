-- ===== src/Extension/Lifecycle.antt =====
-- The life cycle as a relation on states: the transitions that `SetState` asserts.
use plugify.Prelude.{
  ℕ, suc, ◌+◌, ◌<◌, ◌≤◌, ◌≡◌, refl, ◌↔◌, Bool, true, false, arith, Bool-cases, inl, inr,
}
use plugify.Extension.State.{
  ExtensionState, unknown, discovered, parsing, parsed, corrupted, resolving, resolved, unresolved,
  disabled, skipped, failed, loading, loaded, exporting, exported, starting, started, running,
  ending, ended, terminating, terminated, is_valid_transition,
}

-- The terminal states, as the switch lists them in its last case.
abbrev pub is_terminal : ExtensionState → Bool
is_terminal failed = true
is_terminal terminated = true
is_terminal corrupted = true
is_terminal unresolved = true
is_terminal disabled = true
is_terminal skipped = true
is_terminal _ = false

-- How far along its life an extension is; the terminal states stand at the end.
progress : ExtensionState → ℕ
progress unknown = 0
progress discovered = 1
progress parsing = 2
progress parsed = 3
progress resolving = 4
progress resolved = 5
progress loading = 6
progress loaded = 7
progress exporting = 8
progress exported = 9
progress starting = 10
progress started = 11
progress running = 12
progress ending = 13
progress ended = 14
progress terminating = 15
progress _ = 16

-- A life of so many transitions.
pub data Life : ExtensionState → ExtensionState → ℕ → Type 0 where
  still : {s : ExtensionState} → Life s s 0
  then :
      {s t u : ExtensionState} {n : ℕ}
      → Life s t n
      → is_valid_transition t u ≡ true
      → Life s u (suc n)

transition-progress :
    (s t : ExtensionState) → is_valid_transition s t ≡ true → progress s < progress t
unfolding is_valid_transition progress
transition-progress unknown t h = ground arith
transition-progress _ t h = ground arith

progress-le : (s : ExtensionState) → progress s ≤ 16
unfolding progress
progress-le unknown = omega arith
progress-le _ = omega arith

Life-progress : {s t : ExtensionState} {n : ℕ} → Life s t n → progress s + n ≤ progress t
Life-progress still = omega arith
Life-progress (then {t = t} {u = u} l h) = omega (arith, Life-progress l, transition-progress t u h)

-- Life cycles are finite: by valid transitions an extension changes its state 16 times at most.
pub Life-bounded : {s t : ExtensionState} {n : ℕ} → Life s t n → n ≤ 16
Life-bounded {s} {t} l = omega (arith, Life-progress l, progress-le t)

terminal-stuck :
    (s : ExtensionState)
    → is_terminal s ≡ true
    → (t : ExtensionState) → is_valid_transition s t ≡ false
unfolding is_valid_transition
terminal-stuck unknown h t = cc
terminal-stuck _ h t = ground arith

-- A state that can follow each state that is not terminal.
abbrev next : ExtensionState → ExtensionState
next unknown = discovered
next discovered = failed
next parsing = parsed
next parsed = failed
next resolving = resolved
next ended = terminating
next terminating = terminated
next loading = loaded
next _ = failed

next-valid : (s : ExtensionState) → is_terminal s ≡ false → is_valid_transition s (next s) ≡ true
unfolding is_valid_transition
next-valid unknown h = refl
next-valid _ h = ground arith

stuck-terminal :
    (s : ExtensionState)
    → ((t : ExtensionState) → is_valid_transition s t ≡ false)
    → is_terminal s ≡ true
stuck-terminal s h = elim (Bool-cases (is_terminal s)) [
  | inl e ↦ e
  | inr e ↦ let p = next-valid s e in let q = h (next s) in cc
]

-- The states that the switch calls terminal are exactly those with no valid transition.
pub is_terminal_iff :
    (s : ExtensionState)
    → (is_terminal s ≡ true) ↔ ((t : ExtensionState) → is_valid_transition s t ≡ false)
is_terminal_iff s = (terminal-stuck s, stuck-terminal s)
