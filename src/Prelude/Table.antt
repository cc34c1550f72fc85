-- ===== src/Prelude/Table.antt =====
-- A hash map from numbers as the list of its entries, in any order.
use Prim.Native.Nat.{ℕ, suc}
use mathlib.Core.Path.{◌≡◌, refl}
use mathlib.Core.Bool.{Bool, true, false}
use mathlib.Core.Option.{Option, none, some}
use mathlib.Core.List.{List, [], ◌∷◌}
use native.Mathlib.Omega.{arith}
use plugify.Prelude.Tests.{◌==◌, if◌then◌else◌}
use plugify.Prelude.Lists.{length}

abbrev pub Table {ℓ} : Type ℓ → Type ℓ
Table A = List (ℕ × A)

module _ {ℓ} {A : Type ℓ} where
  -- `find`, with the value that it points to.
  unfoldable pub find : ℕ → Table A → Option A
  find k [] = none
  find k ((j, a) ∷ rest) = if j == k then some a else find k rest

  -- `table[k] = a`.
  unfoldable pub assign : ℕ → A → Table A → Table A
  assign k a [] = (k, a) ∷ []
  assign k a ((j, b) ∷ rest) = if j == k then (j, a) ∷ rest else (j, b) ∷ assign k a rest

  abbrev pub is_some : Option A → Bool
  is_some none = false
  is_some (some a) = true

  pub find-assign :
      (k q : ℕ) (a : A) (t : Table A)
      → find q (assign k a t) ≡ (if k == q then some a else find q t)
  unfolding find assign
  find-assign k q a [] = refl
  find-assign k q a ((j, b) ∷ rest) = ground (arith, find-assign k q a rest)

  pub length-assign :
      (k : ℕ) (a : A) (t : Table A)
      → length (assign k a t) ≡ (if is_some (find k t) then length t else suc (length t))
  unfolding find assign
  length-assign k a [] = refl
  length-assign k a ((j, b) ∷ rest) = ground (arith, length-assign k a rest)
