-- ===== src/Pipeline/Tests.antt =====
-- A sequential stage on numbers: it wants those above 2 and fails on 4.
use Prim.Native.String.{String}
use plugify.Prelude.{
  ℕ, suc, ◌+◌, ◌≡◌, ◌≤◌, refl, Bool, true, false, List, [], ◌∷◌, ltb, ◌==◌, if◌then◌else◌, length,
  arith,
}
use plugify.Extension.Core.{Result, ok, err, out_of_memory}
use plugify.Pipeline.{no_statistics, execute_sequential}
use plugify.Pipeline.Counts.{wanted, processed, sequential_counts}

abbrev wants : ℕ → Bool
wants n = ltb 2 n

abbrev work : ℕ → ℕ → ℕ × ℕ × Result (Unit {0})
work w n = (suc w, n, if n == 4 then err out_of_memory else ok tt)

abbrev work_alone : ℕ → ℕ × Result (Unit {0})
work_alone n = (n, if n == 4 then err out_of_memory else ok tt)

abbrev label : ℕ → String
label n = "item"

abbrev items : List ℕ
items = 1 ∷ 3 ∷ 4 ∷ 5 ∷ 4 ∷ []

two_failures : (execute_sequential true wants work label 0 no_statistics items).1.failed ≡ 2
unfolding execute_sequential
two_failures = refl

one_failure : (execute_sequential false wants work label 0 no_statistics items).1.failed ≡ 1
unfolding execute_sequential
one_failure = refl

sequential_counts_example :
    (processed (execute_sequential true wants work label 0 no_statistics items).1
      ≡ processed no_statistics + wanted wants items)
    × ((c : Bool)
        → length (execute_sequential c wants work label 0 no_statistics items).1.errors
          ≡ (execute_sequential c wants work label 0 no_statistics items).1.failed)
    × ((execute_sequential false wants work label 0 no_statistics items).1.failed ≤ 1)
sequential_counts_example =
    sequential_counts wants work label 0 no_statistics items refl (omega arith)
