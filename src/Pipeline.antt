-- ===== src/Pipeline.antt =====
-- src/core/pipeline.hpp and src/core/stages.hpp: a pipeline of stages over a vector of items. `W` is what
-- the stages share and change. Times, and the texts of the report, are not modelled.
pub mod Rules
pub mod Counts
mod Tests
use Prim.Native.String.{String}
use plugify.Prelude.{
  ℕ, suc, ◌+◌, Bool, true, false, ◌&&◌, not, List, [], ◌∷◌, ◌++◌, ltb, if◌then◌else◌, length,
}
use plugify.Extension.Core.{Result, ok, err, Message}

pub record StageStatistics : Type 0 where
  pub items_in : ℕ
  pub items_out : ℕ
  pub succeeded : ℕ
  pub failed : ℕ
  pub errors : List (String × Message)

abbrev pub no_statistics : StageStatistics
no_statistics = record { items_in = 0; items_out = 0; succeeded = 0; failed = 0; errors = [] }

-- `++stats.succeeded`, or `++stats.failed` with the item's name and the error.
unfoldable pub count : Result (Unit {0}) → String → StageStatistics → StageStatistics
count (ok _) name s = record s { succeeded = suc s.succeeded }
count (err m) name s = record s { failed = suc s.failed; errors = s.errors ++ (name, m) ∷ [] }

abbrev pub barrier_statistics : ℕ → String → Result (Unit {0}) → StageStatistics → StageStatistics
barrier_statistics n name (ok _) s = record s { succeeded = n; failed = 0 }
barrier_statistics n name (err m) s = record s {
  succeeded = 0;
  failed = n;
  errors = s.errors ++ (name, m) ∷ [];
}

module _ {ℓ κ} {W : Type ℓ} {T : Type κ} where
  -- An item that a stage does not want is left as it is.
  unfoldable pub visit :
      (T → Bool)
      → (W → T → W × T × Result (Unit {0}))
      → (T → String)
      → W
      → StageStatistics
      → T
      → W × StageStatistics × T
  unfolding count
  visit should process name w s x =
      if should x
      then (let (w', x', r) = process w x in (w', count r (name x') s, x'))
      else (w, s, x)

  -- `ExecuteSequential`; the first argument is `ContinueOnError`.
  unfoldable pub execute_sequential :
      Bool
      → (T → Bool)
      → (W → T → W × T × Result (Unit {0}))
      → (T → String)
      → W
      → StageStatistics
      → List T
      → W × StageStatistics × List T
  unfolding visit
  execute_sequential c should process name w s [] = (w, s, [])
  execute_sequential c should process name w s (x ∷ xs) =
      let (w', s', x') = visit should process name w s x in
      let rest = execute_sequential c should process name w' s' xs in
      if should x && (ltb 0 s.failed && not c)
      then (w, s, x ∷ xs)
      else (rest.0, rest.1, x' ∷ rest.2)

  -- `ExecuteBarrier`.
  unfoldable pub execute_barrier :
      String
      → (W → List T → W × List T × Result (Unit {0}))
      → W
      → StageStatistics
      → List T
      → W × StageStatistics × List T
  execute_barrier name process_all w s items =
      let (w', items', r) = process_all w items in
      (w', barrier_statistics (length items) name r s, items')

-- `ExecuteTransform`: each task of the pool has one item of its own, so the items come out as if they
-- were processed in order. (The order of the errors is the one in which the tasks end.)
unfoldable pub execute_transform {κ} :
    {T : Type κ}
    → (T → Bool)
    → (T → T × Result (Unit {0}))
    → (T → String)
    → StageStatistics
    → List T
    → StageStatistics × List T
unfolding count
execute_transform should process name s [] = (s, [])
execute_transform should process name s (x ∷ xs) =
    let (x', r) = process x in
    let kept = if should x then x' else x in
    let counted = if should x then count r (name x') s else s in
    let rest = execute_transform should process name counted xs in (rest.0, kept ∷ rest.1)

-- A stage of the pipeline: whether a failure ends the pipeline, `Setup`, and what `ExecuteStage` runs.
pub record Stage {ℓ κ} (W : Type ℓ) (T : Type κ) : Type (ℓ ⊔ κ) where
  pub required : Bool
  pub setup : W → List T → W
  pub run : W → StageStatistics → List T → W × StageStatistics × List T

module _ {ℓ κ} {W : Type ℓ} {T : Type κ} where
  -- `ExecuteStage`.
  unfoldable pub execute_stage : Stage W T → W → List T → W × StageStatistics × List T
  execute_stage st w items =
      let (w', s, items') =
        st.run (st.setup w items) (record no_statistics { items_in = length items }) items in
      (w', record s { items_out = length items' }, items')

  -- `Execute`: the statistics of the stages that ran, up to the first required one that failed.
  unfoldable pub execute : W → List (Stage W T) → List T → W × List StageStatistics × List T
  unfolding execute_stage
  execute w [] items = (w, [], items)
  execute w (st ∷ sts) items =
      let (w', s, items') = execute_stage st w items in
      let rest = execute w' sts items' in
      if ltb 0 s.failed && st.required then (w', s ∷ [], items') else (rest.0, s ∷ rest.1, rest.2)

-- The sum of the failures over the stages of a report.
unfoldable pub total_failed : List StageStatistics → ℕ
total_failed [] = 0
total_failed (s ∷ rest) = s.failed + total_failed rest
