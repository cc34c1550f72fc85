-- ===== src/Pipeline/Counts.antt =====
-- What the statistics of a stage count.
use Prim.Native.String.{String}
use plugify.Prelude.{
  ℕ, suc, ◌+◌, ◌≤◌, ◌≡◌, refl, Bool, true, false, ◌&&◌, not, List, [], ◌∷◌, arith, ltb,
  if◌then◌else◌, length, length-append, Bool-cases, inl, inr,
}
use plugify.Extension.Core.{Result, ok, err}
use plugify.Pipeline.{StageStatistics, count, visit, execute_sequential, execute_transform}

-- How many items a stage wants.
abbrev pub wanted {κ} : {T : Type κ} → (T → Bool) → List T → ℕ
wanted should [] = 0
wanted should (x ∷ xs) = if should x then suc (wanted should xs) else wanted should xs

-- The items that were processed, by their results.
abbrev pub processed : StageStatistics → ℕ
processed s = s.succeeded + s.failed

count-processed :
    (r : Result (Unit {0})) (name : String) (s : StageStatistics)
    → processed (count r name s) ≡ suc (processed s)
unfolding count
count-processed (ok u) name s = omega arith
count-processed (err m) name s = omega arith

count-errors :
    (r : Result (Unit {0})) (name : String) (s : StageStatistics)
    → length s.errors ≡ s.failed
    → length (count r name s).errors ≡ (count r name s).failed
unfolding count
count-errors (ok u) name s h = h
count-errors (err m) name s h = omega (arith, length-append s.errors ((name, m) ∷ []), h)

count-at_most_one :
    (r : Result (Unit {0})) (name : String) (s : StageStatistics)
    → s.failed ≡ 0
    → (count r name s).failed ≤ 1
unfolding count
count-at_most_one (ok u) name s h = omega arith
count-at_most_one (err m) name s h = omega arith

none_yet : (n : ℕ) → (true && (ltb 0 n && not false)) ≡ false → n ≡ 0
none_yet n h = ground arith

module _ {ℓ κ} {W : Type ℓ} {T : Type κ} (should : T → Bool)
    (process : W → T → W × T × Result (Unit {0})) (name : T → String) where
  never_stops : (b d : Bool) → (b && (d && not true)) ≡ false
  never_stops b d = ground arith

  visit-processed :
      (w : W) (s : StageStatistics) (x : T) (n : ℕ)
      → processed (visit should process name w s x).1 + n
        ≡ processed s + (if should x then suc n else n)
  unfolding visit
  visit-processed w s x n = elim (Bool-cases (should x)) [
    | inl e ↦ rw e (omega (arith, count-processed (process w x).2 (name (process w x).1) s))
    | inr e ↦ rw e refl
  ]

  -- `ExecuteSequential` of a stage that continues on errors counts each item that the stage wants once,
  -- as a success or as a failure, whatever the items before it came to.
  pub sequential-processed :
      (w : W) (s : StageStatistics) (xs : List T)
      → processed (execute_sequential true should process name w s xs).1
        ≡ processed s + wanted should xs
  unfolding execute_sequential
  sequential-processed w s [] = omega arith
  sequential-processed w s (x ∷ xs) = rw (never_stops (should x) (ltb 0 s.failed)) (
      omega (
        arith,
        sequential-processed (visit should process name w s x).0 (visit should process name w s x).1
            xs,
        visit-processed w s x (wanted should xs),
      ))

  visit-errors :
      (w : W) (s : StageStatistics) (x : T)
      → length s.errors ≡ s.failed
      → length (visit should process name w s x).1.errors
        ≡ (visit should process name w s x).1.failed
  unfolding visit
  visit-errors w s x h = elim (Bool-cases (should x)) [
    | inl e ↦ rw e (count-errors (process w x).2 (name (process w x).1) s h)
    | inr e ↦ rw e h
  ]

  visit-at_most_one :
      (w : W) (s : StageStatistics) (x : T)
      → s.failed ≤ 1
      → (should x && (ltb 0 s.failed && not false)) ≡ false
      → (visit should process name w s x).1.failed ≤ 1
  unfolding visit
  visit-at_most_one w s x h k = elim (Bool-cases (should x)) [
    | inl e ↦
        rw e (
          count-at_most_one (process w x).2 (name (process w x).1) s
            (none_yet s.failed (rw e at k)))
    | inr e ↦ rw e h
  ]

  -- `ExecuteSequential` keeps one error for each failure, whether it continues on errors or stops, if
  -- the statistics have that to begin with.
  pub sequential-errors :
      (c : Bool) (w : W) (s : StageStatistics) (xs : List T)
      → length s.errors ≡ s.failed
      → length (execute_sequential c should process name w s xs).1.errors
        ≡ (execute_sequential c should process name w s xs).1.failed
  unfolding execute_sequential
  sequential-errors c w s [] h = h
  sequential-errors c w s (x ∷ xs) h = elim (Bool-cases (should x && (ltb 0 s.failed && not c))) [
    | inl e ↦ rw e h
    | inr e ↦ rw e (
        sequential-errors c (visit should process name w s x).0 (visit should process name w s x).1
          xs (visit-errors w s x h))
  ]

  -- A sequential stage that does not continue on errors counts one failure at most, if none or one was
  -- counted to begin with.
  pub sequential-at_most_one :
      (w : W) (s : StageStatistics) (xs : List T)
      → s.failed ≤ 1
      → (execute_sequential false should process name w s xs).1.failed ≤ 1
  unfolding execute_sequential
  sequential-at_most_one w s [] h = h
  sequential-at_most_one w s (x ∷ xs) h =
      elim (Bool-cases (should x && (ltb 0 s.failed && not false))) [
        | inl e ↦ rw e h
        | inr e ↦ rw e (
            sequential-at_most_one (visit should process name w s x).0
              (visit should process name w s x).1 xs (visit-at_most_one w s x h e))
      ]

  -- `ExecuteSequential` from statistics that hold one error for each of at most one failure: if it
  -- continues on errors, it counts each item that the stage wants exactly once; whether it continues
  -- or not, it keeps one error for each failure; and if it does not continue, it counts at most one
  -- failure.
  pub sequential_counts :
      (w : W) (s : StageStatistics) (xs : List T)
      → length s.errors ≡ s.failed
      → s.failed ≤ 1
      → (processed (execute_sequential true should process name w s xs).1
          ≡ processed s + wanted should xs)
        × ((c : Bool)
            → length (execute_sequential c should process name w s xs).1.errors
              ≡ (execute_sequential c should process name w s xs).1.failed)
        × ((execute_sequential false should process name w s xs).1.failed ≤ 1)
  sequential_counts w s xs h k = (
    sequential-processed w s xs,
    (λ c. sequential-errors c w s xs h),
    sequential-at_most_one w s xs k,
  )

module _ {κ} {T : Type κ} (should : T → Bool) (process : T → T × Result (Unit {0}))
    (name : T → String) where
  -- `ExecuteTransform` counts each item that the stage wants once, as a success or as a failure.
  pub transform-processed :
      (s : StageStatistics) (xs : List T)
      → processed (execute_transform should process name s xs).0 ≡ processed s + wanted should xs
  unfolding execute_transform
  transform-processed s [] = omega arith
  transform-processed s (x ∷ xs) = elim (Bool-cases (should x)) [
    | inl e ↦ rw e (
        omega (
          arith,
          transform-processed (count (process x).1 (name (process x).0) s) xs,
          count-processed (process x).1 (name (process x).0) s,
        ))
    | inr e ↦ rw e (transform-processed s xs)
  ]
