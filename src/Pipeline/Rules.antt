-- ===== src/Pipeline/Rules.antt =====
-- Rules for the loops of the pipeline: what holds of the items afterwards, and what the counts say.
use Prim.Native.String.{String}
use plugify.Prelude.{
  ◌≤◌, ◌≡◌, refl, Bool, true, false, ◌&&◌, not, List, [], ◌∷◌, arith, ltb, All, Bool-cases, inl,
  inr,
}
use plugify.Extension.Core.{Result, ok, err}
use plugify.Pipeline.{
  StageStatistics, count, visit, execute_sequential, execute_transform, Stage, execute_stage,
  execute, total_failed,
}

count-failed :
    (r : Result (Unit {0})) (name : String) (s : StageStatistics)
    → s.failed ≤ (count r name s).failed
unfolding count
count-failed (ok u) name s = omega arith
count-failed (err m) name s = omega arith

count-ok :
    (r : Result (Unit {0})) (name : String) (s : StageStatistics)
    → (count r name s).failed ≤ s.failed
    → r ≡ ok tt
unfolding count
count-ok (ok u) name s h = refl
count-ok (err m) name s h = absurd (omega arith)

module _ {ℓ κ} {W : Type ℓ} {T : Type κ} (should : T → Bool)
    (process : W → T → W × T × Result (Unit {0})) (name : T → String) where
  visit-failed :
      (w : W) (s : StageStatistics) (x : T) → s.failed ≤ (visit should process name w s x).1.failed
  unfolding visit
  visit-failed w s x = elim (Bool-cases (should x)) [
    | inl e ↦ rw e (count-failed (process w x).2 _ s)
    | inr e ↦ rw e (omega arith)
  ]

  visit-Post {ν ξ} :
      (Pre : T → Type ν) (Post : T → Type ξ)
      → ((w : W) (x : T) → Pre x → should x ≡ true → Post (process w x).1)
      → ((x : T) → Pre x → should x ≡ false → Post x)
      → (w : W) (s : StageStatistics) (x : T) → Pre x
      → Post (visit should process name w s x).2
  unfolding visit
  visit-Post Pre Post done left w s x h = elim (Bool-cases (should x)) [
    | inl e ↦ rw e (done w x h e)
    | inr e ↦ rw e (left x h e)
  ]

  never_stops : (b d : Bool) → (b && (d && not true)) ≡ false
  never_stops b d = ground arith

  -- Where the stage continues on errors, every item is visited: what each visit makes hold holds of all.
  pub sequential-All {ν ξ} :
      (Pre : T → Type ν) (Post : T → Type ξ)
      → ((w : W) (x : T) → Pre x → should x ≡ true → Post (process w x).1)
      → ((x : T) → Pre x → should x ≡ false → Post x)
      → (w : W) (s : StageStatistics) (xs : List T) → All Pre xs
      → All Post (execute_sequential true should process name w s xs).2
  unfolding execute_sequential
  sequential-All Pre Post done left w s [] h = tt
  sequential-All Pre Post done left w s (x ∷ xs) h = rw (never_stops (should x) (ltb 0 s.failed)) (
    visit-Post Pre Post done left w s x h.0,
    sequential-All Pre Post done left (visit should process name w s x).0
        (visit should process name w s x).1 xs h.1,
  )

  -- The failures never become fewer.
  sequential-failed :
      (w : W) (s : StageStatistics) (xs : List T)
      → s.failed ≤ (execute_sequential true should process name w s xs).1.failed
  unfolding execute_sequential
  sequential-failed w s [] = omega arith
  sequential-failed w s (x ∷ xs) = rw (never_stops (should x) (ltb 0 s.failed)) (
      omega (
        arith,
        visit-failed w s x,
        sequential-failed (visit should process name w s x).0 (visit should process name w s x).1
            xs,
      ))

  visit-ok {ν ξ} :
      (Pre : T → Type ν) (Post : T → Type ξ)
      → ((w : W) (x : T) → Pre x → should x ≡ true → (process w x).2 ≡ ok tt → Post (process w x).1)
      → ((x : T) → Pre x → should x ≡ false → Post x)
      → (w : W) (s : StageStatistics) (x : T) → Pre x
      → (visit should process name w s x).1.failed ≤ s.failed
      → Post (visit should process name w s x).2
  unfolding visit
  visit-ok Pre Post done left w s x h f = elim (Bool-cases (should x)) [
    | inl e ↦
        rw e (done w x h e (count-ok (process w x).2 (name (process w x).1) s (rw (e, visit) at f)))
    | inr e ↦ rw e (left x h e)
  ]

  -- Where no failure is counted, every visit has succeeded.
  pub sequential-ok {ν ξ} :
      (Pre : T → Type ν) (Post : T → Type ξ)
      → ((w : W) (x : T) → Pre x → should x ≡ true → (process w x).2 ≡ ok tt → Post (process w x).1)
      → ((x : T) → Pre x → should x ≡ false → Post x)
      → (w : W) (s : StageStatistics) (xs : List T) → All Pre xs
      → (execute_sequential true should process name w s xs).1.failed ≤ s.failed
      → All Post (execute_sequential true should process name w s xs).2
  unfolding execute_sequential
  sequential-ok Pre Post done left w s [] h f = tt
  sequential-ok Pre Post done left w s (x ∷ xs) h f =
      let f' = rw (never_stops (should x) (ltb 0 s.failed)) at f in
      let up = visit-failed w s x in
      let more =
        sequential-failed (visit should process name w s x).0 (visit should process name w s x).1
          xs in
      rw (never_stops (should x) (ltb 0 s.failed)) (
        visit-ok Pre Post done left w s x h.0 (omega arith),
        sequential-ok Pre Post done left (visit should process name w s x).0
            (visit should process name w s x).1 xs h.1 (omega arith),
      )

module _ {κ} {T : Type κ} (should : T → Bool) (process : T → T × Result (Unit {0}))
    (name : T → String) where
  -- The same two rules for the stages that process each item on its own.
  pub transform-All {ν ξ} :
      (Pre : T → Type ν) (Post : T → Type ξ)
      → ((x : T) → Pre x → should x ≡ true → Post (process x).0)
      → ((x : T) → Pre x → should x ≡ false → Post x)
      → (s : StageStatistics) (xs : List T) → All Pre xs
      → All Post (execute_transform should process name s xs).1
  unfolding execute_transform
  transform-All Pre Post done left s [] h = tt
  transform-All Pre Post done left s (x ∷ xs) h = elim (Bool-cases (should x)) [
    | inl e ↦ rw e (
      done x h.0 e,
      transform-All Pre Post done left (count (process x).1 (name (process x).0) s) xs h.1,
    )
    | inr e ↦ rw e (left x h.0 e, transform-All Pre Post done left s xs h.1)
  ]

  transform-failed :
      (s : StageStatistics) (xs : List T)
      → s.failed ≤ (execute_transform should process name s xs).0.failed
  unfolding execute_transform
  transform-failed s [] = omega arith
  transform-failed s (x ∷ xs) = elim (Bool-cases (should x)) [
    | inl e ↦ rw e (
        omega (
          arith,
          count-failed (process x).1 (name (process x).0) s,
          transform-failed (count (process x).1 (name (process x).0) s) xs,
        ))
    | inr e ↦ rw e (transform-failed s xs)
  ]

  pub transform-ok {ν ξ} :
      (Pre : T → Type ν) (Post : T → Type ξ)
      → ((x : T) → Pre x → should x ≡ true → (process x).1 ≡ ok tt → Post (process x).0)
      → ((x : T) → Pre x → should x ≡ false → Post x)
      → (s : StageStatistics) (xs : List T) → All Pre xs
      → (execute_transform should process name s xs).0.failed ≤ s.failed
      → All Post (execute_transform should process name s xs).1
  unfolding execute_transform
  transform-ok Pre Post done left s [] h f = tt
  transform-ok Pre Post done left s (x ∷ xs) h f = elim (Bool-cases (should x)) [
    | inl e ↦
        let f' = rw e at f in
        let up = count-failed (process x).1 (name (process x).0) s in
        let more = transform-failed (count (process x).1 (name (process x).0) s) xs in
        rw e (
          done x h.0 e (count-ok (process x).1 (name (process x).0) s (omega arith)),
          transform-ok Pre Post done left (count (process x).1 (name (process x).0) s) xs h.1
              (omega arith),
        )
    | inr e ↦ rw e (left x h.0 e, transform-ok Pre Post done left s xs h.1 (rw e at f))
  ]

-- A report counts no failure only if no stage had one.
total_failed-zero :
    (s : StageStatistics) (rest : List StageStatistics)
    → total_failed (s ∷ rest) ≡ 0
    → (s.failed ≡ 0) × (total_failed rest ≡ 0)
unfolding total_failed
total_failed-zero s rest h = (omega arith, omega arith)

module _ {ℓ κ} {W : Type ℓ} {T : Type κ} where
  -- A pipeline whose report counts no failure has run its first stage without one, and then the rest
  -- of the stages on what that stage left.
  pub execute_zero :
      (w : W) (st : Stage W T) (sts : List (Stage W T)) (items : List T)
      → total_failed (execute w (st ∷ sts) items).1 ≡ 0
      → let first = execute_stage st w items in
        (first.1.failed ≡ 0)
        × (total_failed (execute first.0 sts first.2).1 ≡ 0)
        × ((execute w (st ∷ sts) items).2 ≡ (execute first.0 sts first.2).2)
  unfolding execute total_failed
  execute_zero w st sts items h = ground arith
