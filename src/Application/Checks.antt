-- ===== src/Application/Checks.antt =====
-- When the two steps of `CheckDirectories` report no error.
use plugify.Prelude.{
  ◌≡◌, ◌↔◌, refl, Bool, true, false, List, [], ◌∷◌, ◌++◌, empty, if◌then◌else◌, All, Bool-cases,
  inl, inr,
}
use plugify.Config.{Platform}
use plugify.Application.{
  Disk, PathValidation, Problem, ValidationResult, push_error, is_success, overlap, check_existence,
  check_path, check_paths, check_pair, check_against, check_collisions,
}

abbrev pub Clean : ValidationResult → Type 0
Clean r = is_success r ≡ true

not-Clean : (e : Problem) (r : ValidationResult) → ¬ Clean (push_error e r)
not-Clean e r h = absurd (cc (h, appended r.errors))
  where
    appended : (xs : List Problem) → empty (xs ++ e ∷ []) ≡ false
    appended [] = refl
    appended (x ∷ xs) = refl

module _ {World FsPath : Type 0} (os : Platform FsPath) (fs : Disk World FsPath) where
  pub record Good (w : World) (v : PathValidation FsPath) : Type 0 where
    pub configured : os.is_empty v.path ≡ false
    pub normal : os.equal (os.lexically_normal v.path) v.path ≡ true
    pub relative : v.require_relative ≡ true → os.is_relative v.path ≡ true
    pub exists : v.require_exists ≡ true → fs.is_exists w v.path ≡ true

  existence-Clean :
      (e : Bool) (v : PathValidation FsPath) (r : ValidationResult)
      → Clean (check_existence os fs e v r) ↔ (Clean r × (v.require_exists ≡ true → e ≡ true))
  existence-Clean true v r = elim (Bool-cases v.require_exists) [
    | inl i ↦ ((λ h. (rw i at h, λ x. refl)), λ h. rw i h.0)
    | inr i ↦ ((λ h. (rw i at h, λ x. refl)), λ h. rw i h.0)
  ]
  existence-Clean false v r = elim (Bool-cases v.require_exists) [
    | inl i ↦ ((λ h. absurd (not-Clean _ r (rw i at h))), λ h. absurd (cc (h.1 i)))
    | inr i ↦ elim (Bool-cases v.can_create) [
      | inl c ↦ ((λ h. (rw (i, c) at h, λ x. absurd (cc (x, i)))), λ h. rw i (rw c h.0))
      | inr c ↦ ((λ h. (rw (i, c) at h, λ x. absurd (cc (x, i)))), λ h. rw i (rw c h.0))
    ]
  ]

  path-Clean :
      (w : World) (v : PathValidation FsPath) (r : ValidationResult)
      → Clean (check_path os fs w v r) ↔ (Clean r × Good w v)
  unfolding check_path
  path-Clean w v r = elim (Bool-cases (os.is_empty v.path)) [
    | inl e ↦ ((λ h. absurd (not-Clean _ r (rw e at h))), λ h. absurd (cc (e, h.1.configured)))
    | inr e ↦ elim (Bool-cases (os.equal (os.lexically_normal v.path) v.path)) [
      | inr n ↦ ((λ h. absurd (not-Clean _ r (rw (e, n) at h))), λ h. absurd (cc (n, h.1.normal)))
      | inl n ↦
          (let rest = existence-Clean (fs.is_exists w v.path) v r in
            elim (Bool-cases v.require_relative) [
              | inr i ↦ (
                (λ h.
                    (let k = rest.0 (rw (e, n, i) at h) in
                      (
                        k.0,
                        record {
                          configured = e;
                          normal = n;
                          relative = λ x. absurd (cc (x, i));
                          exists = k.1;
                        },
                      ))),
                λ h. rw e (rw n (rw i (rest.1 (h.0, h.1.exists)))),
              )
              | inl i ↦ elim (Bool-cases (os.is_relative v.path)) [
                | inl a ↦ (
                  (λ h.
                      (let k = rest.0 (rw (e, n, i, a) at h) in
                        (
                          k.0,
                          record { configured = e; normal = n; relative = λ x. a; exists = k.1 },
                        ))),
                  λ h. rw e (rw n (rw i (rw a (rest.1 (h.0, h.1.exists))))),
                )
                | inr a ↦ (
                  (λ h. absurd (not-Clean _ r (rw (e, n, i, a) at h))),
                  λ h. absurd (cc (h.1.relative i, a)),
                )
              ]
            ])
    ]
  ]

  pub paths-Clean :
      (w : World) (vs : List (PathValidation FsPath)) (r : ValidationResult)
      → Clean (check_paths os fs w vs r) ↔ (Clean r × All (Good w) vs)
  unfolding check_paths
  paths-Clean w [] r = ((λ h. (h, tt)), λ h. h.0)
  paths-Clean w (v ∷ vs) r =
      (let rest = paths-Clean w vs (check_path os fs w v r) in
        let first = path-Clean w v r in
        (
          (λ h. (let k = rest.0 h in let j = first.0 k.0 in (j.0, (j.1, k.1)))),
          λ h. rest.1 (first.1 (h.0, h.1.0), h.1.1),
        ))

  -- Two validations do not clash, if their paths are set.
  abbrev pub Free : PathValidation FsPath → PathValidation FsPath → Type 0
  Free v u = os.is_empty u.path ≡ false → overlap (os.elements v.path) (os.elements u.path) ≡ false

  pair-Clean :
      (v u : PathValidation FsPath) (r : ValidationResult)
      → Clean (check_pair os fs v u r) ↔ (Clean r × Free v u)
  pair-Clean v u r = elim (Bool-cases (os.is_empty u.path)) [
    | inl e ↦ ((λ h. (rw e at h, λ x. absurd (cc (x, e)))), λ h. rw e h.0)
    | inr e ↦ elim (Bool-cases (overlap (os.elements v.path) (os.elements u.path))) [
      | inl o ↦ ((λ h. absurd (not-Clean _ r (rw (e, o) at h))), λ h. absurd (cc (h.1 e, o)))
      | inr o ↦ ((λ h. (rw (e, o) at h, λ x. o)), λ h. rw e (rw o h.0))
    ]
  ]

  against-Clean :
      (v : PathValidation FsPath) (us : List (PathValidation FsPath)) (r : ValidationResult)
      → Clean (check_against os fs v us r) ↔ (Clean r × All (Free v) us)
  unfolding check_against
  against-Clean v [] r = ((λ h. (h, tt)), λ h. h.0)
  against-Clean v (u ∷ us) r =
      (let rest = against-Clean v us (check_pair os fs v u r) in
        let first = pair-Clean v u r in
        (
          (λ h. (let k = rest.0 h in let j = first.0 k.0 in (j.0, (j.1, k.1)))),
          λ h. rest.1 (first.1 (h.0, h.1.0), h.1.1),
        ))

  unfoldable pub AllFree : List (PathValidation FsPath) → Type 0
  AllFree [] = Unit
  AllFree (v ∷ vs) = (os.is_empty v.path ≡ false → All (Free v) vs) × AllFree vs

  outer-Clean :
      (v : PathValidation FsPath) (vs : List (PathValidation FsPath)) (r : ValidationResult)
      → Clean (if os.is_empty v.path then r else check_against os fs v vs r)
        ↔ (Clean r × (os.is_empty v.path ≡ false → All (Free v) vs))
  outer-Clean v vs r = elim (Bool-cases (os.is_empty v.path)) [
    | inl e ↦ ((λ h. (rw e at h, λ x. absurd (cc (x, e)))), λ h. rw e h.0)
    | inr e ↦
        (let all = against-Clean v vs r in
          ((λ h. (let k = all.0 (rw e at h) in (k.0, λ x. k.1))), λ h. rw e (all.1 (h.0, h.1 e))))
  ]

  pub collisions-Clean :
      (vs : List (PathValidation FsPath)) (r : ValidationResult)
      → Clean (check_collisions os fs vs r) ↔ (Clean r × AllFree vs)
  unfolding check_collisions AllFree
  collisions-Clean [] r = ((λ h. (h, tt)), λ h. h.0)
  collisions-Clean (v ∷ vs) r =
      (let rest =
          collisions-Clean vs (if os.is_empty v.path then r else check_against os fs v vs r) in
        let first = outer-Clean v vs r in
        (
          (λ h. (let k = rest.0 h in let j = first.0 k.0 in (j.0, (j.1, k.1)))),
          λ h. rest.1 (first.1 (h.0, h.1.0), h.1.1),
        ))
