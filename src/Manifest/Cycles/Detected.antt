-- ===== src/Manifest/Cycles/Detected.antt =====
-- What `DetectCycles` decides: it reports a cycle exactly if the prototypes have one.
use plugify.Prelude.{
  ℕ, ◌≡◌, refl, sym, subst, ◌⊎◌, inl, inr, true, List, [], ◌∷◌, ◌==◌, ==_iff, arith, All,
  Bool-cases, length, Option, some,
}
use plugify.Graph.{contains}
use plugify.Manifest.Types.{Heap}
use plugify.Manifest.Checked.{Checked, ok, err, reference_cycle}
use plugify.Manifest.Cycles.{
  unvisited, Marks, Visit, visited, cycle, out_of_fuel, visit, nested, reported, detect_cycles,
}
use plugify.Manifest.Cycles.Search.{Reaches, direct, further, Ordered, Leads, left, Visits}
use plugify.Manifest.Cycles.Order.{contains_later, All-contained}
use plugify.Manifest.Cycles.Visiting.{Closed, each-Visits, visit-Visits}

All-contains : (P : ℕ → Type 0) (xs : List ℕ) (x : ℕ) → All P xs → contains xs x ≡ true → P x
All-contains P [] x a e = absurd (cc e)
All-contains P (y ∷ ys) x (h, hs) e = elim (Bool-cases (x == y)) [
  | inl same ↦ subst P (sym ((==_iff x y).0 same)) h
  | inr n ↦ All-contains P ys x hs (rw n at e)
]

module _ (children : ℕ → List ℕ) where
  Ordered-step :
      (ps : List ℕ) (p c : ℕ)
      → Ordered children ps
      → contains ps p ≡ true
      → contains (children p) c ≡ true
      → contains ps c ≡ true
  Ordered-step [] p c o h e = absurd (cc h)
  Ordered-step (q ∷ qs) p c (a, o) h e = elim (Bool-cases (p == q)) [
    | inl same ↦ contains_later q c qs (
        All-contains _ (children q) c a
          (subst (λ x. contains (children x) c ≡ true) ((==_iff p q).0 same) e))
    | inr n ↦ contains_later q c qs (Ordered-step qs p c o (rw n at h) e)
  ]

  -- What the first of an ordered list refers to stands behind it.
  Ordered-first :
      (p r : ℕ) (ps : List ℕ)
      → Ordered children (p ∷ ps)
      → Reaches children p r
      → contains ps r ≡ true
  Ordered-first p r ps (a, o) (direct e) = All-contains _ (children p) r a e
  Ordered-first p r ps (a, o) (further {q = q} h e) =
      Ordered-step ps q r o (Ordered-first p q ps (a, o) h) e

  Ordered-no_cycle :
      (ps : List ℕ) (p : ℕ) → Ordered children ps → contains ps p ≡ true → ¬ Reaches children p p
  Ordered-no_cycle [] p o h r = absurd (cc h)
  Ordered-no_cycle (q ∷ qs) p (a, o) h r = elim (Bool-cases (p == q)) [
    | inl same ↦
        (let e = (==_iff p q).0 same in
          Ordered-no_cycle qs p o
            (subst (λ x. contains qs x ≡ true) (sym e)
              (Ordered-first q q qs (a, o) (subst (λ x. Reaches children x x) e r)))
            r)
    | inr n ↦ Ordered-no_cycle qs p o (rw n at h) r
  ]

  left-length : (ps : List ℕ) → left (λ p. unvisited) ps ≡ length ps
  left-length [] = refl
  left-length (p ∷ ps) = omega (arith, left-length ps)

no_Leads : (children : ℕ → List ℕ) (ps : List ℕ) → All (λ p. Leads children (λ q. unvisited) p) ps
no_Leads children [] = tt
no_Leads children (p ∷ ps) = ((λ q e. absurd (cc e)), no_Leads children ps)

abbrev Decides : Heap → List ℕ → Option (Checked (Unit {0})) → Type 0
Decides h prototypes outcome =
    ((outcome ≡ some (ok tt)) × ((p : ℕ) → contains prototypes p ≡ true → ¬ Reaches (nested h) p p))
    ⊎ ((p : ℕ) × (outcome ≡ some (err (reference_cycle (h.method_at p).name)))
        × Reaches (nested h) p p)

Visits-reported :
    (h : Heap) (ps : List ℕ) (marks : Marks) (v : Visit)
    → Visits (nested h) marks ps v
    → Decides h ps (reported h v)
Visits-reported h ps marks (visited after) ((order, all_in, ordered), a, ds) =
    inl (
      refl,
      λ p e. Ordered-no_cycle (nested h) order p ordered (all_in p (All-contains _ ps p ds e)),
    )
Visits-reported h ps marks (cycle r) v = inr (r, refl, v)
Visits-reported h ps marks out_of_fuel v = absurd v

-- `DetectCycles`, on a table that holds every prototype that its prototypes refer to, always ends:
-- it accepts the table and no prototype of it refers to itself, in one step or in more, or it
-- reports the name of a prototype that does.
pub detect_cycles_total :
    (h : Heap) (prototypes : List ℕ)
    → Closed (nested h) prototypes
    → ((detect_cycles h prototypes ≡ some (ok tt))
        × ((p : ℕ) → contains prototypes p ≡ true → ¬ Reaches (nested h) p p))
      ⊎ ((p : ℕ) × (detect_cycles h prototypes ≡ some (err (reference_cycle (h.method_at p).name)))
          × Reaches (nested h) p p)
unfolding detect_cycles
detect_cycles_total h prototypes closed =
    Visits-reported h prototypes (λ p. unvisited) _
      (each-Visits (nested h) prototypes (visit (nested h) (length prototypes)) (length prototypes)
        (visit-Visits (nested h) prototypes closed (length prototypes)) prototypes (λ p. unvisited)
        ([], (λ q e. absurd (cc e)), tt) (no_Leads (nested h) prototypes) (All-contained prototypes)
        (omega (arith, left-length (nested h) prototypes)))
