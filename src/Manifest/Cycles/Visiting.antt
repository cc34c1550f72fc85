-- ===== src/Manifest/Cycles/Visiting.antt =====
-- The search from one prototype: it either ends with everything reached in order, or has a cycle.
use plugify.Prelude.{
  ℕ, zero, suc, ◌≤◌, ◌≡◌, sym, ◌∙◌, subst, inl, inr, true, List, [], ◌∷◌, arith, All, All-map_of,
}
use plugify.Graph.{contains}
use plugify.Manifest.Cycles.{on_stack, done, Marks, set_mark, Visit, visit_each, visit}
use plugify.Manifest.Cycles.Search.{
  Mark-cases, Reaches, direct, further, Sorted, Advances, Leads, left, Visits,
}
use plugify.Manifest.Cycles.Order.{
  set_cases, push_lt, left_le, first_then, finish-Visits, Advances-refl, All-contained,
}

module _ (children : ℕ → List ℕ) (all : List ℕ) where
  abbrev pub Within : List ℕ → Type 0
  Within ps = All (λ p. contains all p ≡ true) ps

  -- No prototype of the universe leads out of it.
  abbrev pub Closed : Type 0
  Closed = (p : ℕ) → contains all p ≡ true → Within (children p)

  Sorted-push :
      (marks : Marks) (p : ℕ) → Sorted children marks → Sorted children (set_mark p on_stack marks)
  Sorted-push marks p (order, all_in, ordered) = (order, kept, ordered)
    where
      kept : (q : ℕ) → set_mark p on_stack marks q ≡ done → contains order q ≡ true
      kept q e = elim (set_cases p q on_stack marks) [
        | inl (_, s) ↦ absurd (cc (s, e))
        | inr (_, s) ↦ all_in q (sym s ∙ e)
      ]

  Leads-push :
      (marks : Marks) (p c : ℕ)
      → Leads children marks p
      → contains (children p) c ≡ true
      → Leads children (set_mark p on_stack marks) c
  Leads-push marks p c h e q on = elim (set_cases p q on_stack marks) [
    | inl (same, _) ↦ subst (λ x. Reaches children x c) same (direct e)
    | inr (_, s) ↦ further (h q (sym s ∙ on)) e
  ]

  -- What is on the stack after a visit was on it before.
  Leads-Advances :
      (a b : Marks) (p : ℕ) → Advances children a b → Leads children a p → Leads children b p
  Leads-Advances a b p h l q on = l q (h.keeps_stack q on)

  abbrev Finds : (Marks → ℕ → Visit) → ℕ → Type 0
  Finds find fuel =
      (marks : Marks) (p : ℕ)
      → Sorted children marks
      → Leads children marks p
      → contains all p ≡ true
      → left marks all ≤ fuel
      → Visits children marks (p ∷ []) (find marks p)

  pub each-Visits :
      (find : Marks → ℕ → Visit) (fuel : ℕ)
      → Finds find fuel
      → (ps : List ℕ) (marks : Marks) → Sorted children marks
      → All (λ p. Leads children marks p) ps
      → Within ps
      → left marks all ≤ fuel
      → Visits children marks ps (visit_each find ps marks)
  unfolding visit_each
  each-Visits find fuel ih [] marks s l w f = (s, Advances-refl children marks, tt)
  each-Visits find fuel ih (p ∷ ps) marks s (l, ls) (w, ws) f =
      first_then children marks p ps (find marks p) (visit_each find ps) (ih marks p s l w f)
        (λ after sorted advances.
          each-Visits find fuel ih ps after sorted
            (All-map_of _ _ (λ q k. Leads-Advances marks after q advances k) ps ls) ws
            (omega (arith, left_le children marks after all advances, f)))

  Leads-children :
      (marks : Marks) (p : ℕ) (cs : List ℕ)
      → Leads children marks p
      → All (λ c. contains (children p) c ≡ true) cs
      → All (λ c. Leads children (set_mark p on_stack marks) c) cs
  Leads-children marks p cs l h = All-map_of _ _ (λ c e. Leads-push marks p c l e) cs h

  pub visit-Visits : Closed → (fuel : ℕ) → Finds (visit children fuel) fuel
  unfolding visit
  visit-Visits closed zero marks p s l w f = elim (Mark-cases (marks p)) [
    | inl u ↦ absurd (omega (arith, push_lt children marks p all u w, f))
    | inr (inl o) ↦ rw o (l p o)
    | inr (inr d) ↦ rw d (s, Advances-refl children marks, (d, tt))
  ]
  visit-Visits closed (suc fuel) marks p s l w f = elim (Mark-cases (marks p)) [
    | inl u ↦ rw u (
        finish-Visits children marks p _ u (
          each-Visits (visit children fuel) fuel (visit-Visits closed fuel) (children p)
            (set_mark p on_stack marks) (Sorted-push marks p s)
            (Leads-children marks p (children p) l (All-contained (children p))) (closed p w)
            (omega (arith, push_lt children marks p all u w, f))))
    | inr (inl o) ↦ rw o (l p o)
    | inr (inr d) ↦ rw d (s, Advances-refl children marks, (d, tt))
  ]
