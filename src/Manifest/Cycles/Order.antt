-- ===== src/Manifest/Cycles/Order.antt =====
-- The two mark changes of a visit, and the invariant of the search through a whole visit.
use plugify.Prelude.{
  ℕ, ◌≤◌, ◌<◌, ◌≡◌, refl, sym, ◌∙◌, subst, ◌⊎◌, inl, inr, Bool, true, false, ◌||◌, List, [], ◌∷◌,
  ◌==◌, ==_iff, ==_refl, arith, All, All-map_of, Bool-cases,
}
use plugify.Graph.{contains}
use plugify.Manifest.Cycles.{
  Mark, unvisited, on_stack, done, Marks, set_mark, Visit, visited, cycle, out_of_fuel, then_visit,
}
use plugify.Manifest.Cycles.Search.{Sorted, Advances, is_unvisited, left, Visits}

pub set_cases :
    (p q : ℕ) (m : Mark) (marks : Marks)
    → ((p ≡ q) × (set_mark p m marks q ≡ m))
      ⊎ (((p == q) ≡ false) × (set_mark p m marks q ≡ marks q))
set_cases p q m marks = elim (Bool-cases (p == q)) [
  | inl e ↦ inl ((==_iff p q).0 e, rw e refl)
  | inr e ↦ inr (e, rw e refl)
]

set_self : (p : ℕ) (m : Mark) (marks : Marks) → set_mark p m marks p ≡ m
set_self p m marks = rw (==_refl p) refl

or_true : (b : Bool) → (b || true) ≡ true
or_true true = refl
or_true false = refl

pub contains_later : (x y : ℕ) (ys : List ℕ) → contains ys y ≡ true → contains (x ∷ ys) y ≡ true
contains_later x y ys h = rw h (or_true (y == x))

contains_here : (x : ℕ) (ys : List ℕ) → contains (x ∷ ys) x ≡ true
contains_here x ys = rw (==_refl x) refl

pub All-contained : (xs : List ℕ) → All (λ x. contains xs x ≡ true) xs
All-contained [] = tt
All-contained (x ∷ xs) =
    (contains_here x xs, All-map_of _ _ (λ y h. contains_later x y xs h) xs (All-contained xs))

unvisited_le : (a b : Mark) → (b ≡ unvisited → a ≡ unvisited) → is_unvisited b ≤ is_unvisited a
unvisited_le a unvisited h = rw (h refl) (omega arith)
unvisited_le a on_stack h = omega arith
unvisited_le a done h = omega arith

module _ (children : ℕ → List ℕ) where
  pub Advances-refl : (marks : Marks) → Advances children marks marks
  Advances-refl marks = record {
    keeps_done = λ q h. h;
    keeps_stack = λ q h. h;
    keeps_visited = λ q h. h;
  }

  Advances-trans :
      (a b c : Marks) → Advances children a b → Advances children b c → Advances children a c
  Advances-trans a b c h k = record {
    keeps_done = λ q e. k.keeps_done q (h.keeps_done q e);
    keeps_stack = λ q e. h.keeps_stack q (k.keeps_stack q e);
    keeps_visited = λ q e. h.keeps_visited q (k.keeps_visited q e);
  }

  pub left_le : (a b : Marks) (ps : List ℕ) → Advances children a b → left b ps ≤ left a ps
  left_le a b [] h = omega arith
  left_le a b (p ∷ ps) h =
      omega (arith, unvisited_le (a p) (b p) (h.keeps_visited p), left_le a b ps h)

  -- Putting a prototype on the stack leaves fewer to be visited.
  push_le :
      (marks : Marks) (p q : ℕ)
      → marks p ≡ unvisited
      → is_unvisited (set_mark p on_stack marks q) ≤ is_unvisited (marks q)
  push_le marks p q u = elim (set_cases p q on_stack marks) [
    | inl (e, s) ↦ rw s (omega arith)
    | inr (e, s) ↦ rw s (omega arith)
  ]

  push_all_le :
      (marks : Marks) (p : ℕ) (ps : List ℕ)
      → marks p ≡ unvisited
      → left (set_mark p on_stack marks) ps ≤ left marks ps
  push_all_le marks p [] u = omega arith
  push_all_le marks p (q ∷ qs) u = omega (arith, push_le marks p q u, push_all_le marks p qs u)

  pub push_lt :
      (marks : Marks) (p : ℕ) (ps : List ℕ)
      → marks p ≡ unvisited
      → contains ps p ≡ true
      → left (set_mark p on_stack marks) ps < left marks ps
  push_lt marks p [] u h = absurd (cc h)
  push_lt marks p (q ∷ qs) u h = elim (Bool-cases (p == q)) [
    | inl e ↦
        (let same = (==_iff p q).0 e in
          let first : is_unvisited (marks q) ≡ 1 =
            subst (λ x. is_unvisited (marks x) ≡ 1) same (rw u refl) in
          let now : is_unvisited (set_mark p on_stack marks q) ≡ 0 = rw e refl in
          omega (arith, first, now, push_all_le marks p qs u))
    | inr e ↦ omega (arith, push_le marks p q u, push_lt marks p qs u (rw e at h))
  ]

  weaken :
      (before after : Marks) (p : ℕ) (ps : List ℕ) (v : Visit)
      → Advances children before after
      → after p ≡ done
      → Visits children after ps v
      → Visits children before (p ∷ ps) v
  weaken before after p ps (visited last) a d (s, b, ds) =
      (s, Advances-trans before after last a b, (b.keeps_done p d, ds))
  weaken before after p ps (cycle r) a d v = v
  weaken before after p ps out_of_fuel a d v = v

  pub first_then :
      (before : Marks) (p : ℕ) (ps : List ℕ) (v : Visit) (k : Marks → Visit)
      → Visits children before (p ∷ []) v
      → ((after : Marks)
          → Sorted children after
          → Advances children before after
          → Visits children after ps (k after))
      → Visits children before (p ∷ ps) (then_visit v k)
  first_then before p ps (visited after) k (s, a, (d, _)) f =
      weaken before after p ps (k after) a d (f after s a)
  first_then before p ps (cycle r) k v f = v
  first_then before p ps out_of_fuel k v f = v

  -- A prototype is placed before those that it refers to, which are done.
  placed_first :
      (p : ℕ) (after : Marks)
      → Sorted children after
      → All (λ c. after c ≡ done) (children p)
      → Sorted children (set_mark p done after)
  placed_first p after (order, all_in, ordered) ds =
      (p ∷ order, placed, (All-map_of _ _ (λ c. all_in c) (children p) ds, ordered))
    where
      placed : (q : ℕ) → set_mark p done after q ≡ done → contains (p ∷ order) q ≡ true
      placed q e = elim (set_cases p q done after) [
        | inl (same, _) ↦ subst (λ x. contains (p ∷ order) x ≡ true) same (contains_here p order)
        | inr (_, kept) ↦ contains_later p q order (all_in q (sym kept ∙ e))
      ]

  ends :
      (marks : Marks) (p : ℕ) (after : Marks)
      → marks p ≡ unvisited
      → Advances children (set_mark p on_stack marks) after
      → Advances children marks (set_mark p done after)
  ends marks p after u a = record {
    keeps_done = done_stays;
    keeps_stack = stack_was;
    keeps_visited = unvisited_was;
  }
    where
      pushed : Marks
      pushed = set_mark p on_stack marks

      done_stays : (q : ℕ) → marks q ≡ done → set_mark p done after q ≡ done
      done_stays q e = elim (set_cases p q done after) [
        | inl (_, s) ↦ s
        | inr (n, s) ↦ s ∙ a.keeps_done q (rw n e)
      ]

      stack_was : (q : ℕ) → set_mark p done after q ≡ on_stack → marks q ≡ on_stack
      stack_was q e = elim (set_cases p q done after) [
        | inl (_, s) ↦ absurd (cc (s, e))
        | inr (n, s) ↦ (let w = a.keeps_stack q (sym s ∙ e) in rw n at w)
      ]

      unvisited_was : (q : ℕ) → set_mark p done after q ≡ unvisited → marks q ≡ unvisited
      unvisited_was q e = elim (set_cases p q done after) [
        | inl (_, s) ↦ absurd (cc (s, e))
        | inr (n, s) ↦ (let w = a.keeps_visited q (sym s ∙ e) in rw n at w)
      ]

  -- Coming back from the prototypes that p refers to.
  pub finish-Visits :
      (marks : Marks) (p : ℕ) (v : Visit)
      → marks p ≡ unvisited
      → Visits children (set_mark p on_stack marks) (children p) v
      → Visits children marks (p ∷ []) (then_visit v (λ m. visited (set_mark p done m)))
  finish-Visits marks p (cycle r) u v = v
  finish-Visits marks p out_of_fuel u v = v
  finish-Visits marks p (visited after) u (s, a, ds) =
      (placed_first p after s ds, ends marks p after u a, (set_self p done after, tt))
