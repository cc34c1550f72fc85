-- ===== src/Manifest/Cycles/Search.antt =====
-- What a visit does to the marks, whether it ends well or meets a cycle.
use plugify.Prelude.{ℕ, ◌+◌, ◌≡◌, refl, ◌⊎◌, inl, inr, true, List, [], ◌∷◌, All}
use plugify.Graph.{contains}
use plugify.Manifest.Cycles.{
  Mark, unvisited, on_stack, done, Marks, Visit, visited, cycle, out_of_fuel,
}

pub Mark-cases : (m : Mark) → (m ≡ unvisited) ⊎ ((m ≡ on_stack) ⊎ (m ≡ done))
Mark-cases unvisited = inl refl
Mark-cases on_stack = inr (inl refl)
Mark-cases done = inr (inr refl)

abbrev pub is_unvisited : Mark → ℕ
is_unvisited unvisited = 1
is_unvisited on_stack = 0
is_unvisited done = 0

-- How many of the prototypes are still to be visited.
abbrev pub left : Marks → List ℕ → ℕ
left marks [] = 0
left marks (p ∷ ps) = is_unvisited (marks p) + left marks ps

module _ (children : ℕ → List ℕ) where
  -- One prototype refers to another, in one step or more.
  pub data Reaches : ℕ → ℕ → Type 0 where
    direct : {p q : ℕ} → contains (children p) q ≡ true → Reaches p q
    further : {p q r : ℕ} → Reaches p q → contains (children q) r ≡ true → Reaches p r

  -- A list in which each prototype stands before those that it refers to.
  abbrev pub Ordered : List ℕ → Type 0
  Ordered [] = Unit
  Ordered (p ∷ ps) = All (λ c. contains ps c ≡ true) (children p) × Ordered ps

  -- The prototypes that are done can be ordered.
  abbrev pub Sorted : Marks → Type 0
  Sorted marks =
      (order : List ℕ) × ((q : ℕ) → marks q ≡ done → contains order q ≡ true) × Ordered order

  -- What changes: nothing that was done or visited is forgotten, and the stack is as before.
  pub record Advances (before after : Marks) : Type 0 where
    pub keeps_done : (q : ℕ) → before q ≡ done → after q ≡ done
    pub keeps_stack : (q : ℕ) → after q ≡ on_stack → before q ≡ on_stack
    pub keeps_visited : (q : ℕ) → after q ≡ unvisited → before q ≡ unvisited

  -- Whatever is on the stack refers to p.
  abbrev pub Leads : Marks → ℕ → Type 0
  Leads marks p = (q : ℕ) → marks q ≡ on_stack → Reaches q p

  abbrev pub Visits : Marks → List ℕ → Visit → Type 0
  Visits before ps (visited after) =
      Sorted after × Advances before after × All (λ p. after p ≡ done) ps
  Visits before ps (cycle r) = Reaches r r
  Visits before ps out_of_fuel = ⊥
