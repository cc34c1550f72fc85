-- ===== src/Config/Merge/Section.antt =====
-- What a merge does to one section and to its source.
use plugify.Prelude.{
  ℕ, ◌≡◌, ◌≤◌, ◌<◌, ◌⊎◌, refl, inl, inr, Bool, true, false, leb, arith, if◌then◌else◌,
}
use plugify.Config.{ConfigSource, rank}
use plugify.Config.Merge.{merge_section}

leb-true : (a b : ℕ) → a ≤ b → leb a b ≡ true
leb-true a b h = ground arith

leb-cases : (a b : ℕ) → ((leb a b ≡ true) × (a ≤ b)) ⊎ ((leb a b ≡ false) × (b < a))
leb-cases a b = ground arith

-- How a source changes: it stays, or becomes that of a merge that customizes the section.
pub data Moves (customizes : Bool) (source before : ConfigSource) : ConfigSource → Type 0 where
  stays : (customizes ≡ true → rank source ≤ rank before) → Moves customizes source before before
  moves : customizes ≡ true → rank before ≤ rank source → Moves customizes source before source

module _ {A : Type 0} (customizes : A → Bool) (take : A → A → A) (s : ConfigSource)
    (o own : A) where
  pub section-taken :
      (t : ConfigSource)
      → rank t ≤ rank s
      → (merge_section customizes take s o (own, t)).0 ≡ take o own
  section-taken t h = rw (leb-true (rank t) (rank s) h) refl

  pub section-Moves :
      (t : ConfigSource) → Moves (customizes o) s t (merge_section customizes take s o (own, t)).1
  section-Moves t = elim (leb-cases (rank t) (rank s)) [
    | inl (e, h) ↦ rw e (by_test (customizes o) refl h)
    | inr (e, h) ↦ rw e (stays (λ c. omega (arith, h)))
  ]
    where
      by_test :
          (b : Bool)
          → customizes o ≡ b
          → rank t ≤ rank s
          → Moves (customizes o) s t (if b then s else t)
      by_test true e h = moves e h
      by_test false e h = stays (λ c. absurd (cc (c, e)))

pub Moves-rank :
    {b : Bool} {s t u : ConfigSource} → Moves b s t u → rank t ≤ rank s → rank u ≤ rank s
Moves-rank (stays k) h = h
Moves-rank {s = s} (moves e k) h = omega arith
