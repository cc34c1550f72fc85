-- ===== src/Manifest/Linking/Whole.antt =====
-- The whole of pass two, on the methods of a manifest and the prototypes of the table.
use Prim.Native.String.{String}
use plugify.Prelude.{
  ℕ, ◌≡◌, ◌⊎◌, ◌↔◌, refl, sym, subst, inl, inr, List, [], ◌∷◌, All, All-map_of, ◌==◌, Bool-cases,
  ==_iff, ==_refl,
}
use plugify.Manifest.Types.{Definition, absent, named, defined, Property, Method, Heap}
use plugify.Manifest.Checked.{scope}
use plugify.Manifest.Valid.{IsLinked}
use plugify.Manifest.Linking.{TypeTable, set_method, link_prototypes, addresses_of, link_all}
use plugify.Manifest.Linking.Linked.{
  IsKnown, IsKnownProperty, IsKnownMethod, IsLinkedProperty, IsLinkedMethod, Decides, passes,
  then-Decides, weaken-Decides, iff-Decides, method-Decides, methods-Decides,
}

IsLinked-IsKnown : (table : List (String × ℕ)) (d : Definition) → IsLinked d → IsKnown table d
IsLinked-IsKnown table absent h = tt
IsLinked-IsKnown table (named name) h = absurd h
IsLinked-IsKnown table (defined p) h = tt

set-cases :
    (p q : ℕ) (m : Method) (h : Heap)
    → ((p ≡ q) × ((set_method p m h).method_at q ≡ m))
      ⊎ ((set_method p m h).method_at q ≡ h.method_at q)
set-cases p q m h = elim (Bool-cases (p == q)) [
  | inl e ↦ inl ((==_iff p q).0 e, rw e refl)
  | inr e ↦ inr (rw e refl)
]

set_here : (p : ℕ) (m : Method) (h : Heap) → (set_method p m h).method_at p ≡ m
set_here p m h = rw (==_refl p) refl

module _ (t : TypeTable) where
  property-IsKnown : (p : Property) → IsLinkedProperty p → IsKnownProperty t p
  property-IsKnown p (a, b) =
      (IsLinked-IsKnown t.prototypes p.prototype a, IsLinked-IsKnown t.enums p.enumerate b)

  method-IsKnown : (m : Method) → IsLinkedMethod m → IsKnownMethod t m
  method-IsKnown m (ps, r) =
      (All-map_of _ _ (λ p h. property-IsKnown p h) m.param_types ps, property-IsKnown m.ret_type r)

  abbrev pub Keeps : Heap → List ℕ → Heap → Type 0
  Keeps h ps h' =
      All (λ p. IsLinkedMethod (h'.method_at p)) ps
      × ((q : ℕ) → IsLinkedMethod (h.method_at q) → IsLinkedMethod (h'.method_at q))

  set-IsLinked :
      (p q : ℕ) (m : Method) (h : Heap)
      → IsLinkedMethod m
      → IsLinkedMethod (h.method_at q)
      → IsLinkedMethod ((set_method p m h).method_at q)
  set-IsLinked p q m h l k = elim (set-cases p q m h) [
    | inl (_, e) ↦ subst IsLinkedMethod (sym e) l
    | inr e ↦ subst IsLinkedMethod (sym e) k
  ]

  -- After p was linked, the others are known as before.
  set-IsKnown :
      (p q : ℕ) (m : Method) (h : Heap)
      → IsLinkedMethod m
      → IsKnownMethod t (h.method_at p)
      → IsKnownMethod t (h.method_at q) ↔ IsKnownMethod t ((set_method p m h).method_at q)
  set-IsKnown p q m h l k = elim (set-cases p q m h) [
    | inl (same, e) ↦ (
      (λ x. subst (IsKnownMethod t) (sym e) (method-IsKnown m l)),
      λ x. subst (λ y. IsKnownMethod t (h.method_at y)) same k,
    )
    | inr e ↦ ((λ x. subst (IsKnownMethod t) (sym e) x), λ x. subst (IsKnownMethod t) e x)
  ]

  All-IsKnown :
      (p : ℕ) (m : Method) (h : Heap) (ps : List ℕ)
      → IsLinkedMethod m
      → IsKnownMethod t (h.method_at p)
      → All (λ q. IsKnownMethod t (h.method_at q)) ps
        ↔ All (λ q. IsKnownMethod t ((set_method p m h).method_at q)) ps
  All-IsKnown p m h ps l k = (
    (λ x. All-map_of _ _ (λ q. (set-IsKnown p q m h l k).0) ps x),
    λ x. All-map_of _ _ (λ q. (set-IsKnown p q m h l k).1) ps x,
  )

  Keeps-set :
      (p : ℕ) (m : Method) (h : Heap) (ps : List ℕ) (h' : Heap)
      → IsLinkedMethod m
      → Keeps (set_method p m h) ps h'
      → Keeps h (p ∷ ps) h'
  Keeps-set p m h ps h' l (all, kept) = (
    (kept p (subst IsLinkedMethod (sym (set_here p m h)) l), all),
    λ q x. kept q (set-IsLinked p q m h l x),
  )

  prototypes-Decides :
      (ps : List ℕ) (h : Heap)
      → Decides
          (All (λ p. IsKnownMethod t (h.method_at p)) ps)
          (Keeps h ps)
          (link_prototypes t ps h)
  unfolding link_prototypes
  prototypes-Decides [] h = passes tt (tt, λ q x. x)
  prototypes-Decides (p ∷ ps) h =
      then-Decides _ (method-Decides t (h.method_at p) (scope "Prototype")) (λ m k l.
        (let same = All-IsKnown p m h ps l k in
          iff-Decides same.1 same.0 (
            weaken-Decides (λ h' x. Keeps-set p m h ps h' l x)
              (prototypes-Decides ps (set_method p m h)))))

  -- Pass two succeeds exactly if each reference of a method or of a prototype in the table is absent,
  -- a definition, or a name in the table; then none of them is a name any more.
  pub link_all-Decides :
      (ms : List Method) (h : Heap)
      → Decides
          (All (IsKnownMethod t) ms
            × All (λ p. IsKnownMethod t (h.method_at p)) (addresses_of t.prototypes))
          (λ r.
            All IsLinkedMethod r.0
            × All (λ p. IsLinkedMethod (r.1.method_at p)) (addresses_of t.prototypes))
          (link_all t ms h)
  unfolding link_all
  link_all-Decides ms h =
      iff-Decides (λ x. (x.0, x.1.0)) (λ x. (x.0, (x.1, tt)))
        (then-Decides _ (methods-Decides t ms) (λ a ha la.
          then-Decides _ (prototypes-Decides (addresses_of t.prototypes) h)
            (λ b hb lb. passes tt (la, lb.0))))
