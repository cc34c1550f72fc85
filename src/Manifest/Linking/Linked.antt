-- ===== src/Manifest/Linking/Linked.antt =====
-- When pass two succeeds, and what it leaves.
use Prim.Native.String.{String}
use plugify.Prelude.{ℕ, suc, ◌≢◌, refl, inl, inr, none, Option-cases, List, [], ◌∷◌, All}
use plugify.Stages.Shared.{find_text}
use plugify.Manifest.Types.{Definition, absent, named, defined, Property, Method}
use plugify.Manifest.Checked.{Where, scope, ManifestError, Checked, ok, err, ◌>>=◌}
use plugify.Manifest.Valid.{IsLinked}
use plugify.Manifest.Linking.{
  TypeTable, link, link_property, link_params, link_method, link_methods,
}

-- A reference that is a name is in the table.
abbrev pub IsKnown : List (String × ℕ) → Definition → Type 0
IsKnown table absent = Unit
IsKnown table (defined p) = Unit
IsKnown table (named name) = find_text name table ≢ none

abbrev pub IsKnownProperty : TypeTable → Property → Type 0
IsKnownProperty t p = IsKnown t.prototypes p.prototype × IsKnown t.enums p.enumerate

-- Each reference of the method is absent, a definition, or a name in the table.
abbrev pub IsKnownMethod : TypeTable → Method → Type 0
IsKnownMethod t m = All (IsKnownProperty t) m.param_types × IsKnownProperty t m.ret_type

abbrev pub IsLinkedProperty : Property → Type 0
IsLinkedProperty p = IsLinked p.prototype × IsLinked p.enumerate

-- No reference of the method is a name.
abbrev pub IsLinkedMethod : Method → Type 0
IsLinkedMethod m = All IsLinkedProperty m.param_types × IsLinkedProperty m.ret_type

-- A step succeeds where something holds, with a result that is good, and fails where it does not.
pub data Decides {A : Type 0} (Holds : Type 0) (IsGood : A → Type 0) : Checked A → Type 0 where
  passes : {a : A} → Holds → IsGood a → Decides Holds IsGood (ok a)
  fails : {e : ManifestError} → ¬ Holds → Decides Holds IsGood (err e)

given-Decides :
    {A H K : Type 0} {L : A → Type 0} {c : Checked A} → H → Decides K L c → Decides (H × K) L c
given-Decides h (passes k l) = passes (h, k) l
given-Decides h (fails n) = fails (λ x. n x.1)

-- One step after another.
pub then-Decides :
    {A B H K : Type 0} {G : A → Type 0} {L : B → Type 0} {m : Checked A} (k : A → Checked B)
    → Decides H G m
    → ((a : A) → H → G a → Decides K L (k a))
    → Decides (H × K) L (m >>= k)
then-Decides k (passes {a = a} h g) f = given-Decides h (f a h g)
then-Decides k (fails n) f = fails (λ x. n x.0)

pub iff-Decides :
    {A H K : Type 0} {L : A → Type 0} {c : Checked A}
    → (H → K)
    → (K → H)
    → Decides H L c
    → Decides K L c
iff-Decides f g (passes h l) = passes (f h) l
iff-Decides f g (fails n) = fails (λ k. n (g k))

pub weaken-Decides :
    {A H : Type 0} {G L : A → Type 0} {c : Checked A}
    → ((a : A) → G a → L a)
    → Decides H G c
    → Decides H L c
weaken-Decides f (passes {a = a} h g) = passes h (f a g)
weaken-Decides f (fails n) = fails n

link-Decides :
    (table : List (String × ℕ)) (d : Definition) (type : String) (context : Where)
    → Decides (IsKnown table d) IsLinked (link table d type context)
unfolding link
link-Decides table absent type context = passes tt tt
link-Decides table (defined p) type context = passes tt tt
link-Decides table (named name) type context = elim (Option-cases (find_text name table)) [
  | inl e ↦ rw e (fails (λ k. k refl))
  | inr (p, e) ↦ rw e (passes (λ x. absurd (cc x)) tt)
]

module _ (t : TypeTable) where
  property-Decides :
      (p : Property) (context : Where)
      → Decides (IsKnownProperty t p) IsLinkedProperty (link_property t p context)
  unfolding link_property
  property-Decides p context =
      iff-Decides (λ h. (h.0, h.1.0)) (λ h. (h.0, (h.1, tt)))
        (then-Decides _ (link-Decides t.prototypes p.prototype "prototype" context) (λ a ha la.
          then-Decides _ (link-Decides t.enums p.enumerate "enum" context)
            (λ b hb lb. passes tt (la, lb))))

  params-Decides :
      (context : Where) (name : String) (i : ℕ) (ps : List Property)
      → Decides
          (All (IsKnownProperty t) ps)
          (All IsLinkedProperty)
          (link_params t context name i ps)
  unfolding link_params
  params-Decides context name i [] = passes tt tt
  params-Decides context name i (p ∷ ps) =
      iff-Decides (λ h. (h.0, h.1.0)) (λ h. (h.0, (h.1, tt)))
        (then-Decides _ (property-Decides p _) (λ a ha la.
          then-Decides _ (params-Decides context name (suc i) ps) (λ b hb lb. passes tt (la, lb))))

  pub method-Decides :
      (m : Method) (context : Where)
      → Decides (IsKnownMethod t m) IsLinkedMethod (link_method t m context)
  unfolding link_method
  method-Decides m context =
      iff-Decides (λ h. (h.0, h.1.0)) (λ h. (h.0, (h.1, tt)))
        (then-Decides _ (params-Decides context m.name 0 m.param_types) (λ a ha la.
          then-Decides _ (property-Decides m.ret_type _) (λ b hb lb. passes tt (la, lb))))

  pub methods-Decides :
      (ms : List Method)
      → Decides (All (IsKnownMethod t) ms) (All IsLinkedMethod) (link_methods t ms)
  unfolding link_methods
  methods-Decides [] = passes tt tt
  methods-Decides (m ∷ ms) =
      iff-Decides (λ h. (h.0, h.1.0)) (λ h. (h.0, (h.1, tt)))
        (then-Decides _ (method-Decides m (scope "Method"))
          (λ a ha la. then-Decides _ (methods-Decides ms) (λ b hb lb. passes tt (la, lb))))
