-- ===== src/Version/Compare/Order.antt =====
-- `exact_parsed` is a total order: antisymmetric signs, and signs that chain.
use plugify.Prelude.{ℕ, ◌≡◌, refl, List, [], ◌∷◌, arith, length}
use plugify.Prelude.Int.{ℤ, sub_ℕ, sign, or_else}
use plugify.Version.Types.{IdentifierType, numeric, alphanumeric}
use plugify.Version.Compare.{compare, compare_digits}
use plugify.Version.Compare.Exact.{exact_numerically, exact_by_type, exact_identifier}
use plugify.Version.Compare.Signs.{
  Chain, opposite, Chain-or_else, opposite-or_else, Chain-sub_ℕ, opposite-sub_ℕ, sub_ℕ_null,
}

-- The two laws of a three-way comparison.
pub record IsOrder {ℓ} {A : Type ℓ} (c : A → A → ℤ) : Type ℓ where
  pub flip : (a b : A) → sign (c a b) ≡ opposite (sign (c b a))
  pub chain : (a b d : A) → Chain (sign (c a b)) (sign (c b d)) (sign (c a d))

-- The first comparison, then the second where the first is undecided.
pub or_else-IsOrder {ℓ} :
    {A : Type ℓ} (c d : A → A → ℤ)
    → IsOrder c
    → IsOrder d
    → IsOrder (λ a b. or_else (c a b) (d a b))
or_else-IsOrder c d hc hd = record {
  flip = λ a b. opposite-or_else (c a b) (c b a) (d a b) (d b a) (hc.flip a b) (hd.flip a b);
  chain = λ a b e.
      Chain-or_else (c a b) (c b e) (c a e) (d a b) (d b e) (d a e) (hc.chain a b e)
        (λ _ _. hd.chain a b e);
}

pub by_key-IsOrder {ℓ} : {A : Type ℓ} (key : A → ℕ) → IsOrder (λ (a b : A). sub_ℕ (key a) (key b))
by_key-IsOrder key = record {
  flip = λ a b. opposite-sub_ℕ (key a) (key b);
  chain = λ a b d. Chain-sub_ℕ (key a) (key b) (key d);
}

compare_flip : (a b : List ℕ) → sign (compare a b) ≡ opposite (sign (compare b a))
unfolding compare
compare_flip [] [] = refl
compare_flip [] (y ∷ ys) = refl
compare_flip (x ∷ xs) [] = refl
compare_flip (x ∷ xs) (y ∷ ys) = ground (arith, compare_flip xs ys)

compare-Chain :
    (a b d : List ℕ) → Chain (sign (compare a b)) (sign (compare b d)) (sign (compare a d))
unfolding compare
compare-Chain [] [] [] = refl
compare-Chain [] [] (z ∷ zs) = refl
compare-Chain [] (y ∷ ys) [] = tt
compare-Chain [] (y ∷ ys) (z ∷ zs) = ground arith
compare-Chain (x ∷ xs) [] [] = refl
compare-Chain (x ∷ xs) [] (z ∷ zs) = ground arith
compare-Chain (x ∷ xs) (y ∷ ys) [] = ground arith
compare-Chain (x ∷ xs) (y ∷ ys) (z ∷ zs) = ground (arith, compare-Chain xs ys zs)

compare_digits_flip :
    (a b : List ℕ) → sign (compare_digits a b) ≡ opposite (sign (compare_digits b a))
unfolding compare_digits
compare_digits_flip [] [] = refl
compare_digits_flip [] (y ∷ ys) = refl
compare_digits_flip (x ∷ xs) [] = refl
compare_digits_flip (x ∷ xs) (y ∷ ys) =
    opposite-or_else (sub_ℕ x y) (sub_ℕ y x) (compare_digits xs ys) (compare_digits ys xs)
      (opposite-sub_ℕ x y) (compare_digits_flip xs ys)

compare_digits-Chain :
    (a b d : List ℕ)
    → length a ≡ length b
    → length b ≡ length d
    → Chain (sign (compare_digits a b)) (sign (compare_digits b d)) (sign (compare_digits a d))
unfolding compare_digits
compare_digits-Chain [] [] [] p q = refl
compare_digits-Chain [] [] (z ∷ zs) p q = absurd (omega arith)
compare_digits-Chain [] (y ∷ ys) d p q = absurd (omega arith)
compare_digits-Chain (x ∷ xs) [] d p q = absurd (omega arith)
compare_digits-Chain (x ∷ xs) (y ∷ ys) [] p q = absurd (omega arith)
compare_digits-Chain (x ∷ xs) (y ∷ ys) (z ∷ zs) p q =
    Chain-or_else (sub_ℕ x y) (sub_ℕ y z) (sub_ℕ x z) (compare_digits xs ys) (compare_digits ys zs)
      (compare_digits xs zs) (Chain-sub_ℕ x y z)
      (λ _ _. compare_digits-Chain xs ys zs (omega arith) (omega arith))

-- The test on the sizes is a comparison of the sizes.
exact_numerically_lem :
    (a b : List ℕ)
    → exact_numerically a b ≡ or_else (sub_ℕ (length a) (length b)) (compare_digits a b)
unfolding exact_numerically
exact_numerically_lem a b = ground arith

exact_numerically-IsOrder : IsOrder exact_numerically
exact_numerically-IsOrder = record {
  flip = λ a b.
      rw (exact_numerically_lem a b, exact_numerically_lem b a)
        (opposite-or_else (sub_ℕ (length a) (length b)) (sub_ℕ (length b) (length a))
          (compare_digits a b) (compare_digits b a) (opposite-sub_ℕ (length a) (length b))
          (compare_digits_flip a b));
  chain = λ a b d.
      rw (exact_numerically_lem a b, exact_numerically_lem b d, exact_numerically_lem a d)
        (Chain-or_else (sub_ℕ (length a) (length b)) (sub_ℕ (length b) (length d))
          (sub_ℕ (length a) (length d)) (compare_digits a b) (compare_digits b d)
          (compare_digits a d) (Chain-sub_ℕ (length a) (length b) (length d))
          (λ p q. compare_digits-Chain a b d (sub_ℕ_null _ _ p) (sub_ℕ_null _ _ q)));
}

by_type_flip :
    (s t : IdentifierType) (a b : List ℕ)
    → sign (exact_by_type s t a b) ≡ opposite (sign (exact_by_type t s b a))
unfolding exact_by_type
by_type_flip numeric numeric a b = exact_numerically-IsOrder.flip a b
by_type_flip numeric alphanumeric a b = refl
by_type_flip alphanumeric numeric a b = refl
by_type_flip alphanumeric alphanumeric a b = compare_flip a b

by_type-Chain :
    (s t u : IdentifierType) (a b d : List ℕ)
    → Chain
        (sign (exact_by_type s t a b))
        (sign (exact_by_type t u b d))
        (sign (exact_by_type s u a d))
unfolding exact_by_type
by_type-Chain numeric numeric numeric a b d = exact_numerically-IsOrder.chain a b d
by_type-Chain numeric numeric alphanumeric a b d = ground arith
by_type-Chain numeric alphanumeric numeric a b d = tt
by_type-Chain numeric alphanumeric alphanumeric a b d = ground arith
by_type-Chain alphanumeric numeric numeric a b d = ground arith
by_type-Chain alphanumeric numeric alphanumeric a b d = tt
by_type-Chain alphanumeric alphanumeric numeric a b d = ground arith
by_type-Chain alphanumeric alphanumeric alphanumeric a b d = compare-Chain a b d

pub exact_identifier-IsOrder : IsOrder exact_identifier
unfolding exact_identifier
exact_identifier-IsOrder = record {
  flip = λ a b. by_type_flip a.type b.type a.identifier b.identifier;
  chain = λ a b d. by_type-Chain a.type b.type d.type a.identifier b.identifier d.identifier;
}
