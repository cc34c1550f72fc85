-- ===== src/Version/Compare/Total.antt =====
-- The operators on versions: a total order, and which of its steps ignore a part of the version.
use plugify.Prelude.{◌≡◌, refl, List, [], ◌∷◌, arith, length}
use plugify.Prelude.Int.{ℤ, sub_ℕ, sign, or_else}
use plugify.Version.Types.{PrereleaseIdentifier}
use plugify.Version.Compare.{CompareOption, exclude_prerelease, include_prerelease}
use plugify.Version.Compare.Exact.{
  exact_identifier, exact_difference, exact_prerelease, exact_option, exact_parsed,
}
use plugify.Version.Compare.Signs.{Chain, opposite, Chain-or_else, opposite-or_else}
use plugify.Version.Compare.Order.{
  IsOrder, exact_identifier-IsOrder, or_else-IsOrder, by_key-IsOrder,
}

-- The comparison of two versions that both have identifiers.
compare_lists : List PrereleaseIdentifier → List PrereleaseIdentifier → ℤ
compare_lists xs ys = or_else (exact_difference xs ys) (sub_ℕ (length xs) (length ys))

compare_lists-cons :
    (x y : PrereleaseIdentifier) (xs ys : List PrereleaseIdentifier)
    → compare_lists (x ∷ xs) (y ∷ ys) ≡ or_else (exact_identifier x y) (compare_lists xs ys)
unfolding compare_lists exact_difference
compare_lists-cons x y xs ys = ground arith

compare_lists_flip :
    (xs ys : List PrereleaseIdentifier)
    → sign (compare_lists xs ys) ≡ opposite (sign (compare_lists ys xs))
compare_lists_flip [] [] = unfold compare_lists exact_difference in refl
compare_lists_flip [] (y ∷ ys) = unfold compare_lists exact_difference in ground arith
compare_lists_flip (x ∷ xs) [] = unfold compare_lists exact_difference in ground arith
compare_lists_flip (x ∷ xs) (y ∷ ys) =
    rw (compare_lists-cons x y xs ys, compare_lists-cons y x ys xs)
      (opposite-or_else (exact_identifier x y) (exact_identifier y x) (compare_lists xs ys)
        (compare_lists ys xs) (exact_identifier-IsOrder.flip x y) (compare_lists_flip xs ys))

compare_lists-Chain :
    (xs ys zs : List PrereleaseIdentifier)
    → Chain (sign (compare_lists xs ys)) (sign (compare_lists ys zs)) (sign (compare_lists xs zs))
compare_lists-Chain [] [] [] = unfold compare_lists exact_difference in refl
compare_lists-Chain [] [] (z ∷ zs) = unfold compare_lists exact_difference in ground arith
compare_lists-Chain [] (y ∷ ys) [] = unfold compare_lists exact_difference in ground arith
compare_lists-Chain [] (y ∷ ys) (z ∷ zs) = unfold compare_lists exact_difference in ground arith
compare_lists-Chain (x ∷ xs) [] [] = unfold compare_lists exact_difference in ground arith
compare_lists-Chain (x ∷ xs) [] (z ∷ zs) = unfold compare_lists exact_difference in ground arith
compare_lists-Chain (x ∷ xs) (y ∷ ys) [] = unfold compare_lists exact_difference in ground arith
compare_lists-Chain (x ∷ xs) (y ∷ ys) (z ∷ zs) =
    rw (compare_lists-cons x y xs ys, compare_lists-cons y z ys zs, compare_lists-cons x z xs zs)
      (Chain-or_else (exact_identifier x y) (exact_identifier y z) (exact_identifier x z)
        (compare_lists xs ys) (compare_lists ys zs) (compare_lists xs zs)
        (exact_identifier-IsOrder.chain x y z) (λ _ _. compare_lists-Chain xs ys zs))

-- Two non-empty lists of identifiers.
exact_prerelease-cons :
    (x y : PrereleaseIdentifier) (xs ys : List PrereleaseIdentifier)
    → exact_prerelease (x ∷ xs) (y ∷ ys) ≡ compare_lists (x ∷ xs) (y ∷ ys)
unfolding exact_prerelease compare_lists
exact_prerelease-cons x y xs ys = refl

pub exact_prerelease_flip :
    (xs ys : List PrereleaseIdentifier)
    → sign (exact_prerelease xs ys) ≡ opposite (sign (exact_prerelease ys xs))
exact_prerelease_flip [] [] = unfold exact_prerelease in refl
exact_prerelease_flip [] (y ∷ ys) = unfold exact_prerelease in ground arith
exact_prerelease_flip (x ∷ xs) [] = unfold exact_prerelease in ground arith
exact_prerelease_flip (x ∷ xs) (y ∷ ys) =
    rw (exact_prerelease-cons x y xs ys, exact_prerelease-cons y x ys xs)
      (compare_lists_flip (x ∷ xs) (y ∷ ys))

exact_prerelease-Chain :
    (xs ys zs : List PrereleaseIdentifier)
    → Chain
        (sign (exact_prerelease xs ys))
        (sign (exact_prerelease ys zs))
        (sign (exact_prerelease xs zs))
exact_prerelease-Chain [] [] [] = unfold exact_prerelease in refl
exact_prerelease-Chain [] [] (z ∷ zs) = unfold exact_prerelease in ground arith
exact_prerelease-Chain [] (y ∷ ys) [] = unfold exact_prerelease in ground arith
exact_prerelease-Chain [] (y ∷ ys) (z ∷ zs) = unfold exact_prerelease in ground arith
exact_prerelease-Chain (x ∷ xs) [] [] = unfold exact_prerelease in ground arith
exact_prerelease-Chain (x ∷ xs) [] (z ∷ zs) = unfold exact_prerelease in ground arith
exact_prerelease-Chain (x ∷ xs) (y ∷ ys) [] = unfold exact_prerelease in ground arith
exact_prerelease-Chain (x ∷ xs) (y ∷ ys) (z ∷ zs) =
    rw
      (
        exact_prerelease-cons x y xs ys,
        exact_prerelease-cons y z ys zs,
        exact_prerelease-cons x z xs zs,
      )
      (compare_lists-Chain (x ∷ xs) (y ∷ ys) (z ∷ zs))

exact_option-IsOrder : (o : CompareOption) → IsOrder (exact_option o)
unfolding exact_option
exact_option-IsOrder exclude_prerelease = record { flip = λ a b. refl; chain = λ a b d. refl }
exact_option-IsOrder include_prerelease = record {
  flip = λ a b. exact_prerelease_flip a.prerelease_identifiers b.prerelease_identifiers;
  chain = λ a b d.
      exact_prerelease-Chain a.prerelease_identifiers b.prerelease_identifiers
        d.prerelease_identifiers;
}

-- With either option, the exact comparison on versions is a total preorder: swapping the versions turns
-- the sign round, and the signs of a with b and of b with d chain to that of a with d.
pub exact_parsed-IsOrder : (o : CompareOption) → IsOrder (λ a b. exact_parsed a b o)
unfolding exact_parsed
exact_parsed-IsOrder o = or_else-IsOrder _ _ (by_key-IsOrder (λ v. v.major)) (
    or_else-IsOrder _ _ (by_key-IsOrder (λ v. v.minor))
      (or_else-IsOrder _ _ (by_key-IsOrder (λ v. v.patch)) (exact_option-IsOrder o)))
