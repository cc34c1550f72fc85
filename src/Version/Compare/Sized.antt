-- ===== src/Version/Compare/Sized.antt =====
-- Where the sizes fit into an `int`, the comparison is the exact one.
use plugify.Prelude.{ℕ, ◌≡◌, ◌<◌, ◌^◌, refl, List, [], ◌∷◌, arith, length, All}
use plugify.Prelude.Int.{sub_ℕ, sub_ℤ, to_int, size_difference, sign}
use plugify.Version.Types.{Version, PrereleaseIdentifier, IdentifierType, numeric, alphanumeric}
use plugify.Version.Compare.{
  compare_numerically, compare_by_type, compare_identifier, first_difference, compare_prerelease,
  compare_option, compare_parsed, CompareOption, exclude_prerelease, include_prerelease,
}
use plugify.Version.Compare.Exact.{
  exact_numerically, exact_by_type, exact_identifier, exact_difference, exact_prerelease,
  exact_option, exact_parsed,
}
use plugify.Version.Compare.Signs.{Chain, opposite}
use plugify.Version.Compare.Total.{exact_parsed-IsOrder}

-- There are fewer than 2 ^ 31 identifiers, each of fewer than 2 ^ 31 characters.
pub record IsSized (v : Version) : Type 0 where
  pub count_fits : length v.prerelease_identifiers < 2 ^ 31
  pub lengths_fit : All (λ i. length i.identifier < 2 ^ 31) v.prerelease_identifiers

to_int-size_difference :
    (a b : ℕ) → a < 2 ^ 31 → b < 2 ^ 31 → to_int (size_difference a b) ≡ sub_ℕ a b
to_int-size_difference a b ha hb = ground arith

sub_ℤ-to_int : (a b : ℕ) → a < 2 ^ 31 → b < 2 ^ 31 → sub_ℤ (to_int a) (to_int b) ≡ sub_ℕ a b
sub_ℤ-to_int a b ha hb = ground arith

compare_numerically_exact :
    (a b : List ℕ)
    → length a < 2 ^ 31
    → length b < 2 ^ 31
    → compare_numerically a b ≡ exact_numerically a b
unfolding compare_numerically exact_numerically
compare_numerically_exact a b ha hb = rw (to_int-size_difference (length a) (length b) ha hb) refl

by_type_exact :
    (s t : IdentifierType) (a b : List ℕ)
    → length a < 2 ^ 31
    → length b < 2 ^ 31
    → compare_by_type s t a b ≡ exact_by_type s t a b
unfolding compare_by_type exact_by_type
by_type_exact numeric numeric a b ha hb = compare_numerically_exact a b ha hb
by_type_exact numeric alphanumeric a b ha hb = refl
by_type_exact alphanumeric numeric a b ha hb = refl
by_type_exact alphanumeric alphanumeric a b ha hb = refl

first_difference_exact :
    (xs ys : List PrereleaseIdentifier)
    → All (λ i. length i.identifier < 2 ^ 31) xs
    → All (λ i. length i.identifier < 2 ^ 31) ys
    → first_difference xs ys ≡ exact_difference xs ys
unfolding first_difference exact_difference compare_identifier exact_identifier
first_difference_exact [] ys hx hy = refl
first_difference_exact (x ∷ xs) [] hx hy = refl
first_difference_exact (x ∷ xs) (y ∷ ys) (hx, hxs) (hy, hys) =
    rw
      (
        by_type_exact x.type y.type x.identifier y.identifier hx hy,
        first_difference_exact xs ys hxs hys,
      )
      refl

module _ (a b : Version) (ha : IsSized a) (hb : IsSized b) where
  compare_prerelease_exact :
      compare_prerelease a.prerelease_identifiers b.prerelease_identifiers
      ≡ exact_prerelease a.prerelease_identifiers b.prerelease_identifiers
  unfolding compare_prerelease exact_prerelease
  compare_prerelease_exact =
      rw
        (
          sub_ℤ-to_int _ _ hb.count_fits ha.count_fits,
          sub_ℤ-to_int _ _ ha.count_fits hb.count_fits,
          first_difference_exact _ _ ha.lengths_fit hb.lengths_fit,
        )
        refl

  pub compare_parsed_exact : (o : CompareOption) → compare_parsed a b o ≡ exact_parsed a b o
  unfolding compare_parsed exact_parsed compare_option exact_option
  compare_parsed_exact exclude_prerelease = refl
  compare_parsed_exact include_prerelease = rw compare_prerelease_exact refl

-- With either option, `compare_parsed` is a total preorder on the versions whose prerelease identifiers
-- are fewer than 2 ^ 31 and shorter than that: swapping two versions turns the sign round, and the
-- signs of a with b and of b with d chain to that of a with d.
pub compare_parsed-IsOrder :
    (o : CompareOption) (a b d : Version)
    → IsSized a
    → IsSized b
    → IsSized d
    → (sign (compare_parsed a b o) ≡ opposite (sign (compare_parsed b a o)))
      × Chain
          (sign (compare_parsed a b o))
          (sign (compare_parsed b d o))
          (sign (compare_parsed a d o))
compare_parsed-IsOrder o a b d ha hb hd =
    (let order = exact_parsed-IsOrder o in
      rw
        (
          compare_parsed_exact a b ha hb o,
          compare_parsed_exact b a hb ha o,
          compare_parsed_exact b d hb hd o,
          compare_parsed_exact a d ha hd o,
        )
        (order.flip a b, order.chain a b d))
