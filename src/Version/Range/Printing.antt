-- ===== src/Version/Range/Printing.antt =====
-- The text of a set of ranges.
use plugify.Prelude.{ℕ, ◌≡◌, refl, ap, sym, ◌∙◌, List, [], ◌∷◌, ◌++◌, map, append_assoc}
use plugify.Version.Range.{
  RangeComparator, comparator_to_string, join_spaced, range_to_string, range_set_to_string,
}

join_spaced-append :
    (x : List ℕ) (xs : List (List ℕ)) (y : List ℕ) (ys : List (List ℕ))
    → join_spaced ((x ∷ xs) ++ (y ∷ ys)) ≡ join_spaced (x ∷ xs) ++ b' ' ∷ join_spaced (y ∷ ys)
unfolding join_spaced
join_spaced-append x [] y ys = refl
join_spaced-append x (z ∷ xs) y ys =
    ap (λ t. x ++ b' ' ∷ t) (join_spaced-append z xs y ys)
    ∙ sym (append_assoc x (b' ' ∷ join_spaced (z ∷ xs)) (b' ' ∷ join_spaced (y ∷ ys)))

map-append {ℓ κ} :
    {A : Type ℓ} {B : Type κ} (f : A → B) (xs ys : List A) → map f (xs ++ ys) ≡ map f xs ++ map f ys
map-append f [] ys = refl
map-append f (x ∷ xs) ys = ap (λ zs. f x ∷ zs) (map-append f xs ys)

range_to_string-append :
    (r : RangeComparator) (rs : List RangeComparator) (s : RangeComparator)
    (ss : List RangeComparator)
    → range_to_string ((r ∷ rs) ++ (s ∷ ss))
      ≡ range_to_string (r ∷ rs) ++ b' ' ∷ range_to_string (s ∷ ss)
unfolding range_to_string
range_to_string-append r rs s ss =
    ap (λ xs. join_spaced (comparator_to_string r ∷ xs))
      (map-append comparator_to_string rs (s ∷ ss))
    ∙ join_spaced-append (comparator_to_string r) (map comparator_to_string rs)
        (comparator_to_string s) (map comparator_to_string ss)

-- The text of a set with two ranges in front, neither empty, is the text of the set in which these are
-- one range with the comparators of both: the `||` between them is lost.
pub range_set_to_string-merges :
    (r : RangeComparator) (rs : List RangeComparator) (s : RangeComparator)
    (ss : List RangeComparator) (rest : List (List RangeComparator))
    → range_set_to_string ((r ∷ rs) ∷ (s ∷ ss) ∷ rest)
      ≡ range_set_to_string (((r ∷ rs) ++ (s ∷ ss)) ∷ rest)
unfolding range_set_to_string join_spaced
range_set_to_string-merges r rs s ss [] = sym (range_to_string-append r rs s ss)
range_set_to_string-merges r rs s ss (t ∷ rest) = sym (
    ap (λ x. x ++ b' ' ∷ join_spaced (map range_to_string (t ∷ rest)))
      (range_to_string-append r rs s ss)
    ∙ append_assoc (range_to_string (r ∷ rs)) (b' ' ∷ range_to_string (s ∷ ss))
        (b' ' ∷ join_spaced (map range_to_string (t ∷ rest))))
