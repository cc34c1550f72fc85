-- ===== src/Config/Sample.antt =====
-- A platform for runs: a path is the list of its elements, the first of which is the root of an absolute
-- path.
use Prim.Native.String.{String}
use text.Mathlib.Text.{◌==◌ as str_eq}
use plugify.Prelude.{Bool, true, false, ◌&&◌, not, List, [], ◌∷◌, ◌++◌, if◌then◌else◌}
use plugify.Config.{Platform}

abbrev pub same_path : List String → List String → Bool
same_path [] [] = true
same_path [] (y ∷ ys) = false
same_path (x ∷ xs) [] = false
same_path (x ∷ xs) (y ∷ ys) = str_eq x y && same_path xs ys

abbrev pub is_rooted : List String → Bool
is_rooted [] = false
is_rooted (x ∷ xs) = str_eq x "/"

abbrev pub one_element : String → List String
one_element s = if str_eq s "" then [] else s ∷ []

abbrev pub is_missing : List String → Bool
is_missing [] = true
is_missing (x ∷ xs) = false

abbrev pub os : Platform (List String)
os = record {
  path_of = one_element;
  is_empty = is_missing;
  is_relative = λ p. not (is_rooted p);
  append = λ b p. if is_rooted p then p else b ++ p;
  lexically_normal = λ p. p;
  equal = same_path;
  elements = λ p. p;
  current_path = "/" ∷ "home" ∷ [];
  default_verbosity = 5;
}
