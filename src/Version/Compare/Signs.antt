-- ===== src/Version/Compare/Signs.antt =====
-- The signs of three comparisons that belong together: of a with b, b with c, and a with c.
use plugify.Prelude.{ℕ, ◌≡◌, refl, arith}
use plugify.Prelude.Int.{ℤ, sub_ℕ, Sign, minus, null, plus, sign, or_else}

-- What the first two say of the third.
abbrev pub Chain : Sign → Sign → Sign → Type 0
Chain minus minus z = z ≡ minus
Chain minus null z = z ≡ minus
Chain minus plus z = Unit
Chain null y z = z ≡ y
Chain plus minus z = Unit
Chain plus null z = z ≡ plus
Chain plus plus z = z ≡ plus

abbrev pub opposite : Sign → Sign
opposite minus = plus
opposite null = null
opposite plus = minus

abbrev pub then_sign : Sign → Sign → Sign
then_sign minus y = minus
then_sign null y = y
then_sign plus y = plus

pub sign-or_else : (x y : ℤ) → sign (or_else x y) ≡ then_sign (sign x) (sign y)
sign-or_else x y = ground arith

-- A second comparison decides where the first is undecided.
pub Chain-then_sign :
    (x y z x' y' z' : Sign)
    → Chain x y z
    → (x ≡ null → y ≡ null → Chain x' y' z')
    → Chain (then_sign x x') (then_sign y y') (then_sign z z')
Chain-then_sign minus minus z x' y' z' h k = ground arith
Chain-then_sign minus null z x' y' z' h k = ground arith
Chain-then_sign minus plus z x' y' z' h k = tt
Chain-then_sign null minus z x' y' z' h k = ground arith
Chain-then_sign null null null x' y' z' h k = k refl refl
Chain-then_sign null null minus x' y' z' h k = ground arith
Chain-then_sign null null plus x' y' z' h k = ground arith
Chain-then_sign null plus z x' y' z' h k = ground arith
Chain-then_sign plus minus z x' y' z' h k = tt
Chain-then_sign plus null z x' y' z' h k = ground arith
Chain-then_sign plus plus z x' y' z' h k = ground arith

pub Chain-or_else :
    (x y z x' y' z' : ℤ)
    → Chain (sign x) (sign y) (sign z)
    → (sign x ≡ null → sign y ≡ null → Chain (sign x') (sign y') (sign z'))
    → Chain (sign (or_else x x')) (sign (or_else y y')) (sign (or_else z z'))
Chain-or_else x y z x' y' z' h k =
    rw (sign-or_else x x', sign-or_else y y', sign-or_else z z')
      (Chain-then_sign (sign x) (sign y) (sign z) (sign x') (sign y') (sign z') h k)

pub opposite-or_else :
    (x y x' y' : ℤ)
    → sign x ≡ opposite (sign y)
    → sign x' ≡ opposite (sign y')
    → sign (or_else x x') ≡ opposite (sign (or_else y y'))
opposite-or_else x y x' y' h k = ground arith

pub Chain-sub_ℕ : (a b c : ℕ) → Chain (sign (sub_ℕ a b)) (sign (sub_ℕ b c)) (sign (sub_ℕ a c))
Chain-sub_ℕ a b c = ground arith

pub opposite-sub_ℕ : (a b : ℕ) → sign (sub_ℕ a b) ≡ opposite (sign (sub_ℕ b a))
opposite-sub_ℕ a b = ground arith

pub sub_ℕ_null : (a b : ℕ) → sign (sub_ℕ a b) ≡ null → a ≡ b
sub_ℕ_null a b h = ground arith

pub or_else_null : (x y : ℤ) → sign (or_else x y) ≡ null → (sign x ≡ null) × (sign y ≡ null)
or_else_null x y h = ground arith
