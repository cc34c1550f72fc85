-- ===== src/Manifest/Registering/Shared.antt =====
-- One definition for each name.
use Prim.Native.String.{String}
use text.Mathlib.Text.{◌==◌ as str_eq}
use plugify.Prelude.{ℕ, ◌≡◌, some, ◌==◌, Bool, false}
use plugify.Stages.Shared.{find_text}
use plugify.Manifest.Types.{defined}
use plugify.Manifest.Checked.{Where}
use plugify.Manifest.Registering.{Registered}

module _ (names : ℕ → String) (same : ℕ → ℕ → Bool) (type : String) (context : Where) where
  -- The table has q under the name of p, which is not empty, and q stands for p.
  abbrev pub StandsFor : ℕ → ℕ → Registered → Type 0
  StandsFor p q r =
      (str_eq (names p) "" ≡ false) × (r.1 ≡ defined q) × (find_text (names p) r.2 ≡ some q)
