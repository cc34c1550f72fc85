-- ===== src/Version/Types.antt =====
-- include/plg/version.hpp: `version` and `prerelease_identifier`. A character is its code; the three
-- numbers are of type `int` and never negative, so they are natural numbers with a bound.
use plugify.Prelude.{ℕ, List, []}

pub data IdentifierType : Type 0 where
  numeric alphanumeric : IdentifierType

pub record PrereleaseIdentifier : Type 0 where
  pub type : IdentifierType
  pub identifier : List ℕ

pub record Version : Type 0 where
  pub major : ℕ
  pub minor : ℕ
  pub patch : ℕ
  pub prerelease_tag : List ℕ
  pub build_metadata : List ℕ
  pub prerelease_identifiers : List PrereleaseIdentifier

-- The members' initial values, which `clear` sets again.
abbrev pub initial : Version
initial = record {
  major = 0;
  minor = 1;
  patch = 0;
  prerelease_tag = [];
  build_metadata = [];
  prerelease_identifiers = [];
}
