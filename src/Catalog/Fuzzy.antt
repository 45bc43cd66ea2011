-- ===== src/Catalog/Fuzzy.antt =====
-- The libraries that the matching calls, as a parameter: rapidfuzz, jellyfish, and the Unicode tables
-- of the language. A score is a whole number of some small unit, and `unit` is one point of a hundred.
use graphling.Prelude.{Text, ℕ, zero, suc, ◌*◌, Option, none, some, List, [], ◌∷◌}

-- fuzz.WRatio and fuzz.token_sort_ratio
pub data Scorer : Type 0 where
  wratio token_sort_ratio : Scorer

pub record Libraries : Type 0 where
  pub unit : ℕ
  -- text.casefold() and text.lower()
  pub casefold : Text → Text
  pub lower : Text → Text
  -- rapidfuzz.utils.default_process
  pub default_process : Text → Text
  -- process.extract and process.extractOne with a scorer, `default_process` and a cutoff: scores with
  -- the indices of the choices
  pub extract : Scorer → Text → List Text → ℕ → List (ℕ × ℕ)
  pub extract_one : Scorer → Text → List Text → ℕ → Option (ℕ × ℕ)
  -- fuzz.token_sort_ratio and fuzz.partial_ratio on two texts
  pub token_sort : Text → Text → ℕ
  pub partial_ratio : Text → Text → ℕ
  -- jellyfish.metaphone
  pub metaphone : Text → Text

-- A number of points, in the unit of the scores.
abbrev pub points : Libraries → ℕ → ℕ
points libraries n = n * libraries.unit

-- lookup[index]; `none` is an IndexError.
abbrev pub at_index {ℓ} : {A : Type ℓ} → List A → ℕ → Option A
at_index [] i = none
at_index (a ∷ items) zero = some a
at_index (a ∷ items) (suc i) = at_index items i
