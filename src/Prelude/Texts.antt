-- ===== src/Prelude/Texts.antt =====
-- Texts that the code looks into, as lists of code points.
use Prim.Native.Char.{code}
use Prim.Native.String.{String}
use Prim.Native.Nat.{ℕ}
use mathlib.Core.Path.{◌≡◌, refl}
use mathlib.Core.Logic.{inl, inr}
use mathlib.Core.Bool.{Bool, true, false, ◌&&◌, ◌||◌}
use mathlib.Core.List.{List, [], ◌∷◌}
use native.Mathlib.Omega.{arith}
use graphling.Prelude.Tests.{leb, ◌==◌, ==_refl, ==_iff, Bool-cases, if◌then◌else◌}

abbrev pub Text : Type 0
Text = List ℕ

-- The code points of a literal. `String` has its own `[]` and `∷`.
abbrev pub codes : String → Text
codes String.[] = []
codes (String.◌∷◌ c s) = code c ∷ codes s

abbrev pub text_eqb : Text → Text → Bool
text_eqb [] [] = true
text_eqb (a ∷ s) (b ∷ t) = a == b && text_eqb s t
text_eqb _ _ = false

pub text_eqb_refl : (t : Text) → text_eqb t t ≡ true
text_eqb_refl [] = refl
text_eqb_refl (c ∷ t) = rw (==_refl c, text_eqb_refl t) refl

pub text_eqb_eq : (s t : Text) → text_eqb s t ≡ true → s ≡ t
text_eqb_eq [] [] h = refl
text_eqb_eq [] (b ∷ t) h = absurd (let z : ⊥ = cc in z)
text_eqb_eq (a ∷ s) [] h = absurd (let z : ⊥ = cc in z)
text_eqb_eq (a ∷ s) (b ∷ t) h = elim (Bool-cases (a == b)) [
  | inr e ↦ absurd (let z : ⊥ = ground (arith, e, h) in z)
  | inl e ↦
      let rest : text_eqb s t ≡ true = rw e at h in
      let head : a ≡ b = (==_iff a b).0 e in cc (head, text_eqb_eq s t rest)
]

-- A text in a test: is it not empty?
abbrev pub is_set : Text → Bool
is_set [] = false
is_set (c ∷ text) = true

-- `a or b` on texts
abbrev pub or_text : Text → Text → Text
or_text [] b = b
or_text (c ∷ a) b = c ∷ a

-- c.isspace()
abbrev pub is_space : ℕ → Bool
is_space c =
    c == b' '
    || leb 9 c && leb c 13
    || leb 28 c && leb c 31
    || c == 133
    || c == 160
    || c == 5760
    || leb 8192 c && leb c 8202
    || c == 8232
    || c == 8233
    || c == 8239
    || c == 8287
    || c == 12288

unfoldable pub lstrip : Text → Text
lstrip [] = []
lstrip (c ∷ cs) = let rest = lstrip cs in if is_space c then rest else c ∷ cs

unfoldable pub rstrip : Text → Text
rstrip [] = []
rstrip (c ∷ cs) = elim (rstrip cs) [ [] ↦ if is_space c then [] else c ∷ [] | d ∷ ds ↦ c ∷ d ∷ ds ]

-- text.strip()
unfoldable pub strip : Text → Text
unfolding lstrip rstrip
strip text = rstrip (lstrip text)

abbrev pub text_in : Text → List Text → Bool
text_in t [] = false
text_in t (s ∷ texts) = text_eqb s t || text_in t texts
