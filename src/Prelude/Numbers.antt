-- ===== src/Prelude/Numbers.antt =====
-- Python's floats as a parameter: the type and the operations that the program calls on it. What a
-- theorem needs of them it takes as a hypothesis.
use mathlib.Core.Bool.{Bool, not}
use mathlib.Core.Option.{Option, some}
use graphling.Prelude.Int.{ℤ, ◌+ℤ◌, ◌-ℤ◌, ◌*ℤ◌, ltb_ℤ, eqb_ℤ, pos}

pub record Floats : Type 1 where
  pub Float : Type 0
  pub of_int : ℤ → Float
  pub add : Float → Float → Float
  pub sub : Float → Float → Float
  pub mul : Float → Float → Float
  pub div : Float → Float → Float
  -- a < b
  pub lt : Float → Float → Bool
  -- a <= b, x == 0, -x, x ** 2 and math.sqrt(x)
  pub le : Float → Float → Bool
  pub is_zero : Float → Bool
  pub neg : Float → Float
  pub square : Float → Float
  pub sqrt : Float → Float
  -- int(round(x)), `none` where it raises (an infinity or a NaN), and int(x)
  pub round : Float → Option ℤ
  pub trunc : Float → ℤ

-- The integers, as floats that never round: `div` and `sqrt` keep their first argument.
abbrev pub whole_floats : Floats
whole_floats = record {
  Float = ℤ;
  of_int = λ z. z;
  add = ◌+ℤ◌;
  sub = ◌-ℤ◌;
  mul = ◌*ℤ◌;
  div = λ a b. a;
  lt = ltb_ℤ;
  le = λ a b. not (ltb_ℤ b a);
  is_zero = eqb_ℤ (pos 0);
  neg = λ a. pos 0 -ℤ a;
  square = λ a. a *ℤ a;
  sqrt = λ a. a;
  round = λ z. some z;
  trunc = λ z. z;
}
