-- ===== src/Cargo/Sizes.antt =====
-- Container sizes of app/tools/cargo_packing.py: the sizes that both ends of a route take, and the
-- comma-separated form in which a run keeps them. A text is the list of its character codes.
use graphling.Prelude.{
  Text, lstrip, rstrip, ℕ, zero, suc, ◌+◌, ◌-◌, ◌*◌, ◌/◌, ◌%◌, ℤ, pos, negsuc, ltb_ℤ, eqb_ℤ, sub_ℕ,
  Bool, true, false, ◌&&◌, Option, none, some, List, [], ◌∷◌, ◌++◌, map, filter, any, ltb, leb,
  ◌==◌, if◌then◌else◌,
}

-- Insertion into a sorted list; equal elements stay, behind one another.
abbrev insert_sorted : ℤ → List ℤ → List ℤ
insert_sorted x [] = x ∷ []
insert_sorted x (y ∷ ys) = if ltb_ℤ y x then y ∷ insert_sorted x ys else x ∷ y ∷ ys

-- sorted(xs)
unfoldable pub sorted : List ℤ → List ℤ
sorted [] = []
sorted (x ∷ xs) = insert_sorted x (sorted xs)

abbrev pub contains_ℤ : ℤ → List ℤ → Bool
contains_ℤ x ys = any (λ y. eqb_ℤ y x) ys

-- list(set(xs)), in some order
unfoldable pub distinct : List ℤ → List ℤ
distinct [] = []
distinct (x ∷ xs) = let rest = distinct xs in if contains_ℤ x rest then rest else x ∷ rest

-- sorted(set(origin_sizes) & set(destination_sizes))
unfoldable pub usable_container_sizes : List ℤ → List ℤ → List ℤ
usable_container_sizes origin_sizes destination_sizes =
    sorted (filter (λ s. contains_ℤ s destination_sizes) (distinct origin_sizes))

-- str(n), for n ≥ 0; the fuel is one more than the number, and each round divides it by ten.
unfoldable pub digits : ℕ → ℕ → Text → Text
digits zero n acc = acc
digits (suc fuel) n acc =
    let more = digits fuel (n / 10) ((b'0' + n % 10) ∷ acc) in
    if ltb n 10 then (b'0' + n) ∷ acc else more

unfoldable pub str : ℤ → Text
unfolding digits
str (pos n) = digits (suc n) n []
str (negsuc n) = b'-' ∷ digits (suc (suc n)) (suc n) []

-- The digits of int(part): an underscore stands only between two digits.
unfoldable pub read_digits : ℕ → Bool → Text → Option ℕ
read_digits acc after_digit [] = if after_digit then some acc else none
read_digits acc after_digit (c ∷ cs) =
    let next = read_digits (acc * 10 + (c - b'0')) true cs in
    let skip = read_digits acc false cs in
    if leb b'0' c && leb c b'9' then next else if c == b'_' && after_digit then skip else none

abbrev negate : ℕ → ℤ
negate n = sub_ℕ 0 n

-- The optional sign of int(part).
unfoldable pub read_signed : Text → Option ℤ
unfolding read_digits
read_signed [] = none
read_signed (c ∷ cs) =
    if c == b'-'
    then elim (read_digits 0 false cs) [ none ↦ none | some n ↦ some (negate n) ]
    else if c == b'+'
    then elim (read_digits 0 false cs) [ none ↦ none | some n ↦ some (pos n) ]
    else elim (read_digits 0 false (c ∷ cs)) [ none ↦ none | some n ↦ some (pos n) ]

-- int(part); `none` is the ValueError.
unfoldable pub int : Text → Option ℤ
unfolding read_signed lstrip rstrip
int part = read_signed (rstrip (lstrip part))

-- s.split(","), with the piece that is being read in front
unfoldable pub split_commas : Text → List Text
split_commas [] = [] ∷ []
split_commas (c ∷ cs) = elim (split_commas cs) [
  | [] ↦ []
  | piece ∷ pieces ↦ if c == b',' then [] ∷ piece ∷ pieces else (c ∷ piece) ∷ pieces
]

-- [int(part) for part in parts if part]
unfoldable pub ints : List Text → Option (List ℤ)
unfolding int
ints [] = some []
ints ([] ∷ parts) = ints parts
ints ((c ∷ cs) ∷ parts) = elim (int (c ∷ cs)) [
  | none ↦ none
  | some n ↦ elim (ints parts) [ none ↦ none | some ns ↦ some (n ∷ ns) ]
]

unfoldable pub parse_container_sizes : Text → Option (List ℤ)
unfolding ints split_commas
parse_container_sizes [] = some []
parse_container_sizes (c ∷ cs) = ints (split_commas (c ∷ cs))

-- ",".join(parts)
unfoldable pub join_commas : List Text → Text
join_commas [] = []
join_commas (part ∷ []) = part
join_commas (part ∷ next ∷ parts) = part ++ (b',' ∷ join_commas (next ∷ parts))

unfoldable pub format_container_sizes : List ℤ → Text
unfolding join_commas
format_container_sizes sizes = join_commas (map str (sorted sizes))
