-- ===== src/Cargo/Packing.antt =====
-- The packing of a hold (app/tools/cargo_packing.py): the table of best totals, the container mix, the
-- reachable cargo of a route and the time to move it.
use graphling.Prelude.{
  ℕ, zero, suc, ◌+◌, ◌-◌, ℤ, pos, negsuc, ltb_ℤ, Bool, true, false, ◌&&◌, Option, none, some, List,
  [], ◌∷◌, max, ltb, leb, ◌==◌, if◌then◌else◌, replicate, get_or, set, Floats,
}
use graphling.Cargo.Sizes.{usable_container_sizes}
use graphling.Ledger.Models.{UexTradeRoute}

-- Insertion into a sorted list without repetitions.
abbrev pub insert_new : ℕ → List ℕ → List ℕ
insert_new x [] = x ∷ []
insert_new x (y ∷ ys) =
    if ltb y x then y ∷ insert_new x ys else if x == y then y ∷ ys else x ∷ y ∷ ys

-- sorted({size for size in container_sizes if size > 0})
unfoldable pub positive_sizes : List ℤ → List ℕ
positive_sizes [] = []
positive_sizes (pos zero ∷ sizes) = positive_sizes sizes
positive_sizes (pos (suc n) ∷ sizes) = insert_new (suc n) (positive_sizes sizes)
positive_sizes (negsuc n ∷ sizes) = positive_sizes sizes

-- The inner loop of `max_packable_scu` at `total`.
unfoldable pub relax : ℕ → List ℕ → List ℕ → List ℕ
relax total [] best = best
relax total (size ∷ sizes) best = relax total sizes (
    if leb size total
    then set best total (max (get_or best total 0) (get_or best (total - size) 0 + size))
    else best)

-- for total in range(total, total + rounds)
unfoldable pub fill : ℕ → ℕ → List ℕ → List ℕ → List ℕ
unfolding relax
fill zero total sizes best = best
fill (suc rounds) total sizes best =
    fill rounds (total + 1) sizes (relax total sizes (set best total (get_or best (total - 1) 0)))

abbrev pub is_empty : List ℕ → Bool
is_empty [] = true
is_empty (x ∷ xs) = false

unfoldable pub max_packable_scu : ℤ → List ℤ → ℕ
unfolding positive_sizes fill
max_packable_scu (negsuc n) container_sizes = 0
max_packable_scu (pos zero) container_sizes = 0
max_packable_scu (pos (suc n)) container_sizes =
    let sizes = positive_sizes container_sizes in
    if is_empty sizes then 0 else get_or (fill (suc n) 1 sizes (replicate (suc n + 1) 0)) (suc n) 0

-- The two tables of `best_container_mix`.
pub record Fill : Type 0 where
  pub best : List ℕ
  pub used_size : List (Option ℕ)

-- Its inner loop: the last size that does as well is the one kept.
unfoldable pub relax_used : ℕ → List ℕ → Fill → Fill
relax_used total [] f = f
relax_used total (size ∷ sizes) f = relax_used total sizes (
    if leb size total && leb (get_or f.best total 0) (get_or f.best (total - size) 0 + size)
    then record {
      best = set f.best total (get_or f.best (total - size) 0 + size);
      used_size = set f.used_size total (some size);
    }
    else f)

unfoldable pub fill_used : ℕ → ℕ → List ℕ → Fill → Fill
unfolding relax_used
fill_used zero total sizes f = f
fill_used (suc rounds) total sizes f =
    fill_used rounds (total + 1) sizes
      (relax_used total sizes (record f { best = set f.best total (get_or f.best (total - 1) 0) }))

-- mix[size] = mix.get(size, 0) + 1
unfoldable pub add_container : ℕ → List (ℕ × ℕ) → List (ℕ × ℕ)
add_container size [] = (size, 1) ∷ []
add_container size ((s, count) ∷ mix) =
    if s == size then (s, count + 1) ∷ mix else (s, count) ∷ add_container size mix

-- The `while remaining > 0` loop, on fuel: each round takes at least one from `remaining`.
unfoldable pub read_mix : ℕ → List (Option ℕ) → ℕ → List (ℕ × ℕ) → List (ℕ × ℕ)
unfolding add_container
read_mix zero used_size remaining mix = mix
read_mix (suc fuel) used_size zero mix = mix
read_mix (suc fuel) used_size (suc r) mix = elim (get_or used_size (suc r) none) [
  | none ↦ read_mix fuel used_size r mix
  | some size ↦ read_mix fuel used_size (suc r - size) (add_container size mix)
]

unfoldable pub best_container_mix : ℤ → List ℤ → List (ℕ × ℕ)
unfolding positive_sizes fill_used read_mix
best_container_mix (negsuc n) container_sizes = []
best_container_mix (pos zero) container_sizes = []
best_container_mix (pos (suc n)) container_sizes =
    let sizes = positive_sizes container_sizes in
    let f =
      fill_used (suc n) 1 sizes
        (record { best = replicate (suc n + 1) 0; used_size = replicate (suc n + 1) none }) in
    if is_empty sizes then [] else read_mix (suc n) f.used_size (suc n) []

module _ (floats : Floats) where
  open floats use {Float, of_int, add, sub, mul, lt, trunc}

  abbrev min_float : Float → Float → Float
  min_float a b = if lt b a then b else a

  abbrev cap_to_ship : Float → Option ℤ → Float
  cap_to_ship capacity none = capacity
  cap_to_ship capacity (some cargo_scu) =
      if ltb_ℤ (pos 0) cargo_scu then min_float capacity (of_int cargo_scu) else capacity

  abbrev no_sizes : List ℤ → Bool
  no_sizes [] = true
  no_sizes (s ∷ sizes) = false

  unfoldable pub reachable_scu : UexTradeRoute floats → Option ℤ → Float
  reachable_scu route cargo_scu =
      let capacity = cap_to_ship (min_float route.scu_origin route.scu_destination) cargo_scu in
      let sizes =
        usable_container_sizes route.container_sizes_origin route.container_sizes_destination in
      if no_sizes sizes then capacity else of_int (pos (max_packable_scu (trunc capacity) sizes))

  unfoldable pub estimated_profit : UexTradeRoute floats → Float → Float
  estimated_profit route scu = mul (sub route.price_destination route.price_origin) scu

  -- The running sum of `estimate_transfer_time`, from its start.
  abbrev sum_times : Float → List (ℕ × ℕ) → Float → (ℕ → Float) → Float
  sum_times total [] seconds_per_crate modifier = total
  sum_times total ((size, count) ∷ mix) seconds_per_crate modifier =
      sum_times (add total (mul (mul (of_int (pos count)) seconds_per_crate) (modifier size))) mix
        seconds_per_crate modifier

  -- `modifier` is `modifiers.get(size, 1.0)`.
  unfoldable pub estimate_transfer_time : List (ℕ × ℕ) → Float → (ℕ → Float) → Float
  estimate_transfer_time mix seconds_per_crate modifier =
      sum_times (of_int (pos 0)) mix seconds_per_crate modifier
