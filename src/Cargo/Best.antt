-- ===== src/Cargo/Best.antt =====
-- `max_packable_scu` of app/tools/cargo_packing.py finds the largest total that the containers make.
use graphling.Prelude.{
  ℕ, zero, suc, ◌+◌, ◌-◌, ◌≤◌, ◌<◌, ◌≡◌, refl, sym, subst, ◌∙◌, ◌≢◌, ◌⊎◌, inl, inr, ℤ, pos, negsuc,
  true, Bool-cases, List, [], ◌∷◌, ltb, ◌==◌, ==_iff, if◌then◌else◌, length, replicate,
  length-replicate, set, length-set, get_or-set_self, get_or-set_ne, contains, arith,
}
use graphling.Cargo.Relax.{
  Packs, empty, one_more, AllPositive, IsBest, at, Relaxed, positive_of, relax-Relaxed,
}
use graphling.Cargo.Packing.{is_empty, insert_new, positive_sizes, relax, fill, max_packable_scu}

-- The entries below `total` are final.
abbrev FilledTo : ℕ → List ℕ → List ℕ → Type 0
FilledTo total sizes best = (i : ℕ) → i < total → IsBest sizes i (at best i)

-- A total that is not empty has a first container.
Packs-cases :
    (sizes : List ℕ) (total : ℕ)
    → Packs sizes total
    → (total ≡ 0)
      ⊎ ((size : ℕ) × (rest : ℕ) × (contains size sizes ≡ true)
          × Packs sizes rest
          × (total ≡ size + rest))
Packs-cases sizes total empty = inl refl
Packs-cases sizes total (one_more size rest t c p e) = inr (size, rest, c, p, e)

module _ (sizes best : List ℕ) (total : ℕ) (positive : AllPositive sizes) (first : 0 < total)
    (inside : total < length best) (filled : FilledTo total sizes best) where
  started : List ℕ
  started = set best total (at best (total - 1))

  length-started : length started ≡ length best
  unfolding started
  length-started = length-set best total (at best (total - 1))

  at-started_ne : (i : ℕ) → i ≢ total → at started i ≡ at best i
  unfolding started
  at-started_ne i h = get_or-set_ne best total i (at best (total - 1)) 0 (λ e. h (sym e))

  at-started_self : at started total ≡ at best (total - 1)
  unfolding started
  at-started_self = get_or-set_self best total (at best (total - 1)) 0 inside

  relaxed : Relaxed total sizes started (relax total sizes started)
  relaxed = relax-Relaxed total sizes started (omega (arith, length-started)) positive

  -- The value of the new entry: that of the entry before, or one container on an earlier entry.
  new-Packs : Packs sizes (at (relax total sizes started) total)
  new-Packs = elim relaxed.reached [
    | inl e ↦
        subst (λ v. Packs sizes v) (sym (e ∙ at-started_self))
          (filled (total - 1) (omega arith)).packs
    | inr (s, c, k, e) ↦
        let q = positive_of s sizes positive c in
        let b = filled (total - s) (omega arith) in
        one_more s (at best (total - s)) _ c b.packs
          (omega (arith, e, at-started_ne (total - s) (λ same. omega arith)))
  ]

  new_fits : at (relax total sizes started) total ≤ total
  new_fits = elim relaxed.reached [
    | inl e ↦ omega (arith, e, at-started_self, (filled (total - 1) (omega arith)).fits)
    | inr (s, c, k, e) ↦
        let q = positive_of s sizes positive c in
        omega (
          arith,
          e,
          at-started_ne (total - s) (λ same. omega arith),
          (filled (total - s) (omega arith)).fits,
        )
  ]

  new_most_of :
      (m : ℕ)
      → (m ≡ 0)
        ⊎ ((size : ℕ) × (rest : ℕ) × (contains size sizes ≡ true)
            × Packs sizes rest
            × (m ≡ size + rest))
      → m ≤ total
      → m ≤ at (relax total sizes started) total
  new_most_of m (inl e) k = omega arith
  new_most_of m (inr (s, rest, c, p, e)) k =
      let q = positive_of s sizes positive c in
      let below = (filled (total - s) (omega arith)).most rest p (omega arith) in
      omega (
        arith,
        relaxed.covers s c (omega arith),
        at-started_ne (total - s) (λ same. omega arith),
        below,
      )

  new_entry : IsBest sizes total (at (relax total sizes started) total)
  new_entry = record {
    packs = new-Packs;
    fits = new_fits;
    most = λ m p k. new_most_of m (Packs-cases sizes m p) k;
  }

  old_entry : (i : ℕ) → i < total → IsBest sizes i (at (relax total sizes started) i)
  old_entry i h =
      subst (λ v. IsBest sizes i v)
        (sym (relaxed.others i (λ e. omega arith) ∙ at-started_ne i (λ e. omega arith)))
        (filled i h)

  round-FilledTo : FilledTo (total + 1) sizes (relax total sizes started)
  round-FilledTo i h = elim (Bool-cases (i == total)) [
    | inl e ↦
        subst (λ j. IsBest sizes j (at (relax total sizes started) j)) (sym ((==_iff i total).0 e))
          new_entry
    | inr e ↦ old_entry i (ground (arith, e))
  ]

  length-round : length (relax total sizes started) ≡ length best
  length-round = relaxed.size ∙ length-started

-- The outer loop fills the table to its end.
pub fill-FilledTo :
    (rounds total : ℕ) (sizes best : List ℕ)
    → AllPositive sizes
    → 0 < total
    → total + rounds ≡ length best
    → FilledTo total sizes best
    → FilledTo (total + rounds) sizes (fill rounds total sizes best)
unfolding fill started
fill-FilledTo zero total sizes best positive first size filled i h = filled i (omega arith)
fill-FilledTo (suc rounds) total sizes best positive first size filled i h =
    fill-FilledTo rounds (total + 1) sizes
      (relax total sizes (set best total (at best (total - 1)))) positive (omega arith)
      (omega (arith, length-round sizes best total positive first (omega arith) filled))
      (round-FilledTo sizes best total positive first (omega arith) filled) i (omega arith)

insert_new-AllPositive :
    (x : ℕ) (xs : List ℕ) → 0 < x → AllPositive xs → AllPositive (insert_new x xs)
insert_new-AllPositive x [] p h = (p, tt)
insert_new-AllPositive x (y ∷ ys) p h = elim (Bool-cases (ltb y x)) [
  | inl e ↦ rw e (h.0, insert_new-AllPositive x ys p h.1)
  | inr e ↦ rw e (elim (Bool-cases (x == y)) [ inl same ↦ rw same h | inr other ↦ rw other (p, h) ])
]

pub positive_sizes-AllPositive : (sizes : List ℤ) → AllPositive (positive_sizes sizes)
unfolding positive_sizes
positive_sizes-AllPositive [] = tt
positive_sizes-AllPositive (pos zero ∷ sizes) = positive_sizes-AllPositive sizes
positive_sizes-AllPositive (pos (suc n) ∷ sizes) =
    insert_new-AllPositive (suc n) (positive_sizes sizes) (omega arith)
      (positive_sizes-AllPositive sizes)
positive_sizes-AllPositive (negsuc n ∷ sizes) = positive_sizes-AllPositive sizes

at-replicate : (n i : ℕ) → at (replicate n 0) i ≡ 0
at-replicate zero i = refl
at-replicate (suc n) zero = refl
at-replicate (suc n) (suc i) = at-replicate n i

nothing-IsBest : (sizes : List ℕ) (best : ℕ) → best ≡ 0 → IsBest sizes 0 best
nothing-IsBest sizes best e = record {
  packs = subst (λ v. Packs sizes v) (sym e) empty;
  fits = omega arith;
  most = λ m p k. omega arith;
}

no_containers : (n : ℕ) → Packs [] n → n ≡ 0
no_containers n empty = refl
no_containers n (one_more size rest t c p e) = absurd (let z : ⊥ = cc in z)

filled_table :
    (n : ℕ) (sizes : List ℕ)
    → AllPositive sizes
    → IsBest sizes (suc n) (at (fill (suc n) 1 sizes (replicate (suc n + 1) 0)) (suc n))
filled_table n sizes positive =
    fill-FilledTo (suc n) 1 sizes (replicate (suc n + 1) 0) positive (omega arith)
      (omega (arith, length-replicate (suc n + 1) (let z : ℕ = 0 in z)))
      (λ i h. at_zero i (omega arith)) (suc n) (omega arith)
  where
    at_zero : (i : ℕ) → i ≡ 0 → IsBest sizes i (at (replicate (suc n + 1) 0) i)
    at_zero i e =
        subst (λ j. IsBest sizes j (at (replicate (suc n + 1) 0) j)) (sym e)
          (nothing-IsBest sizes _ (at-replicate (suc n + 1) 0))

IsBest-of :
    (n : ℕ) (sizes : List ℕ)
    → AllPositive sizes
    → IsBest sizes
        (suc n)
        (if is_empty sizes then 0 else at (fill (suc n) 1 sizes (replicate (suc n + 1) 0)) (suc n))
IsBest-of n [] positive = record {
  packs = empty;
  fits = omega arith;
  most = λ m p k. omega (arith, no_containers m p);
}
IsBest-of n (x ∷ sizes) positive = filled_table n (x ∷ sizes) positive

-- For a capacity that is not negative, `max_packable_scu` returns the largest total within it that
-- containers of the listed positive sizes make, any number of each.
pub max_packable_scu-IsBest :
    (capacity : ℕ) (container_sizes : List ℤ)
    → IsBest
        (positive_sizes container_sizes)
        capacity
        (max_packable_scu (pos capacity) container_sizes)
unfolding max_packable_scu
max_packable_scu-IsBest zero container_sizes =
    nothing-IsBest (positive_sizes container_sizes) 0 refl
max_packable_scu-IsBest (suc n) container_sizes =
    IsBest-of n (positive_sizes container_sizes) (positive_sizes-AllPositive container_sizes)
