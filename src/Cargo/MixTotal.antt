-- ===== src/Cargo/MixTotal.antt =====
-- `best_container_mix` of app/tools/cargo_packing.py: the mix that is read back from its tables has the
-- total of `max_packable_scu`.
use graphling.Prelude.{
  ℕ, zero, suc, ◌+◌, ◌-◌, ◌*◌, ◌≤◌, ◌<◌, ◌≡◌, refl, sym, subst, ap, ◌∙◌, ◌≢◌, inl, inr, ℤ, pos,
  negsuc, true, Bool-cases, Option, none, some, List, [], ◌∷◌, All, ◌==◌, ==_iff, ==_refl,
  if◌then◌else◌, length, replicate, length-replicate, get_or, set, length-set, get_or-set_self,
  get_or-set_ne, contains, arith,
}
use graphling.Cargo.Packing.{
  Fill, is_empty, positive_sizes, fill, max_packable_scu, relax_used, fill_used, add_container,
  read_mix, best_container_mix,
}
use graphling.Cargo.Mix.{
  fill_used-best, UsedCase, used, step_used, Round, Round-refl, Round-trans, step_used-Round,
}
use graphling.Cargo.Relax.{positive_of, AllPositive, at}
use graphling.Cargo.Best.{positive_sizes-AllPositive}

-- Every size of the loop is one of `sizes`.
abbrev Listed : List ℕ → List ℕ → Type 0
Listed sizes = All (λ s. contains s sizes ≡ true)

relax_used-Round :
    (sizes : List ℕ) (total : ℕ) (loop : List ℕ) (f : Fill)
    → 0 < total
    → total < length f.best
    → total < length f.used_size
    → AllPositive loop
    → Listed sizes loop
    → Round sizes total f (relax_used total loop f)
unfolding relax_used
relax_used-Round sizes total [] f first b u positive listed = Round-refl sizes total f
relax_used-Round sizes total (size ∷ loop) f first b u positive listed =
    let one = step_used-Round sizes total size f first b u positive.0 listed.0 in
    Round-trans sizes total f (step_used total size f) _ one (
      relax_used-Round sizes total loop (step_used total size f) first
        (omega (arith, one.best_size)) (omega (arith, one.used_length)) positive.1 listed.1)

-- The entries below `total` say how their totals come about, and the others are blank.
record Filling (sizes : List ℕ) (total cap : ℕ) (f : Fill) : Type 0 where
  best_length : length f.best ≡ suc cap
  used_length : length f.used_size ≡ suc cap
  entries : (i : ℕ) → 0 < i → i < total → UsedCase sizes f.best i (used f i)
  blank : (i : ℕ) → total ≤ i → used f i ≡ none
  zeroth : at f.best 0 ≡ 0

-- An entry speaks only of totals up to its own.
UsedCase-same :
    (sizes best best' : List ℕ) (i : ℕ) (o : Option ℕ)
    → ((j : ℕ) → j ≤ i → at best' j ≡ at best j)
    → UsedCase sizes best i o
    → UsedCase sizes best' i o
UsedCase-same sizes best best' i none same h =
    same i (omega arith) ∙ h ∙ sym (same (i - 1) (omega arith))
UsedCase-same sizes best best' i (some s) same (c, k, h) =
    (c, k, same i (omega arith) ∙ h ∙ ap (λ v. v + s) (sym (same (i - s) (omega arith))))

module _ (sizes : List ℕ) (total cap : ℕ) (f : Fill) (positive : AllPositive sizes)
    (listed : Listed sizes sizes) (first : 0 < total) (inside : total ≤ cap)
    (filling : Filling sizes total cap f) where
  begun : Fill
  begun = record f { best = set f.best total (at f.best (total - 1)) }

  length-begun : length begun.best ≡ suc cap
  unfolding begun
  length-begun = length-set f.best total (at f.best (total - 1)) ∙ filling.best_length

  at-begun_ne : (i : ℕ) → i ≢ total → at begun.best i ≡ at f.best i
  unfolding begun
  at-begun_ne i h = get_or-set_ne f.best total i (at f.best (total - 1)) 0 (λ e. h (sym e))

  used-begun : (i : ℕ) → used begun i ≡ used f i
  unfolding begun
  used-begun i = refl

  round : Round sizes total begun (relax_used total sizes begun)
  unfolding begun
  round =
      relax_used-Round sizes total sizes begun first (omega (arith, length-begun))
        (omega (arith, filling.used_length)) positive listed

  same_below : (i : ℕ) → i ≢ total → at (relax_used total sizes begun).best i ≡ at f.best i
  same_below i h = round.best_others i h ∙ at-begun_ne i h

  -- Before the inner loop the new entry repeats the total before it.
  blank_entry : UsedCase sizes begun.best total (used begun total)
  unfolding begun
  blank_entry = rw (filling.blank total (omega arith)) (
      get_or-set_self f.best total (at f.best (total - 1)) 0 (omega (arith, filling.best_length))
      ∙ sym (at-begun_ne (total - 1) (λ e. omega arith)))

  next_entry :
      (i : ℕ)
      → 0 < i
      → i < total + 1
      → UsedCase sizes (relax_used total sizes begun).best i (used (relax_used total sizes begun) i)
  next_entry i p h = elim (Bool-cases (i == total)) [
    | inl e ↦
        subst
          (λ j.
            UsedCase sizes (relax_used total sizes begun).best j
              (used (relax_used total sizes begun) j))
          (sym ((==_iff i total).0 e)) (round.entry blank_entry)
    | inr e ↦
        let other : i ≢ total = λ same. let z : ⊥ = cc (e, (==_iff i total).1 same) in z in
        let below : i < total = ground (arith, e) in
        subst (λ o. UsedCase sizes (relax_used total sizes begun).best i o)
          (sym (round.used_others i other ∙ used-begun i))
          (UsedCase-same sizes f.best (relax_used total sizes begun).best i (used f i)
            (λ j k. same_below j (λ same. omega arith)) (filling.entries i p below))
  ]

  round-Filling : Filling sizes (total + 1) cap (relax_used total sizes begun)
  unfolding begun
  round-Filling = record {
    best_length = round.best_size ∙ length-begun;
    used_length = round.used_length ∙ filling.used_length;
    entries = next_entry;
    blank = λ i h.
        round.used_others i (λ same. omega arith) ∙ used-begun i ∙ filling.blank i (omega arith);
    zeroth = same_below 0 (λ same. omega arith) ∙ filling.zeroth;
  }

fill_used-Filling :
    (rounds total cap : ℕ) (sizes : List ℕ) (f : Fill)
    → AllPositive sizes
    → Listed sizes sizes
    → 0 < total
    → total + rounds ≡ suc cap
    → Filling sizes total cap f
    → Filling sizes (suc cap) cap (fill_used rounds total sizes f)
unfolding fill_used begun
fill_used-Filling zero total cap sizes f positive listed first end filling =
    subst (λ t. Filling sizes t cap f) (omega arith) filling
fill_used-Filling (suc rounds) total cap sizes f positive listed first end filling =
    fill_used-Filling rounds (total + 1) cap sizes
      (relax_used total sizes (record f { best = set f.best total (at f.best (total - 1)) }))
      positive listed (omega arith) (omega arith)
      (round-Filling sizes total cap f positive listed first (omega arith) filling)

-- The SCU that a mix holds.
abbrev pub mix_total : List (ℕ × ℕ) → ℕ
mix_total [] = 0
mix_total ((size, count) ∷ mix) = size * count + mix_total mix

mix_total-add_container :
    (size : ℕ) (mix : List (ℕ × ℕ)) → mix_total (add_container size mix) ≡ size + mix_total mix
unfolding add_container
mix_total-add_container size [] = omega arith
mix_total-add_container size ((s, count) ∷ mix) = elim (Bool-cases (s == size)) [
  | inl e ↦ rw e (grind (arith, (==_iff s size).0 e))
  | inr e ↦ rw e (omega (arith, mix_total-add_container size mix))
]

-- The containers of a mix are all of the given sizes.
abbrev pub MadeOf : List ℕ → List (ℕ × ℕ) → Type 0
MadeOf sizes [] = Unit
MadeOf sizes ((size, count) ∷ mix) = (contains size sizes ≡ true) × MadeOf sizes mix

MadeOf-add_container :
    (sizes : List ℕ) (size : ℕ) (mix : List (ℕ × ℕ))
    → contains size sizes ≡ true
    → MadeOf sizes mix
    → MadeOf sizes (add_container size mix)
unfolding add_container
MadeOf-add_container sizes size [] c h = (c, tt)
MadeOf-add_container sizes size ((s, count) ∷ mix) c h = elim (Bool-cases (s == size)) [
  | inl e ↦ rw e h
  | inr e ↦ rw e (h.0, MadeOf-add_container sizes size mix c h.1)
]

abbrev Reads : List ℕ → Fill → ℕ → List (ℕ × ℕ) → List (ℕ × ℕ) → Type 0
Reads sizes f remaining mix mix' =
    (mix_total mix' ≡ at f.best remaining + mix_total mix) × MadeOf sizes mix'

-- Reading the mix back: with fuel for `remaining` it has the total of that entry.
module _ (sizes : List ℕ) (cap : ℕ) (f : Fill) (positive : AllPositive sizes)
    (filling : Filling sizes (suc cap) cap f) where
  read_step :
      (fuel r : ℕ) (mix : List (ℕ × ℕ)) (o : Option ℕ)
      → suc r ≤ cap
      → r ≤ fuel
      → used f (suc r) ≡ o
      → ((s : ℕ) (m : List (ℕ × ℕ))
          → s ≤ fuel
          → s ≤ cap
          → MadeOf sizes m
          → Reads sizes f s m (read_mix fuel f.used_size s m))
      → MadeOf sizes mix
      → Reads sizes f (suc r) mix (read_mix (suc fuel) f.used_size (suc r) mix)
  unfolding read_mix
  read_step fuel r mix none k b e rec made =
      let entry =
        subst (λ o. UsedCase sizes f.best (suc r) o) e
          (filling.entries (suc r) (omega arith) (omega arith)) in
      let (t, m) = rec r mix b (omega arith) made in
      let same : suc r - 1 ≡ r = omega arith in
      rw (e, read_mix) (omega (arith, t, entry, ap (λ i. at f.best i) same), m)
  read_step fuel r mix (some s) k b e rec made =
      let (c, fits, entry) =
        subst (λ o. UsedCase sizes f.best (suc r) o) e
          (filling.entries (suc r) (omega arith) (omega arith)) in
      let q = positive_of s sizes positive c in
      let (t, m) =
        rec (suc r - s) (add_container s mix) (omega arith) (omega arith)
          (MadeOf-add_container sizes s mix c made) in
      rw (e, read_mix) (omega (arith, t, entry, mix_total-add_container s mix), m)

  read_mix-Reads :
      (fuel remaining : ℕ) (mix : List (ℕ × ℕ))
      → remaining ≤ fuel
      → remaining ≤ cap
      → MadeOf sizes mix
      → Reads sizes f remaining mix (read_mix fuel f.used_size remaining mix)
  unfolding read_mix
  read_mix-Reads zero zero mix h k made = (omega (arith, filling.zeroth), made)
  read_mix-Reads zero (suc r) mix h k made = absurd (omega arith)
  read_mix-Reads (suc fuel) zero mix h k made = (omega (arith, filling.zeroth), made)
  read_mix-Reads (suc fuel) (suc r) mix h k made =
      read_step fuel r mix (used f (suc r)) k (omega arith) refl
        (λ s m a b n. read_mix-Reads fuel s m a b n) made

contains_self : (xs : List ℕ) → Listed xs xs
contains_self xs = go xs (λ s h. h)
  where
    go : (ys : List ℕ) → ((s : ℕ) → contains s ys ≡ true → contains s xs ≡ true) → Listed xs ys
    go [] inc = tt
    go (y ∷ ys) inc = (inc y (ground (arith, ==_refl y)), go ys (λ s h. inc s (or_right s y ys h)))
      where
        or_right : (s y : ℕ) (ys : List ℕ) → contains s ys ≡ true → contains s (y ∷ ys) ≡ true
        or_right s y ys h = ground (arith, h)

get_or-blank : (n i : ℕ) → get_or (replicate n (let o : Option ℕ = none in o)) i none ≡ none
get_or-blank zero i = refl
get_or-blank (suc n) zero = refl
get_or-blank (suc n) (suc i) = get_or-blank n i

at-zeros : (n i : ℕ) → at (replicate n 0) i ≡ 0
at-zeros zero i = refl
at-zeros (suc n) zero = refl
at-zeros (suc n) (suc i) = at-zeros n i

abbrev blank_fill : ℕ → Fill
blank_fill n = record { best = replicate (n + 1) 0; used_size = replicate (n + 1) none }

first-Filling : (n : ℕ) (sizes : List ℕ) → Filling sizes 1 n (blank_fill n)
first-Filling n sizes = record {
  best_length = length-replicate (n + 1) 0 ∙ omega arith;
  used_length = length-replicate (n + 1) none ∙ omega arith;
  entries = λ i p h. absurd (omega arith);
  blank = λ i h. get_or-blank (n + 1) i;
  zeroth = at-zeros (n + 1) 0;
}

mix_of :
    (n : ℕ) (sizes : List ℕ)
    → AllPositive sizes
    → Reads sizes
        (fill_used (suc n) 1 sizes (blank_fill (suc n)))
        (suc n)
        []
        (read_mix (suc n) (fill_used (suc n) 1 sizes (blank_fill (suc n))).used_size (suc n) [])
mix_of n sizes positive =
    read_mix-Reads sizes (suc n) (fill_used (suc n) 1 sizes (blank_fill (suc n))) positive
      (fill_used-Filling (suc n) 1 (suc n) sizes (blank_fill (suc n)) positive (contains_self sizes)
        (omega arith) (omega arith) (first-Filling (suc n) sizes))
      (suc n) (suc n) [] (omega arith) (omega arith) tt

abbrev pub SameTotal : List ℕ → ℕ → List (ℕ × ℕ) → Type 0
SameTotal sizes total mix = (mix_total mix ≡ total) × MadeOf sizes mix

mix_or_none :
    (n : ℕ) (sizes : List ℕ)
    → AllPositive sizes
    → SameTotal sizes
        (if is_empty sizes then 0 else at (fill (suc n) 1 sizes (replicate (suc n + 1) 0)) (suc n))
        (if is_empty sizes
          then []
          else read_mix
              (suc n)
              (fill_used (suc n) 1 sizes (blank_fill (suc n))).used_size
              (suc n)
              [])
mix_or_none n [] positive = (refl, tt)
mix_or_none n (x ∷ sizes) positive =
    let (total, made) = mix_of n (x ∷ sizes) positive in
    let same = fill_used-best (suc n) 1 (x ∷ sizes) (blank_fill (suc n)) in
    (omega (arith, total, ap (λ b. at b (suc n)) same), made)

-- For every capacity the mix of `best_container_mix` holds exactly `max_packable_scu`, in containers of
-- the listed positive sizes.
pub best_container_mix-total :
    (capacity : ℤ) (container_sizes : List ℤ)
    → SameTotal
        (positive_sizes container_sizes)
        (max_packable_scu capacity container_sizes)
        (best_container_mix capacity container_sizes)
unfolding max_packable_scu best_container_mix
best_container_mix-total (negsuc n) container_sizes = (refl, tt)
best_container_mix-total (pos zero) container_sizes = (refl, tt)
best_container_mix-total (pos (suc n)) container_sizes =
    mix_or_none n (positive_sizes container_sizes) (positive_sizes-AllPositive container_sizes)
