-- ===== src/Cargo/Relax.antt =====
-- The inner loop of `max_packable_scu` (app/tools/cargo_packing.py), and what its table stands for.
use graphling.Prelude.{
  ℕ, zero, ◌+◌, ◌-◌, ◌≤◌, ◌<◌, ◌≡◌, refl, sym, subst, ◌∙◌, ◌≢◌, ◌⊎◌, inl, inr, true, Bool-cases,
  ◌&&◌, List, [], ◌∷◌, max, All, leb, ◌==◌, ==_iff, if◌then◌else◌, length, get_or, set, length-set,
  get_or-set_self, get_or-set_ne, contains, arith,
}
use graphling.Cargo.Packing.{relax}

-- The totals that containers of the given sizes make, any number of each.
pub data Packs (sizes : List ℕ) : ℕ → Type 0 where
  empty : Packs sizes zero
  one_more :
      (size rest total : ℕ)
      → contains size sizes ≡ true
      → Packs sizes rest
      → total ≡ size + rest
      → Packs sizes total

abbrev pub AllPositive : List ℕ → Type 0
AllPositive = All (λ s. 0 < s)

-- The largest total of the containers that fits.
pub record IsBest (sizes : List ℕ) (capacity best : ℕ) : Type 0 where
  pub packs : Packs sizes best
  pub fits : best ≤ capacity
  pub most : (total : ℕ) → Packs sizes total → total ≤ capacity → total ≤ best

abbrev pub at : List ℕ → ℕ → ℕ
at best i = get_or best i 0

-- What the inner loop does to the table: it changes the entry at `total` only, and raises it to the
-- best of the sizes that fit.
pub record Relaxed (total : ℕ) (sizes best best' : List ℕ) : Type 0 where
  pub size : length best' ≡ length best
  pub others : (i : ℕ) → i ≢ total → at best' i ≡ at best i
  pub grows : at best total ≤ at best' total
  pub covers :
      (s : ℕ) → contains s sizes ≡ true → s ≤ total → at best (total - s) + s ≤ at best' total
  pub reached :
      (at best' total ≡ at best total)
      ⊎ ((s : ℕ) × (contains s sizes ≡ true)
          × (s ≤ total)
          × (at best' total ≡ at best (total - s) + s))

relax_one : ℕ → ℕ → List ℕ → List ℕ
relax_one total size best =
    if leb size total
    then set best total (max (at best total) (at best (total - size) + size))
    else best

module _ (total size : ℕ) (best : List ℕ) (inside : total < length best) (positive : 0 < size) where
  length-relax_one : length (relax_one total size best) ≡ length best
  unfolding relax_one
  length-relax_one =
      ground (arith, length-set best total (max (at best total) (at best (total - size) + size)))

  at-relax_one_ne : (i : ℕ) → i ≢ total → at (relax_one total size best) i ≡ at best i
  unfolding relax_one
  at-relax_one_ne i h = ground (
    arith,
    get_or-set_ne best total i (max (at best total) (at best (total - size) + size)) 0
        (λ e. h (sym e)),
  )

  at-relax_one_self : at (relax_one total size best) total ≡ (
      if leb size total then max (at best total) (at best (total - size) + size) else at best total)
  unfolding relax_one
  at-relax_one_self = ground (
    arith,
    get_or-set_self best total (max (at best total) (at best (total - size) + size)) 0 inside,
  )

  at-relax_one-ge : (i : ℕ) → at best i ≤ at (relax_one total size best) i
  at-relax_one-ge i = elim (Bool-cases (i == total)) [
    | inl e ↦
        subst (λ j. at best j ≤ at (relax_one total size best) j) (sym ((==_iff i total).0 e))
          (ground (arith, at-relax_one_self))
    | inr e ↦
        omega (arith, at-relax_one_ne i (λ same. let z : ⊥ = cc (e, (==_iff i total).1 same) in z))
  ]

pub positive_of : (s : ℕ) (sizes : List ℕ) → AllPositive sizes → contains s sizes ≡ true → 0 < s
positive_of s [] h c = absurd (let z : ⊥ = cc in z)
positive_of s (x ∷ sizes) h c = elim (Bool-cases (x == s)) [
  | inl e ↦ subst (λ n. 0 < n) ((==_iff x s).0 e) h.0
  | inr e ↦ positive_of s sizes h.1 (ground (arith, e, c))
]

-- One more size in front of the loop.
module _ (total x : ℕ) (sizes best : List ℕ) (inside : total < length best) (p : 0 < x)
    (positive : AllPositive sizes)
    (r : Relaxed total sizes
      (relax_one total x best)
      (relax total sizes (relax_one total x best))) where
  covers_step :
      (s : ℕ)
      → contains s (x ∷ sizes) ≡ true
      → s ≤ total
      → at best (total - s) + s ≤ at (relax total sizes (relax_one total x best)) total
  covers_step s h k = elim (Bool-cases (x == s)) [
    | inl e ↦ ground (arith, (==_iff x s).0 e, at-relax_one_self total x best inside p, r.grows)
    | inr e ↦
        let tail : contains s sizes ≡ true = ground (arith, e, h) in
        omega (arith, r.covers s tail k, at-relax_one-ge total x best inside p (total - s))
  ]

  abbrev Reached : Type 0
  Reached =
      (at (relax total sizes (relax_one total x best)) total ≡ at best total)
      ⊎ ((s : ℕ) × (contains s (x ∷ sizes) ≡ true)
          × (s ≤ total)
          × (at (relax total sizes (relax_one total x best)) total ≡ at best (total - s) + s))

  reached_first :
      at (relax total sizes (relax_one total x best)) total ≡ at (relax_one total x best) total
      → Reached
  reached_first e =
      elim (Bool-cases (leb x total && leb (at best total) (at best (total - x) + x))) [
        | inl t ↦ inr (
          x,
          ground arith,
          ground (arith, t),
          ground (arith, t, e, at-relax_one_self total x best inside p),
        )
        | inr t ↦ inl (ground (arith, t, e, at-relax_one_self total x best inside p))
      ]

  reached_step : Reached
  reached_step = elim r.reached [
    | inl e ↦ reached_first e
    | inr (s, c, k, e) ↦
        let q = positive_of s sizes positive c in
        inr (
          s,
          ground (arith, c),
          k,
          omega (arith, e, at-relax_one_ne total x best inside p (total - s) (λ same. omega arith)),
        )
  ]

  relax_step : Relaxed total (x ∷ sizes) best (relax total sizes (relax_one total x best))
  relax_step = record {
    size = r.size ∙ length-relax_one total x best inside p;
    others = λ i h. r.others i h ∙ at-relax_one_ne total x best inside p i h;
    grows = omega (arith, r.grows, at-relax_one-ge total x best inside p total);
    covers = covers_step;
    reached = reached_step;
  }

pub relax-Relaxed :
    (total : ℕ) (sizes best : List ℕ)
    → total < length best
    → AllPositive sizes
    → Relaxed total sizes best (relax total sizes best)
unfolding relax relax_one
relax-Relaxed total [] best inside positive = record {
  size = refl;
  others = λ i h. refl;
  grows = omega arith;
  covers = λ s h k. absurd (let z : ⊥ = cc in z);
  reached = inl refl;
}
relax-Relaxed total (x ∷ sizes) best inside positive =
    relax_step total x sizes best inside positive.0 positive.1 (
      relax-Relaxed total sizes (relax_one total x best)
        (omega (arith, length-relax_one total x best inside positive.0)) positive.1)
