-- ===== src/Cargo/Mix.antt =====
-- The two tables of `best_container_mix` (app/tools/cargo_packing.py), through one round of its inner
-- loop.
use graphling.Prelude.{
  ℕ, zero, suc, ◌+◌, ◌-◌, ◌≤◌, ◌<◌, ◌≡◌, refl, sym, ap, ◌∙◌, ◌≢◌, inl, inr, true, false, Bool-cases,
  ◌&&◌, Option, none, some, List, [], ◌∷◌, max, leb, if◌then◌else◌, length, get_or, set, length-set,
  get_or-set_self, get_or-set_ne, contains, arith,
}
use graphling.Cargo.Packing.{Fill, relax, fill, relax_used, fill_used}
use graphling.Cargo.Relax.{at}

set-at_self : (xs : List ℕ) (i : ℕ) → set xs i (at xs i) ≡ xs
set-at_self [] i = refl
set-at_self (x ∷ xs) zero = refl
set-at_self (x ∷ xs) (suc i) = ap (λ r. x ∷ r) (set-at_self xs i)

max_right : (a b : ℕ) → leb a b ≡ true → max a b ≡ b
max_right a b h = ground arith

max_left : (a b : ℕ) → leb a b ≡ false → max a b ≡ a
max_left a b h = ground arith

abbrev pub step_used : ℕ → ℕ → Fill → Fill
step_used total size f =
    if leb size total && leb (at f.best total) (at f.best (total - size) + size)
    then record {
      best = set f.best total (at f.best (total - size) + size);
      used_size = set f.used_size total (some size);
    }
    else f

step_used-best :
    (total size : ℕ) (f : Fill)
    → (step_used total size f).best ≡ (
        if leb size total
        then set f.best total (max (at f.best total) (at f.best (total - size) + size))
        else f.best)
step_used-best total size f = elim (Bool-cases (leb size total)) [
  | inr e ↦ rw e refl
  | inl e ↦ elim (Bool-cases (leb (at f.best total) (at f.best (total - size) + size))) [
    | inl t ↦ rw (e, t) (rw (max_right _ _ t) refl)
    | inr t ↦ rw (e, t) (rw (max_left _ _ t) (sym (set-at_self f.best total)))
  ]
]

relax_used-best :
    (total : ℕ) (sizes : List ℕ) (f : Fill)
    → (relax_used total sizes f).best ≡ relax total sizes f.best
unfolding relax_used relax
relax_used-best total [] f = refl
relax_used-best total (size ∷ sizes) f =
    relax_used-best total sizes (step_used total size f)
    ∙ ap (λ b. relax total sizes b) (step_used-best total size f)

-- The two outer loops keep the same totals.
pub fill_used-best :
    (rounds total : ℕ) (sizes : List ℕ) (f : Fill)
    → (fill_used rounds total sizes f).best ≡ fill rounds total sizes f.best
unfolding fill_used fill
fill_used-best zero total sizes f = refl
fill_used-best (suc rounds) total sizes f =
    fill_used-best rounds (total + 1) sizes
      (relax_used total sizes (record f { best = set f.best total (at f.best (total - 1)) }))
    ∙ ap (λ b. fill rounds (total + 1) sizes b)
        (relax_used-best total sizes (record f { best = set f.best total (at f.best (total - 1)) }))

-- What the size that is kept for an entry says of the totals.
abbrev pub UsedCase : List ℕ → List ℕ → ℕ → Option ℕ → Type 0
UsedCase sizes best t none = at best t ≡ at best (t - 1)
UsedCase sizes best t (some s) =
    (contains s sizes ≡ true) × (s ≤ t) × (at best t ≡ at best (t - s) + s)

abbrev pub used : Fill → ℕ → Option ℕ
used f i = get_or f.used_size i none

-- What the inner loop keeps of the two tables.
pub record Round (sizes : List ℕ) (total : ℕ) (f f' : Fill) : Type 0 where
  pub best_size : length f'.best ≡ length f.best
  pub used_length : length f'.used_size ≡ length f.used_size
  pub best_others : (i : ℕ) → i ≢ total → at f'.best i ≡ at f.best i
  pub used_others : (i : ℕ) → i ≢ total → used f' i ≡ used f i
  pub entry :
      UsedCase sizes f.best total (used f total) → UsedCase sizes f'.best total (used f' total)

pub Round-refl : (sizes : List ℕ) (total : ℕ) (f : Fill) → Round sizes total f f
Round-refl sizes total f = record {
  best_size = refl;
  used_length = refl;
  best_others = λ i h. refl;
  used_others = λ i h. refl;
  entry = λ u. u;
}

pub Round-trans :
    (sizes : List ℕ) (total : ℕ) (f g h : Fill)
    → Round sizes total f g
    → Round sizes total g h
    → Round sizes total f h
Round-trans sizes total f g h a b = record {
  best_size = b.best_size ∙ a.best_size;
  used_length = b.used_length ∙ a.used_length;
  best_others = λ i n. b.best_others i n ∙ a.best_others i n;
  used_others = λ i n. b.used_others i n ∙ a.used_others i n;
  entry = λ u. b.entry (a.entry u);
}

module _ (sizes : List ℕ) (total size : ℕ) (f : Fill) (first : 0 < total)
    (best_inside : total < length f.best) (used_inside : total < length f.used_size)
    (positive : 0 < size) (listed : contains size sizes ≡ true) where
  replaced : Fill
  replaced = record {
    best = set f.best total (at f.best (total - size) + size);
    used_size = set f.used_size total (some size);
  }

  replaced-Round : leb size total ≡ true → Round sizes total f replaced
  unfolding replaced
  replaced-Round fits = record {
    best_size = length-set f.best total _;
    used_length = length-set f.used_size total _;
    best_others = λ i n. get_or-set_ne f.best total i _ 0 (λ e. n (sym e));
    used_others = λ i n. get_or-set_ne f.used_size total i _ none (λ e. n (sym e));
    entry = λ u. rw (get_or-set_self f.used_size total (some size) none used_inside) (
      listed,
      ground (arith, fits),
      get_or-set_self f.best total (at f.best (total - size) + size) 0 best_inside
          ∙ ap (λ v. v + size)
              (sym (
                get_or-set_ne f.best total (total - size) (at f.best (total - size) + size) 0
                  (λ e. omega arith))),
    );
  }

  pub step_used-Round : Round sizes total f (step_used total size f)
  unfolding replaced
  step_used-Round = elim (Bool-cases (leb size total)) [
    | inr e ↦ rw e (Round-refl sizes total f)
    | inl e ↦ elim (Bool-cases (leb (at f.best total) (at f.best (total - size) + size))) [
      | inl t ↦ rw (e, t) (replaced-Round e)
      | inr t ↦ rw (e, t) (Round-refl sizes total f)
    ]
  ]
