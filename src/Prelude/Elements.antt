-- ===== src/Prelude/Elements.antt =====
-- Membership in a list, and what `find`, `filter`, `map` and `++` do to it.
use mathlib.Core.Path.{◌≡◌, refl, sym, subst, ap, ◌∙◌}
use mathlib.Core.Logic.{◌⊎◌, inl, inr}
use mathlib.Core.Bool.{Bool, true, false}
use mathlib.Core.Option.{some}
use mathlib.Core.List.{List, [], ◌∷◌, ◌++◌, map}
use native.Mathlib.Omega.{arith}
use graphling.Prelude.Tests.{Bool-cases, if◌then◌else◌}
use graphling.Prelude.Lists.{filter, find, take, All}
use Prim.Native.Nat.{ℕ, zero, suc}

abbrev pub Elem : {A : Type 0} → A → List A → Type 0
Elem a [] = ⊥
Elem a (x ∷ xs) = (a ≡ x) ⊎ Elem a xs

pub Elem-find :
    {A : Type 0} (p : A → Bool) (xs : List A) (a : A)
    → find p xs ≡ some a
    → Elem a xs × (p a ≡ true)
Elem-find p [] a h = cc
Elem-find p (x ∷ xs) a h = elim (Bool-cases (p x)) [
  | inl e ↦ let same : x ≡ a = ground (arith, e) in (inl (sym same), subst (λ y. p y ≡ true) same e)
  | inr e ↦ let (m, t) = Elem-find p xs a (rw e at h) in (inr m, t)
]

Elem-step :
    {A : Type 0} (p : A → Bool) (x : A) (xs : List A) (a : A) (b : Bool)
    → p x ≡ b
    → (Elem a (filter p xs) → Elem a xs × (p a ≡ true))
    → Elem a (if b then x ∷ filter p xs else filter p xs)
    → Elem a (x ∷ xs) × (p a ≡ true)
Elem-step p x xs a true e rec (inl same) = (inl same, subst (λ y. p y ≡ true) (sym same) e)
Elem-step p x xs a true e rec (inr m) = let (m', t) = rec m in (inr m', t)
Elem-step p x xs a false e rec m = let (m', t) = rec m in (inr m', t)

pub Elem-filter :
    {A : Type 0} (p : A → Bool) (xs : List A) (a : A)
    → Elem a (filter p xs)
    → Elem a xs × (p a ≡ true)
Elem-filter p [] a h = absurd h
Elem-filter p (x ∷ xs) a h = Elem-step p x xs a (p x) refl (Elem-filter p xs a) h

pub filter-Elem :
    {A : Type 0} (p : A → Bool) (xs : List A) (a : A)
    → Elem a xs
    → p a ≡ true
    → Elem a (filter p xs)
filter-Elem p [] a h t = absurd h
filter-Elem p (x ∷ xs) a (inl h) t = rw (let e : p x ≡ true = ap p (sym h) ∙ t in e) (inl h)
filter-Elem p (x ∷ xs) a (inr m) t = elim (Bool-cases (p x)) [
  | inl e ↦ rw e (inr (filter-Elem p xs a m t))
  | inr e ↦ rw e (filter-Elem p xs a m t)
]

pub Elem-append_left : {A : Type 0} (xs ys : List A) (a : A) → Elem a xs → Elem a (xs ++ ys)
Elem-append_left [] ys a h = absurd h
Elem-append_left (x ∷ xs) ys a (inl h) = inl h
Elem-append_left (x ∷ xs) ys a (inr m) = inr (Elem-append_left xs ys a m)

pub Elem-append_right : {A : Type 0} (xs ys : List A) (a : A) → Elem a ys → Elem a (xs ++ ys)
Elem-append_right [] ys a h = h
Elem-append_right (x ∷ xs) ys a h = inr (Elem-append_right xs ys a h)

pub Elem-append : {A : Type 0} (xs ys : List A) (a : A) → Elem a (xs ++ ys) → Elem a xs ⊎ Elem a ys
Elem-append [] ys a h = inr h
Elem-append (x ∷ xs) ys a (inl h) = inl (inl h)
Elem-append (x ∷ xs) ys a (inr m) = elim (Elem-append xs ys a m) [
  | inl l ↦ inl (inr l)
  | inr r ↦ inr r
]

pub Elem-map : {A B : Type 0} (f : A → B) (xs : List A) (a : A) → Elem a xs → Elem (f a) (map f xs)
Elem-map f [] a h = absurd h
Elem-map f (x ∷ xs) a (inl h) = inl (ap f h)
Elem-map f (x ∷ xs) a (inr m) = inr (Elem-map f xs a m)

pub All-Elem : {A : Type 0} (P : A → Type 0) (xs : List A) → ((a : A) → Elem a xs → P a) → All P xs
All-Elem P [] h = tt
All-Elem P (x ∷ xs) h = (h x (inl refl), All-Elem P xs (λ a m. h a (inr m)))

pub Elem-All : {A : Type 0} (P : A → Type 0) (xs : List A) (a : A) → All P xs → Elem a xs → P a
Elem-All P [] a h m = absurd m
Elem-All P (x ∷ xs) a (h, hs) (inl e) = subst P (sym e) h
Elem-All P (x ∷ xs) a (h, hs) (inr m) = Elem-All P xs a hs m

pub Elem-take : {A : Type 0} (n : ℕ) (xs : List A) (a : A) → Elem a (take n xs) → Elem a xs
Elem-take zero xs a m = absurd m
Elem-take (suc n) [] a m = absurd m
Elem-take (suc n) (x ∷ xs) a (inl h) = inl h
Elem-take (suc n) (x ∷ xs) a (inr m) = inr (Elem-take n xs a m)
