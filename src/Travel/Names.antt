-- ===== src/Travel/Names.antt =====
-- The names a terminal is looked up by (`_location_lookup_candidates` of app/tools/travel_time.py).
use graphling.Prelude.{
  Text, text_eqb, text_eqb_eq, text_eqb_refl, text_in, is_set, ◌≡◌, refl, sym, subst, Bool, true,
  false, not, ◌&&◌, Bool-cases, inl, inr, List, [], ◌∷◌, Elem, ◌↔◌,
}
use graphling.Catalog.Entities.{CachedTerminal}
use graphling.Travel.Terminals.{new_names, all_names, location_lookup_candidates}

-- No text twice.
unfoldable pub NoRepeats : List Text → Type 0
NoRepeats [] = Unit
NoRepeats (t ∷ texts) = (Elem t texts → ⊥) × NoRepeats texts

Elem-text_in : (t : Text) (texts : List Text) → Elem t texts → text_in t texts ≡ true
Elem-text_in t [] m = absurd m
Elem-text_in t (s ∷ texts) (inl e) = rw (sym e, text_eqb_refl t) refl
Elem-text_in t (s ∷ texts) (inr m) = elim (Bool-cases (text_eqb s t)) [
  | inl e ↦ rw e refl
  | inr e ↦ rw (e, Elem-text_in t texts m) refl
]

text_in-Elem : (t : Text) (texts : List Text) → text_in t texts ≡ true → Elem t texts
text_in-Elem t [] h = absurd (let z : ⊥ = cc in z)
text_in-Elem t (s ∷ texts) h = elim (Bool-cases (text_eqb s t)) [
  | inl e ↦ inl (sym (text_eqb_eq s t e))
  | inr e ↦ inr (text_in-Elem t texts (rw e at h))
]

kept-parts : (b c : Bool) → (b && not c) ≡ true → (b ≡ true) × (c ≡ false)
kept-parts true false h = (refl, refl)
kept-parts true true h = absurd (let z : ⊥ = cc (h) in z)
kept-parts false c h = absurd (let z : ⊥ = cc (h) in z)

unseen-later :
    (t name : Text) (seen : List Text)
    → text_in t (name ∷ seen) ≡ false
    → (text_eqb name t ≡ false) × (text_in t seen ≡ false)
unseen-later t name seen h = elim (Bool-cases (text_eqb name t)) [
  | inl e ↦ absurd (let z : ⊥ = cc (rw e at h) in z)
  | inr e ↦ (e, rw e at h)
]

-- What is known of a name that is kept.
Kept : (seen names : List Text) → Text → Type 0
Kept seen names t = Elem t names × (is_set t ≡ true) × (text_in t seen ≡ false)

kept-first :
    (seen names : List Text) (name t : Text)
    → (is_set name && not (text_in name seen)) ≡ true
    → (Elem t (new_names (name ∷ seen) names) → Kept (name ∷ seen) names t)
    → Elem t (name ∷ new_names (name ∷ seen) names)
    → Kept seen (name ∷ names) t
unfolding Kept
kept-first seen names name t e rest (inl same) =
    let (s, n) = kept-parts (is_set name) (text_in name seen) e in
    (
      inl same,
      subst (λ x. is_set x ≡ true) (sym same) s,
      subst (λ x. text_in x seen ≡ false) (sym same) n,
    )
kept-first seen names name t e rest (inr k) =
    let (m, s, n) = rest k in (inr m, s, (unseen-later t name seen n).1)

new_names-Kept :
    (seen names : List Text) (t : Text) → Elem t (new_names seen names) → Kept seen names t
unfolding new_names Kept
new_names-Kept seen [] t m = absurd m
new_names-Kept seen (name ∷ names) t m =
    elim (Bool-cases (is_set name && not (text_in name seen))) [
      | inr e ↦ let (k, s, n) = new_names-Kept seen names t (rw e at m) in (inr k, s, n)
      | inl e ↦ kept-first seen names name t e (new_names-Kept (name ∷ seen) names t) (rw e at m)
    ]

kept-new_names :
    (seen names : List Text) (t : Text) → Kept seen names t → Elem t (new_names seen names)
unfolding new_names Kept
kept-new_names seen [] t (m, s, n) = absurd m
kept-new_names seen (name ∷ names) t (inl same, s, n) =
    let e : (is_set name && not (text_in name seen)) ≡ true =
      subst (λ x. (is_set x && not (text_in x seen)) ≡ true) same (rw (s, n) refl) in
    rw e (inl same)
kept-new_names seen (name ∷ names) t (inr m, s, n) =
    elim (Bool-cases (is_set name && not (text_in name seen))) [
      | inr e ↦ rw e (kept-new_names seen names t (m, s, n))
      | inl e ↦ elim (Bool-cases (text_eqb name t)) [
        | inl f ↦ rw e (inl (sym (text_eqb_eq name t f)))
        | inr f ↦ rw e (inr (kept-new_names (name ∷ seen) names t (m, s, rw (f, n) refl)))
      ]
    ]

new_names-NoRepeats : (seen names : List Text) → NoRepeats (new_names seen names)
unfolding new_names NoRepeats Kept
new_names-NoRepeats seen [] = tt
new_names-NoRepeats seen (name ∷ names) =
    elim (Bool-cases (is_set name && not (text_in name seen))) [
      | inr e ↦ rw e (new_names-NoRepeats seen names)
      | inl e ↦
          let fresh : Elem name (new_names (name ∷ seen) names) → ⊥ = λ m.
            let (k, s, n) = new_names-Kept (name ∷ seen) names name m in
            let z : ⊥ = cc ((unseen-later name name seen n).0, text_eqb_refl name) in z in
          rw e (fresh, new_names-NoRepeats (name ∷ seen) names)
    ]

-- A terminal is looked up by exactly those of its names that are set, each once.
pub location_lookup_candidates-NoRepeats :
    (terminal : CachedTerminal)
    → NoRepeats (location_lookup_candidates terminal)
      × ((name : Text)
          → Elem name (location_lookup_candidates terminal)
            ↔ (Elem name (all_names terminal) × (is_set name ≡ true)))
unfolding location_lookup_candidates Kept
location_lookup_candidates-NoRepeats terminal = (
  new_names-NoRepeats [] (all_names terminal),
  λ name. (
    (λ m. let (k, s, n) = new_names-Kept [] (all_names terminal) name m in (k, s)),
    (λ h. kept-new_names [] (all_names terminal) name (h.0, h.1, refl)),
  ),
)
