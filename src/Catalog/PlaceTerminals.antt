-- ===== src/Catalog/PlaceTerminals.antt =====
-- The grouping of terminals by place (`_places_in` of app/tools/uexcorp/matching.py).
use mathlib.Core.List.{append-nil, append_assoc}
use graphling.Prelude.{
  Text, text_eqb, text_eqb_eq, text_eqb_refl, is_set, ◌≡◌, refl, sym, ap, subst, ◌∙◌, true, false,
  ◌&&◌, Bool-cases, inl, inr, List, [], ◌∷◌, ◌++◌, if◌then◌else◌,
}
use graphling.Catalog.Entities.{CachedTerminal}
use graphling.Catalog.Regions.{Places, add_place, places_from, places_in, at_place}

-- The terminal, where its name is set and is that of the place.
abbrev named_here : Text → Text → CachedTerminal → List CachedTerminal
named_here place name t = if is_set name && text_eqb name place then t ∷ [] else []

-- The terminals that stand at a place by their station, their city or their outpost, in the order of
-- the pool, once for each of the three names.
unfoldable pub terminals_at : Text → List CachedTerminal → List CachedTerminal
terminals_at place [] = []
terminals_at place (t ∷ pool) =
    named_here place t.space_station_name t
    ++ (named_here place t.city_name t
        ++ (named_here place t.outpost_name t ++ terminals_at place pool))

eqb_false :
    (m n place : Text) → text_eqb m n ≡ false → text_eqb m place ≡ true → text_eqb n place ≡ false
eqb_false m n place h e = elim (Bool-cases (text_eqb n place)) [
  | inr f ↦ f
  | inl f ↦
      let same : m ≡ n = text_eqb_eq m place e ∙ sym (text_eqb_eq n place f) in
      let z : true ≡ false = sym (text_eqb_refl m) ∙ ap (text_eqb m) same ∙ h in
      absurd (let y : ⊥ = cc in y)
]

at_place-add_set :
    (place name : Text) (t : CachedTerminal) (places : Places)
    → is_set name ≡ true
    → at_place place (add_place name t places)
      ≡ at_place place places ++ (if text_eqb name place then t ∷ [] else [])
unfolding add_place at_place
at_place-add_set place name t [] set = rw set refl
at_place-add_set place name t ((n, there) ∷ places) set = elim (Bool-cases (text_eqb n name)) [
  | inl e ↦ elim (Bool-cases (text_eqb n place)) [
    | inl f ↦
        let g : text_eqb name place ≡ true =
          subst (λ x. text_eqb x place ≡ true) (text_eqb_eq n name e) f in
        rw (set, e, f, g) refl
    | inr f ↦
        let g : text_eqb name place ≡ false =
          subst (λ x. text_eqb x place ≡ false) (text_eqb_eq n name e) f in
        rw (set, e, f, g) (sym (append-nil _))
  ]
  | inr e ↦ elim (Bool-cases (text_eqb n place)) [
    | inl f ↦ rw (set, e, f, eqb_false n name place e f) (sym (append-nil _))
    | inr f ↦ rw (set, e, f) (at_place-add_set place name t places set)
  ]
]

at_place-add_unset :
    (place name : Text) (t : CachedTerminal) (places : Places)
    → is_set name ≡ false
    → at_place place (add_place name t places) ≡ at_place place places
unfolding add_place
at_place-add_unset place name t [] h = rw h refl
at_place-add_unset place name t ((n, there) ∷ places) h = rw h refl

at_place-add_place :
    (place name : Text) (t : CachedTerminal) (places : Places)
    → at_place place (add_place name t places) ≡ at_place place places ++ named_here place name t
at_place-add_place place name t places = elim (Bool-cases (is_set name)) [
  | inl e ↦ rw e (at_place-add_set place name t places e)
  | inr e ↦ rw e (at_place-add_unset place name t places e ∙ sym (append-nil _))
]

at_place-places_from :
    (place : Text) (places : Places) (pool : List CachedTerminal)
    → at_place place (places_from places pool) ≡ at_place place places ++ terminals_at place pool
unfolding places_from terminals_at
at_place-places_from place places [] = sym (append-nil _)
at_place-places_from place places (t ∷ pool) =
    rw
      (
        at_place-places_from place
            (add_place t.outpost_name t
              (add_place t.city_name t (add_place t.space_station_name t places)))
            pool,
        at_place-add_place place t.outpost_name t
            (add_place t.city_name t (add_place t.space_station_name t places)),
        at_place-add_place place t.city_name t (add_place t.space_station_name t places),
        at_place-add_place place t.space_station_name t places,
      )
      (simp append_assoc)

-- Looked up in the grouping, a place has exactly the terminals whose station, city or outpost it is, in
-- the order of the pool.
pub at_place-places_in :
    (place : Text) (pool : List CachedTerminal)
    → at_place place (places_in pool) ≡ terminals_at place pool
unfolding places_in at_place
at_place-places_in place pool = at_place-places_from place [] pool
