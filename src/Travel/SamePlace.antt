-- ===== src/Travel/SamePlace.antt =====
-- When two terminals are one place (`is_same_physical_location` of app/tools/travel_time.py).
use graphling.Prelude.{
  Text, text_eqb, text_eqb_eq, text_eqb_refl, is_set, ◌||◌, ◌≡◌, refl, sym, ap, ◌∙◌, Bool, true,
  false, ◌&&◌, Bool-cases, inl, inr, [], ◌∷◌, if◌then◌else◌,
}
use graphling.Catalog.Entities.{CachedTerminal}
use graphling.Travel.Terminals.{is_same_physical_location, is_orbital, travel_time_confidence}

-- The one place a terminal is at: its station, else its outpost, else its city.
pub data Place : Type 0 where
  station outpost city : Text → Place
  nowhere : Place

unfoldable pub place_from : (space_station_name outpost_name city_name : Text) → Place
place_from (c ∷ s) outpost_name city_name = station (c ∷ s)
place_from [] (c ∷ s) city_name = outpost (c ∷ s)
place_from [] [] (c ∷ s) = city (c ∷ s)
place_from [] [] [] = nowhere

unfoldable pub place_of : CachedTerminal → Place
unfolding place_from
place_of t = place_from t.space_station_name t.outpost_name t.city_name

unfoldable pub same_place : Place → Place → Bool
same_place (station a) (station b) = text_eqb a b
same_place (outpost a) (outpost b) = text_eqb a b
same_place (city a) (city b) = text_eqb a b
same_place _ _ = false

-- Two terminals are one physical location where the places they are at are the same and known: a
-- station before an outpost before a city.
pub is_same_physical_location-place_of :
    (a b : CachedTerminal) → is_same_physical_location a b ≡ same_place (place_of a) (place_of b)
unfolding is_same_physical_location place_of same_place place_from
is_same_physical_location-place_of a b =
    go a.space_station_name a.outpost_name a.city_name b.space_station_name b.outpost_name
      b.city_name
  where
    go :
        (s o c s' o' c' : Text)
        → (if is_set s || is_set s'
            then is_set s && text_eqb s s'
            else if is_set o || is_set o'
            then is_set o && text_eqb o o'
            else is_set c && text_eqb c c')
          ≡ same_place (place_from s o c) (place_from s' o' c')
    go (x ∷ s) o c (y ∷ s') o' c' = refl
    go (x ∷ s) o c [] (y ∷ o') c' = refl
    go (x ∷ s) o c [] [] (y ∷ c') = refl
    go (x ∷ s) o c [] [] [] = refl
    go [] (x ∷ o) c (y ∷ s') o' c' = refl
    go [] [] (x ∷ c) (y ∷ s') o' c' = refl
    go [] [] [] (y ∷ s') o' c' = refl
    go [] (x ∷ o) c [] (y ∷ o') c' = refl
    go [] (x ∷ o) c [] [] (y ∷ c') = refl
    go [] (x ∷ o) c [] [] [] = refl
    go [] [] (x ∷ c) [] (y ∷ o') c' = refl
    go [] [] [] [] (y ∷ o') c' = refl
    go [] [] (x ∷ c) [] [] (y ∷ c') = refl
    go [] [] (x ∷ c) [] [] [] = refl
    go [] [] [] [] [] (y ∷ c') = refl
    go [] [] [] [] [] [] = refl

text_eqb_sym : (s t : Text) → text_eqb s t ≡ text_eqb t s
text_eqb_sym s t = elim (Bool-cases (text_eqb s t)) [
  | inl e ↦ ap (λ x. text_eqb x t) (text_eqb_eq s t e) ∙ ap (text_eqb t) (sym (text_eqb_eq s t e))
  | inr e ↦ elim (Bool-cases (text_eqb t s)) [
    | inr f ↦ e ∙ sym f
    | inl f ↦
        let z : text_eqb s t ≡ true = ap (text_eqb s) (text_eqb_eq t s f) ∙ text_eqb_refl s in
        let y : ⊥ = cc (z, e) in absurd y
  ]
]

same_place_sym : (p q : Place) → same_place p q ≡ same_place q p
unfolding same_place
same_place_sym (station a) (station b) = text_eqb_sym a b
same_place_sym (outpost a) (outpost b) = text_eqb_sym a b
same_place_sym (city a) (city b) = text_eqb_sym a b
same_place_sym (station a) (outpost b) = refl
same_place_sym (station a) (city b) = refl
same_place_sym (station a) nowhere = refl
same_place_sym (outpost a) (station b) = refl
same_place_sym (outpost a) (city b) = refl
same_place_sym (outpost a) nowhere = refl
same_place_sym (city a) (station b) = refl
same_place_sym (city a) (outpost b) = refl
same_place_sym (city a) nowhere = refl
same_place_sym nowhere (station b) = refl
same_place_sym nowhere (outpost b) = refl
same_place_sym nowhere (city b) = refl
same_place_sym nowhere nowhere = refl

same_physical_sym :
    (a b : CachedTerminal) → is_same_physical_location a b ≡ is_same_physical_location b a
same_physical_sym a b =
    is_same_physical_location-place_of a b
    ∙ same_place_sym (place_of a) (place_of b)
    ∙ sym (is_same_physical_location-place_of b a)

and_comm : (b c : Bool) → (b && c) ≡ (c && b)
and_comm true true = refl
and_comm true false = refl
and_comm false true = refl
and_comm false false = refl

-- The confidence in a travel time is the same for the way back.
pub travel_time_confidence_sym :
    (a b : CachedTerminal) → travel_time_confidence a b ≡ travel_time_confidence b a
unfolding travel_time_confidence
travel_time_confidence_sym a b =
    rw
      (
        text_eqb_sym a.star_system_name b.star_system_name,
        same_physical_sym a b,
        and_comm (is_orbital a) (is_orbital b),
      )
      refl
