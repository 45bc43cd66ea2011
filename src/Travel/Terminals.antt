-- ===== src/Travel/Terminals.antt =====
-- app/tools/travel_time.py: the names of a terminal, whether two terminals are one place, and how sure a
-- travel time is.
use graphling.Prelude.{
  Text, text_eqb, text_in, is_set, Bool, not, ◌&&◌, ◌||◌, List, [], ◌∷◌, if◌then◌else◌,
}
use graphling.Catalog.Entities.{CachedTerminal}

-- The loop of `_location_lookup_candidates`.
unfoldable pub new_names : (seen : List Text) → List Text → List Text
new_names seen [] = []
new_names seen (name ∷ names) =
    let rest = new_names (name ∷ seen) names in
    let skipped = new_names seen names in
    if is_set name && not (text_in name seen) then name ∷ rest else skipped

abbrev pub all_names : CachedTerminal → List Text
all_names terminal =
    terminal.space_station_name ∷ terminal.outpost_name ∷ terminal.city_name ∷ terminal.displayname
    ∷ terminal.nickname ∷ terminal.moon_name ∷ terminal.planet_name ∷ []

unfoldable pub location_lookup_candidates : CachedTerminal → List Text
unfolding new_names
location_lookup_candidates terminal = new_names [] (all_names terminal)

unfoldable pub is_orbital : CachedTerminal → Bool
is_orbital terminal = is_set terminal.space_station_name

unfoldable pub is_same_physical_location : CachedTerminal → CachedTerminal → Bool
is_same_physical_location origin_terminal destination_terminal =
    if is_set origin_terminal.space_station_name || is_set destination_terminal.space_station_name
    then is_set origin_terminal.space_station_name
      && text_eqb origin_terminal.space_station_name destination_terminal.space_station_name
    else if is_set origin_terminal.outpost_name || is_set destination_terminal.outpost_name
    then is_set origin_terminal.outpost_name
      && text_eqb origin_terminal.outpost_name destination_terminal.outpost_name
    else is_set origin_terminal.city_name
      && text_eqb origin_terminal.city_name destination_terminal.city_name

unfoldable pub is_same_orbit_different_place : CachedTerminal → CachedTerminal → Bool
unfolding is_same_physical_location
is_same_orbit_different_place origin_terminal destination_terminal =
    text_eqb origin_terminal.orbit_name destination_terminal.orbit_name
    && not (is_same_physical_location origin_terminal destination_terminal)

-- "high" and "rough"
pub data Confidence : Type 0 where
  high rough : Confidence

unfoldable pub travel_time_confidence : CachedTerminal → CachedTerminal → Confidence
unfolding is_same_physical_location is_orbital
travel_time_confidence origin_terminal destination_terminal =
    if not (text_eqb origin_terminal.star_system_name destination_terminal.star_system_name)
    then rough
    else if is_same_physical_location origin_terminal destination_terminal
    then high
    else if not (is_orbital origin_terminal && is_orbital destination_terminal)
    then rough
    else high
