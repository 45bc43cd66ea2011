-- ===== src/Tests/TravelTests.antt =====
-- Trips between the terminals of a small catalog, over integers.
use graphling.Prelude.{
  Text, codes, ℤ, pos, ◌+ℤ◌, ◌*ℤ◌, ◌-ℤ◌, arith, ◌≡◌, refl, true, false, Option, none, some, List,
  [], ◌∷◌, Elem, ◌↔◌, is_set, whole_floats,
}
use graphling.Catalog.Entities.{CachedVehicle}
use graphling.Tests.CatalogTests.{libraries, everus, lorville, catalog}
use graphling.Travel.Places.{ShipSpeed, LocationPosition, WordSearch, has_part, nearest_jump_point}
use graphling.Travel.Terminals.{
  all_names, location_lookup_candidates, is_same_physical_location, travel_time_confidence, rough,
}
use graphling.Travel.Trip.{Clients}
use graphling.Travel.SamePlace.{
  place_of, same_place, is_same_physical_location-place_of, travel_time_confidence_sym,
}
use graphling.Travel.Names.{NoRepeats, location_lookup_candidates-NoRepeats}
use graphling.Travel.Nearby.{Compared, IsNearest, nearest_jump_point-IsNearest}
use graphling.Travel.SpeedCache.{
  SpeedClient, called, hit, missed, fetching, replied, Reachable, start, next,
}
use graphling.Travel.SpeedOnce.{Reachable-once}

is_same_physical_location-place_of_example :
    is_same_physical_location everus lorville ≡ same_place (place_of everus) (place_of lorville)
is_same_physical_location-place_of_example = is_same_physical_location-place_of everus lorville

travel_time_confidence_sym_example :
    travel_time_confidence everus lorville ≡ travel_time_confidence lorville everus
travel_time_confidence_sym_example = travel_time_confidence_sym everus lorville

ground_is_rough : travel_time_confidence everus lorville ≡ rough
unfolding travel_time_confidence
ground_is_rough = refl

location_lookup_candidates-NoRepeats_example :
    NoRepeats (location_lookup_candidates everus)
    × ((name : Text)
        → Elem name (location_lookup_candidates everus)
          ↔ (Elem name (all_names everus) × (is_set name ≡ true)))
location_lookup_candidates-NoRepeats_example = location_lookup_candidates-NoRepeats everus

everus_names : location_lookup_candidates everus ≡ codes "Everus Harbor" ∷ codes "Hurston" ∷ []
unfolding location_lookup_candidates
everus_names = refl

abbrev position : Text → Text → ℤ → Option ℤ → LocationPosition whole_floats
position name type x arrival_radius = record {
  name = name;
  type = type;
  system = codes "Stanton";
  x = x;
  y = pos 0;
  z = pos 0;
  arrival_radius = arrival_radius;
}

abbrev pyro_gateway : LocationPosition whole_floats
pyro_gateway = position (codes "Pyro Gateway") (codes "Manmade") (pos 90) (some (pos 2))

abbrev pyro_point : LocationPosition whole_floats
pyro_point = position (codes "Stanton-Pyro Jump Point") (codes "Anomaly") (pos 94) none

abbrev magnus_point : LocationPosition whole_floats
magnus_point = position (codes "Stanton - Magnus Jump Point") (codes "Anomaly") (pos 7) none

abbrev positions : List (LocationPosition whole_floats)
positions =
    position (codes "Everus Harbor") (codes "Manmade") (pos 10) (some (pos 3))
    ∷ position (codes "Area18") (codes "City") (pos 60) (some (pos 5))
    ∷ magnus_point
    ∷ pyro_gateway
    ∷ pyro_point
    ∷ []

abbrev contains_word : WordSearch
contains_word = has_part

nearest_is_pyro : nearest_jump_point whole_floats libraries positions pyro_gateway ≡ some pyro_point
unfolding nearest_jump_point ◌+ℤ◌ ◌*ℤ◌ ◌-ℤ◌
nearest_is_pyro = refl

whole_floats-Compared : Compared whole_floats
whole_floats-Compared = record {
  lt_asym = λ a b h. ground (arith, h);
  lt_trans = λ a b c h k. ground (arith, h, k);
}

nearest_jump_point-IsNearest_example :
    IsNearest whole_floats libraries whole_floats-Compared pyro_gateway positions
      (nearest_jump_point whole_floats libraries positions pyro_gateway)
nearest_jump_point-IsNearest_example =
    nearest_jump_point-IsNearest whole_floats libraries whole_floats-Compared pyro_gateway positions

abbrev railen : CachedVehicle
railen = record {
  id = 1;
  name = codes "Railen";
  name_full = codes "Gatac Railen";
  scu = pos 640;
  is_concept = false;
}

abbrev railen_speed : ShipSpeed whole_floats
railen_speed = record {
  scm_speed = pos 100;
  quantum_speed = pos 200;
  quantum_spool_time = pos 6;
  quantum_fuel_capacity = some (pos 8);
  quantum_range = none;
  max_speed = none;
  zero_to_max = none;
  max_to_zero = none;
  hydrogen_capacity = some (pos 18);
  hydrogen_usage_main = none;
  hydrogen_usage_retro = none;
  quantum_engage_speed = none;
  quantum_stage_one_accel = none;
  quantum_stage_two_accel = none;
}

abbrev clients : Clients whole_floats
clients = record {
  cache = record catalog { vehicles = railen ∷ [] };
  get_orbit_distances = λ orbit system. [];
  get_ship_speed = λ name. some railen_speed;
  locations = positions;
}

abbrev lower_all : Text → Text
lower_all = libraries.lower

-- One call that asks the server, and one in another case that does not.
abbrev asked_once : SpeedClient ℤ
asked_once = record {
  cache = (codes "railen", pos 5) ∷ [];
  asking = [];
  waiting = [];
  lock = none;
  answers = (codes "railen", pos 5) ∷ (codes "railen", pos 5) ∷ [];
  fetched = codes "railen" ∷ [];
}

asked_once-Reachable : Reachable lower_all asked_once
asked_once-Reachable =
    next
      (next
        (next
          (next
            (next (next start (called _ (codes "Railen")))
              (missed _ [] [] (codes "Railen") refl refl))
            (fetching _ [] [] (codes "Railen") refl refl refl))
          (replied _ (codes "Railen") (pos 5) refl))
        (called _ (codes "RAILEN")))
      (hit _ [] [] (codes "RAILEN") (pos 5) refl refl)

Reachable-once_example :
    NoRepeats asked_once.fetched
    × ((key : Text) (v w : ℤ)
        → Elem (key, v) asked_once.answers
        → Elem (key, w) asked_once.answers
        → v ≡ w)
Reachable-once_example = Reachable-once lower_all asked_once-Reachable
