-- ===== src/Travel/Explained.antt =====
-- What an answer between two terminals says (app/tools/travel_time.py).
use graphling.Prelude.{
  Text, text_eqb, ◌≡◌, Bool, true, false, Option, none, some, ◌⊎◌, inl, inr, find, Floats,
}
use graphling.Catalog.Entities.{
  CachedTerminal, CachedOrbit, CachedStarSystem, named_terminal, named_vehicle,
}
use graphling.Catalog.Fuzzy.{Libraries}
use graphling.Catalog.Regions.{OrbitDistance}
use graphling.Travel.Places.{ShipSpeed, LocationPosition, WordSearch, find_jump_point}
use graphling.Travel.Builder.{add_hop, TripEstimate, TripBuilder, new_trip, add_jump, build}
use graphling.Travel.Flight.{whole, meters_per_gm, location_distance_m}
use graphling.Travel.Terminals.{is_same_orbit_different_place, is_same_physical_location}
use graphling.Travel.Trip.{
  hedged, no_speed_data, same_orbit, no_location_data, no_known_distance, no_coordinates,
  no_jump_point, Clients, Estimate, resolve_location, origin_side,
}

module _ (floats : Floats) (libraries : Libraries) (has_word : WordSearch)
    (clients : Clients floats) where
  -- A total is the sum of its parts, and a share of the tank is known only with the burn.
  abbrev pub Adds : TripEstimate floats → Type 0
  Adds trip =
      (trip.seconds ≡ floats.add trip.qt_seconds trip.approach_seconds)
      × (trip.distance_m ≡ floats.add trip.qt_distance_m trip.approach_distance_m)
      × (trip.hydrogen_scu ≡ none → trip.hydrogen_pct ≡ none)

  module _ (origin destination : CachedTerminal) (origin_name destination_name : Text)
      (ship_speed : ShipSpeed floats) where
    abbrev pub one_system : Bool
    one_system = text_eqb origin.star_system_name destination.star_system_name

    abbrev pub placed : CachedTerminal → Option (LocationPosition floats)
    placed = resolve_location floats libraries has_word clients

    -- One of the two has no position.
    abbrev pub Unplaced : Type 0
    Unplaced = (placed origin ≡ none) ⊎ (placed destination ≡ none)

    -- The terminals are two places of one system.
    abbrev pub Apart : Type 0
    Apart = (one_system ≡ true) × (is_same_physical_location origin destination ≡ false)

    abbrev pub its_orbit : Option CachedOrbit
    its_orbit = find (λ o. text_eqb o.name origin.orbit_name) clients.cache.orbits

    abbrev pub its_system : Option CachedStarSystem
    its_system = find (λ s. text_eqb s.name origin.star_system_name) clients.cache.star_systems

    abbrev pub distance_from : CachedOrbit → CachedStarSystem → Option OrbitDistance
    distance_from o s =
        find (λ d. text_eqb d.orbit_destination_name destination.orbit_name)
          (clients.get_orbit_distances o.id s.id)

    -- The jump point of the first system towards the second.
    abbrev pub towards : Text → Text → Option (LocationPosition floats)
    towards = find_jump_point floats libraries has_word clients.locations

    -- A trip over one stretch, whose end is a position or not.
    abbrev straight : floats.Float → Option (LocationPosition floats) → TripEstimate floats
    straight distance place =
        build floats (add_hop floats (new_trip floats ship_speed) distance place)

    -- Between positions of one system the trip covers their distance.
    pub record Direct (trip : TripEstimate floats) : Type 0 where
      pub apart : Apart
      pub from : LocationPosition floats
      pub to : LocationPosition floats
      pub from_is : placed origin ≡ some from
      pub to_is : placed destination ≡ some to
      pub trip_is : trip ≡ straight (location_distance_m floats from to) (some to)

    -- Without a position it covers the listed distance between the orbits.
    pub record Orbital (trip : TripEstimate floats) : Type 0 where
      pub apart : Apart
      pub unplaced : Unplaced
      pub orbit : CachedOrbit
      pub system : CachedStarSystem
      pub distance : OrbitDistance
      pub orbit_is : its_orbit ≡ some orbit
      pub system_is : its_system ≡ some system
      pub distance_is : distance_from orbit system ≡ some distance
      pub trip_is :
          trip ≡ straight (floats.mul (whole floats distance.distance) (meters_per_gm floats)) none

    -- Between systems it goes from the destination's side of the jump to the destination's position,
    -- after the way to the jump from the origin's.
    pub record Crossing (trip : TripEstimate floats) : Type 0 where
      pub systems : one_system ≡ false
      pub from : LocationPosition floats
      pub to : LocationPosition floats
      pub point : LocationPosition floats
      pub before : TripBuilder floats
      pub from_is : placed origin ≡ some from
      pub to_is : placed destination ≡ some to
      pub point_is : towards destination.star_system_name origin.star_system_name ≡ some point
      pub before_is :
          origin_side floats libraries has_word clients
            (new_trip floats ship_speed)
            from
            origin.star_system_name
            destination.star_system_name
          ≡ some before
      pub trip_is :
          trip
          ≡ build floats (add_hop floats before (location_distance_m floats point to) (some to))

    -- Where the trip comes from.
    abbrev pub Made : TripEstimate floats → Type 0
    Made trip =
        ((one_system ≡ true)
          × (is_same_physical_location origin destination ≡ true)
          × (trip ≡ build floats (add_jump floats (new_trip floats ship_speed) (whole floats 0))))
        ⊎ (Direct trip ⊎ (Orbital trip ⊎ Crossing trip))

    -- What an answer says of the two terminals.
    abbrev pub Explained : Estimate floats libraries has_word clients → Type 0
    Explained (inr trip) = Adds trip × Made trip
    Explained (inl (hedged m)) = ⊥
    Explained (inl (no_speed_data name)) = ⊥
    Explained (inl (same_orbit a b)) =
        (a ≡ origin_name)
        × (b ≡ destination_name)
        × Unplaced
        × Apart
        × (is_same_orbit_different_place origin destination ≡ true)
    Explained (inl (no_location_data a)) =
        (a ≡ origin_name)
        × Unplaced
        × Apart
        × (is_same_orbit_different_place origin destination ≡ false)
        × ((its_orbit ≡ none) ⊎ (its_system ≡ none))
    Explained (inl (no_known_distance a b)) =
        (a ≡ origin_name)
        × (b ≡ destination_name)
        × Unplaced
        × Apart
        × (is_same_orbit_different_place origin destination ≡ false)
        × ((o : CachedOrbit) × (s : CachedStarSystem) × (its_orbit ≡ some o)
            × (its_system ≡ some s)
            × (distance_from o s ≡ none))
    Explained (inl (no_coordinates a b)) =
        (a ≡ origin_name) × (b ≡ destination_name) × Unplaced × (one_system ≡ false)
    Explained (inl (no_jump_point a b)) = (towards a b ≡ none) × (one_system ≡ false)
