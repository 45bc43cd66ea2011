-- ===== src/Travel/Trip.antt =====
-- app/tools/travel_time.py: the estimate of a trip. The wiki's
-- answers, its positions and the distances between orbits are arguments.
use graphling.Prelude.{
  Text, text_eqb, not, Option, none, some, ◌⊎◌, inl, inr, List, [], ◌∷◌, find, if◌then◌else◌,
  Floats,
}
use graphling.Catalog.Entities.{
  CachedTerminal, CachedOrbit, CachedStarSystem, CachedVehicle, UexReferenceCache, named_terminal,
  named_vehicle,
}
use graphling.Catalog.Fuzzy.{Libraries, wratio, token_sort_ratio}
use graphling.Catalog.Vocabulary.{location, ship}
use graphling.Catalog.Matching.{Message, default_cutoff, resolve_or_hedge}
use graphling.Catalog.Regions.{Distances, OrbitDistance}
use graphling.Travel.Places.{
  ShipSpeed, LocationPosition, WordSearch, find_location, find_jump_point, find_gateway,
  nearest_jump_point,
}
use graphling.Travel.Flight.{whole, meters_per_gm, known, location_distance_m}
use graphling.Travel.Builder.{
  TripEstimate, TripBuilder, new_trip, add_jump, add_approach, add_hop, build,
}
use graphling.Travel.Terminals.{
  location_lookup_candidates, is_same_physical_location, is_same_orbit_different_place,
}

-- Why there is no estimate.
pub data TripError : Type 0 where
  hedged : Message → TripError
  no_speed_data : (ship : Text) → TripError
  same_orbit : (origin destination : Text) → TripError
  no_location_data : (origin : Text) → TripError
  no_known_distance : (origin destination : Text) → TripError
  no_coordinates : (origin destination : Text) → TripError
  no_jump_point : (from_system to_system : Text) → TripError

-- What the two clients answer.
pub record Clients (floats : Floats) : Type 0 where
  pub cache : UexReferenceCache
  pub get_orbit_distances : Distances
  pub get_ship_speed : Text → Option (ShipSpeed floats)
  pub locations : List (LocationPosition floats)

module _ (floats : Floats) (libraries : Libraries) (has_word : WordSearch)
    (clients : Clients floats) where
  abbrev pub Estimate : Type 0
  Estimate = TripError ⊎ TripEstimate floats

  -- The first of the names that has a position.
  unfoldable pub resolve_location_in : List Text → Text → Option (LocationPosition floats)
  unfolding find_location
  resolve_location_in [] system = none
  resolve_location_in (name ∷ names) system =
      let rest = resolve_location_in names system in
      elim (find_location floats libraries clients.locations name system) [
        | none ↦ rest
        | some place ↦ some place
      ]

  unfoldable pub resolve_location : CachedTerminal → Option (LocationPosition floats)
  unfolding resolve_location_in location_lookup_candidates
  resolve_location terminal =
      resolve_location_in (location_lookup_candidates terminal) terminal.star_system_name

  abbrev or_zero : Option floats.Float → floats.Float
  or_zero none = whole floats 0
  or_zero (some a) = a

  -- The gateway to the other system, and the jump point next to it.
  abbrev pub gateway_of : Text → Text → Option (LocationPosition floats × LocationPosition floats)
  gateway_of origin_system destination_system =
      elim (find_gateway floats libraries has_word clients.locations origin_system
        destination_system) [
          | none ↦ none
          | some gateway ↦ elim (nearest_jump_point floats libraries clients.locations gateway) [
            | none ↦ none
            | some gateway_jump_point ↦ some (gateway, gateway_jump_point)
          ]
        ]

  -- The jump to the gateway and the flight to its jump point, or the jump to the jump point itself.
  abbrev pub to_jump_point :
      TripBuilder floats
      → LocationPosition floats
      → Option (LocationPosition floats × LocationPosition floats)
      → Option (LocationPosition floats)
      → Option (TripBuilder floats)
  to_jump_point trip origin_location (some (gateway, gateway_jump_point)) origin_jump_point =
      let arrival_radius = or_zero (known floats gateway.arrival_radius) in
      some (
        add_approach floats
          (add_jump floats trip
            (floats.sub (location_distance_m floats origin_location gateway) arrival_radius))
          (floats.add arrival_radius (location_distance_m floats gateway gateway_jump_point)))
  to_jump_point trip origin_location none none = none
  to_jump_point trip origin_location none (some origin_jump_point) =
      some (add_jump floats trip (location_distance_m floats origin_location origin_jump_point))

  -- The trip as far as the jump; `none` where no jump point is known.
  unfoldable pub origin_side :
      TripBuilder floats → LocationPosition floats → Text → Text → Option (TripBuilder floats)
  unfolding find_gateway nearest_jump_point find_jump_point add_jump add_approach
      location_distance_m
  origin_side trip origin_location origin_system destination_system =
      to_jump_point trip origin_location (gateway_of origin_system destination_system) (
        find_jump_point floats libraries has_word clients.locations origin_system
          destination_system)

  -- The other side, from the jump point there.
  abbrev pub from_jump_point :
      TripBuilder floats
      → LocationPosition floats
      → Text
      → Text
      → Option (LocationPosition floats)
      → Estimate
  from_jump_point trip destination_location origin_system destination_system none =
      inl (no_jump_point destination_system origin_system)
  from_jump_point trip destination_location origin_system destination_system
        (some destination_jump_point) =
      inr (
        build floats (
          add_hop floats trip
            (location_distance_m floats destination_jump_point destination_location)
            (some destination_location)))

  abbrev pub destination_side :
      LocationPosition floats → Text → Text → Option (TripBuilder floats) → Estimate
  destination_side destination_location origin_system destination_system none =
      inl (no_jump_point origin_system destination_system)
  destination_side destination_location origin_system destination_system (some trip) =
      from_jump_point trip destination_location origin_system destination_system (
        find_jump_point floats libraries has_word clients.locations destination_system
          origin_system)

  abbrev pub cross_between :
      ShipSpeed floats
      → Text
      → Text
      → Text
      → Text
      → Option (LocationPosition floats)
      → Option (LocationPosition floats)
      → Estimate
  cross_between ship_speed origin_system destination_system origin_name destination_name
        (some origin_location) (some destination_location) =
      destination_side destination_location origin_system destination_system
        (origin_side (new_trip floats ship_speed) origin_location origin_system destination_system)
  cross_between ship_speed origin_system destination_system origin_name destination_name _ _ =
      inl (no_coordinates origin_name destination_name)

  unfoldable pub estimate_cross_system :
      CachedTerminal
      → CachedTerminal
      → ShipSpeed floats
      → (origin_name destination_name : Text) → Estimate
  unfolding resolve_location origin_side find_jump_point location_distance_m add_hop build
  estimate_cross_system origin_terminal destination_terminal ship_speed origin_name
        destination_name =
      cross_between ship_speed origin_terminal.star_system_name
        destination_terminal.star_system_name origin_name destination_name
        (resolve_location origin_terminal) (resolve_location destination_terminal)

  abbrev pub by_distance :
      ShipSpeed floats → (origin_name destination_name : Text) → Option OrbitDistance → Estimate
  by_distance ship_speed origin_name destination_name none =
      inl (no_known_distance origin_name destination_name)
  by_distance ship_speed origin_name destination_name (some d) = inr (
      build floats (
        add_hop floats (new_trip floats ship_speed)
          (floats.mul (whole floats d.distance) (meters_per_gm floats)) none))

  abbrev pub from_orbit :
      CachedTerminal
      → ShipSpeed floats
      → (origin_name destination_name : Text) → Option CachedOrbit
      → Option CachedStarSystem
      → Estimate
  from_orbit destination_terminal ship_speed origin_name destination_name (some orbit)
        (some star_system) =
      by_distance ship_speed origin_name destination_name (
        find (λ d. text_eqb d.orbit_destination_name destination_terminal.orbit_name)
          (clients.get_orbit_distances orbit.id star_system.id))
  from_orbit destination_terminal ship_speed origin_name destination_name _ _ =
      inl (no_location_data origin_name)

  -- Where a position is missing: the distance between the orbits.
  unfoldable pub by_orbits :
      CachedTerminal
      → CachedTerminal
      → ShipSpeed floats
      → (origin_name destination_name : Text) → Estimate
  unfolding is_same_orbit_different_place add_hop build
  by_orbits origin_terminal destination_terminal ship_speed origin_name destination_name =
      if is_same_orbit_different_place origin_terminal destination_terminal
      then inl (same_orbit origin_name destination_name)
      else from_orbit destination_terminal ship_speed origin_name destination_name
          (find (λ o. text_eqb o.name origin_terminal.orbit_name) clients.cache.orbits)
          (find (λ s. text_eqb s.name origin_terminal.star_system_name) clients.cache.star_systems)

  abbrev pub by_positions :
      ShipSpeed floats
      → Option (LocationPosition floats)
      → Option (LocationPosition floats)
      → Estimate
      → Estimate
  by_positions ship_speed (some origin_location) (some destination_location) next = inr (
      build floats (
        add_hop floats (new_trip floats ship_speed)
          (location_distance_m floats origin_location destination_location)
          (some destination_location)))
  by_positions ship_speed _ _ next = next

  -- The estimate where the terminals and the speed of the ship are known.
  unfoldable pub estimate_between :
      CachedTerminal
      → CachedTerminal
      → ShipSpeed floats
      → (origin_name destination_name : Text) → Estimate
  unfolding estimate_cross_system is_same_physical_location add_jump add_hop build resolve_location
      location_distance_m by_orbits
  estimate_between origin_terminal destination_terminal ship_speed origin_name destination_name =
      if not (text_eqb origin_terminal.star_system_name destination_terminal.star_system_name)
      then estimate_cross_system origin_terminal destination_terminal ship_speed origin_name
          destination_name
      else if is_same_physical_location origin_terminal destination_terminal
      then inr (build floats (add_jump floats (new_trip floats ship_speed) (whole floats 0)))
      else by_positions ship_speed (resolve_location origin_terminal)
          (resolve_location destination_terminal)
          (by_orbits origin_terminal destination_terminal ship_speed origin_name destination_name)

  abbrev pub with_speed :
      Text → Option (ShipSpeed floats) → (ShipSpeed floats → Estimate) → Estimate
  with_speed ship_name none next = inl (no_speed_data ship_name)
  with_speed ship_name (some ship_speed) next = next ship_speed

  -- A resolved name, or its hedge.
  abbrev pub or_hedged : {A : Type 0} → A ⊎ Message → (A → Estimate) → Estimate
  or_hedged (inl a) next = next a
  or_hedged (inr message) next = inl (hedged message)

  unfoldable pub estimate_trip : (origin_name destination_name ship_name : Text) → Estimate
  unfolding resolve_or_hedge estimate_between
  estimate_trip origin_name destination_name ship_name =
      or_hedged
        (resolve_or_hedge libraries origin_name clients.cache.terminals location default_cutoff
          wratio)
        λ origin_terminal.
          or_hedged
            (resolve_or_hedge libraries destination_name clients.cache.terminals location
              default_cutoff wratio)
            λ destination_terminal.
              or_hedged
                (resolve_or_hedge libraries ship_name clients.cache.vehicles ship default_cutoff
                  token_sort_ratio)
                λ (vehicle : CachedVehicle).
                  with_speed vehicle.name (clients.get_ship_speed vehicle.name) λ ship_speed.
                    estimate_between origin_terminal destination_terminal ship_speed origin_name
                      destination_name

  abbrev seconds_of : Estimate → TripError ⊎ floats.Float
  seconds_of (inl error) = inl error
  seconds_of (inr trip) = inr trip.seconds

  unfoldable pub estimate_travel_time :
      (origin_name destination_name ship_name : Text) → TripError ⊎ floats.Float
  unfolding estimate_trip
  estimate_travel_time origin_name destination_name ship_name =
      seconds_of (estimate_trip origin_name destination_name ship_name)
