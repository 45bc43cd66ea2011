-- ===== src/Travel/Builder.antt =====
-- `_TripBuilder` of app/tools/travel_time.py: the jumps and approaches of a trip, added up.
use graphling.Prelude.{Option, none, some, if◌then◌else◌, Floats}
use graphling.Travel.Places.{ShipSpeed, LocationPosition}
use graphling.Travel.Flight.{whole, above_zero, known, both, qt_cruise_seconds, approach}

pub record TripEstimate (floats : Floats) : Type 0 where
  pub seconds : floats.Float
  pub qt_seconds : floats.Float
  pub approach_seconds : floats.Float
  pub distance_m : floats.Float
  pub qt_distance_m : floats.Float
  pub approach_distance_m : floats.Float
  pub qt_fuel_scu : Option floats.Float
  pub qt_fuel_pct : Option floats.Float
  pub hydrogen_scu : Option floats.Float
  pub hydrogen_pct : Option floats.Float

pub record TripBuilder (floats : Floats) : Type 0 where
  pub ship_speed : ShipSpeed floats
  pub qt_seconds : floats.Float
  pub qt_m : floats.Float
  pub approach_seconds : floats.Float
  pub approach_m : floats.Float
  pub hydrogen_scu : Option floats.Float

module _ (floats : Floats) where
  abbrev pub new_trip : ShipSpeed floats → TripBuilder floats
  new_trip ship_speed = record {
    ship_speed = ship_speed;
    qt_seconds = whole floats 0;
    qt_m = whole floats 0;
    approach_seconds = whole floats 0;
    approach_m = whole floats 0;
    hydrogen_scu = some (whole floats 0);
  }

  unfoldable pub add_jump : TripBuilder floats → floats.Float → TripBuilder floats
  unfolding qt_cruise_seconds
  add_jump trip distance_m = record trip {
    qt_seconds = floats.add trip.qt_seconds (
        floats.add (qt_cruise_seconds floats distance_m trip.ship_speed)
          trip.ship_speed.quantum_spool_time);
    qt_m = floats.add trip.qt_m (above_zero floats distance_m);
  }

  -- The burn so far and that of one more approach; unknown where either is.
  abbrev pub add_burn : Option floats.Float → Option floats.Float → Option floats.Float
  add_burn (some total) (some hydrogen_scu) = some (floats.add total hydrogen_scu)
  add_burn _ _ = none

  unfoldable pub add_approach : TripBuilder floats → floats.Float → TripBuilder floats
  unfolding approach
  add_approach trip distance_m =
      let flown = approach floats distance_m trip.ship_speed in
      record trip {
        approach_seconds = floats.add trip.approach_seconds (flown.0);
        approach_m = floats.add trip.approach_m (above_zero floats distance_m);
        hydrogen_scu = add_burn trip.hydrogen_scu (flown.1);
      }

  abbrev radius_of : Option (LocationPosition floats) → Option floats.Float
  radius_of none = none
  radius_of (some destination) = known floats destination.arrival_radius

  unfoldable pub add_hop :
      TripBuilder floats → floats.Float → Option (LocationPosition floats) → TripBuilder floats
  unfolding add_jump add_approach
  add_hop trip distance_m destination = elim (radius_of destination) [
    | none ↦ add_jump trip distance_m
    | some arrival_radius ↦
        if floats.le distance_m arrival_radius
        then add_approach trip distance_m
        else add_approach (add_jump trip (floats.sub distance_m arrival_radius)) arrival_radius
  ]

  -- 100 * used / capacity
  abbrev percent : floats.Float → floats.Float → floats.Float
  percent used capacity = floats.div (floats.mul (whole floats 100) used) capacity

  -- The quantum fuel of a distance, in SCU and in percent of the tank.
  abbrev quantum_fuel : ShipSpeed floats → floats.Float → Option (floats.Float × floats.Float)
  quantum_fuel ship_speed qt_m =
      elim (both floats (known floats ship_speed.quantum_fuel_capacity)
        (known floats ship_speed.quantum_range)) [
          | none ↦ none
          | some (capacity, range) ↦
              let used = floats.div (floats.mul qt_m capacity) range in
              some (used, percent used capacity)
        ]

  abbrev first_part : Option (floats.Float × floats.Float) → Option floats.Float
  first_part none = none
  first_part (some (used, pct)) = some used

  abbrev second_part : Option (floats.Float × floats.Float) → Option floats.Float
  second_part none = none
  second_part (some (used, pct)) = some pct

  abbrev hydrogen_percent : Option floats.Float → Option floats.Float → Option floats.Float
  hydrogen_percent (some used) (some capacity) = some (percent used capacity)
  hydrogen_percent _ _ = none

  unfoldable pub build : TripBuilder floats → TripEstimate floats
  build trip =
      let fuel = quantum_fuel trip.ship_speed trip.qt_m in
      record {
        seconds = floats.add trip.qt_seconds trip.approach_seconds;
        qt_seconds = trip.qt_seconds;
        approach_seconds = trip.approach_seconds;
        distance_m = floats.add trip.qt_m trip.approach_m;
        qt_distance_m = trip.qt_m;
        approach_distance_m = trip.approach_m;
        qt_fuel_scu = first_part fuel;
        qt_fuel_pct = second_part fuel;
        hydrogen_scu = trip.hydrogen_scu;
        hydrogen_pct =
            hydrogen_percent trip.hydrogen_scu (known floats trip.ship_speed.hydrogen_capacity);
      }
