-- ===== src/Travel/Flight.antt =====
-- The quantum jump and the sublight approach of app/tools/travel_time.py, over floats. No speed is 0 that
-- the code divides by.
use graphling.Prelude.{ℕ, pos, Option, none, some, if◌then◌else◌, Floats}
use graphling.Travel.Places.{ShipSpeed, LocationPosition}

module _ (floats : Floats) where
  abbrev pub whole : ℕ → floats.Float
  whole n = floats.of_int (pos n)

  -- 0.5
  abbrev half : floats.Float
  half = floats.div (whole 1) (whole 2)

  -- min(a, b) and max(a, 0.0)
  abbrev min_float : floats.Float → floats.Float → floats.Float
  min_float a b = if floats.lt b a then b else a

  abbrev pub above_zero : floats.Float → floats.Float
  above_zero a = if floats.lt a (whole 0) then whole 0 else a

  -- A number in a test: known, and not 0.
  abbrev pub known : Option floats.Float → Option floats.Float
  known none = none
  known (some a) = if floats.is_zero a then none else some a

  abbrev pub both : Option floats.Float → Option floats.Float → Option (floats.Float × floats.Float)
  both (some a) (some b) = some (a, b)
  both _ _ = none

  abbrev pub all_three :
      Option floats.Float
      → Option floats.Float
      → Option floats.Float
      → Option (floats.Float × floats.Float × floats.Float)
  all_three (some a) (some b) (some c) = some (a, b, c)
  all_three _ _ _ = none

  -- HYDROGEN_USAGE_UNIT_SCU and METERS_PER_GM
  abbrev hydrogen_usage_unit_scu : floats.Float
  hydrogen_usage_unit_scu = floats.div (whole 1) (whole 1000000)

  abbrev pub meters_per_gm : floats.Float
  meters_per_gm = whole 1000000000

  unfoldable pub location_distance_m :
      LocationPosition floats → LocationPosition floats → floats.Float
  location_distance_m a b = floats.sqrt (
      floats.add
        (floats.add (floats.square (floats.sub a.x b.x)) (floats.square (floats.sub a.y b.y)))
        (floats.square (floats.sub a.z b.z)))

  -- The time in quantum with the stages of the drive.
  unfoldable pub staged_seconds :
      (distance_m top_speed stage_one_accel stage_two_accel engage_speed : floats.Float)
      → floats.Float
  staged_seconds distance_m top_speed stage_one_accel stage_two_accel engage_speed =
      let stage_one_seconds = floats.div engage_speed stage_one_accel in
      let stage_one_m =
        floats.mul (floats.mul half stage_one_accel) (floats.square stage_one_seconds) in
      let stage_two_seconds = floats.div (floats.sub top_speed engage_speed) stage_two_accel in
      let stage_two_m =
        floats.mul (floats.div (floats.add engage_speed top_speed) (whole 2)) stage_two_seconds in
      let ramp_seconds = floats.add stage_one_seconds stage_two_seconds in
      let ramp_m = floats.add stage_one_m stage_two_m in
      let half_m = floats.div distance_m (whole 2) in
      let remaining_m = floats.sub half_m stage_one_m in
      let stage_two_part =
        floats.div
          (floats.add (floats.neg engage_speed) (
            floats.sqrt (
              floats.add (floats.square engage_speed)
                (floats.mul (floats.mul (whole 2) stage_two_accel) remaining_m))))
          stage_two_accel in
      let half_seconds =
        if floats.le half_m stage_one_m
        then floats.sqrt (floats.div (floats.mul (whole 2) half_m) stage_one_accel)
        else floats.add stage_one_seconds stage_two_part in
      if floats.le (floats.mul (whole 2) ramp_m) distance_m
      then floats.add (floats.mul (whole 2) ramp_seconds)
          (floats.div (floats.sub distance_m (floats.mul (whole 2) ramp_m)) top_speed)
      else floats.mul (whole 2) half_seconds

  unfoldable pub qt_cruise_seconds : floats.Float → ShipSpeed floats → floats.Float
  unfolding staged_seconds
  qt_cruise_seconds distance_m ship_speed =
      let top_speed = ship_speed.quantum_speed in
      let moving : floats.Float =
        elim (all_three (known ship_speed.quantum_stage_one_accel)
          (known ship_speed.quantum_stage_two_accel) (known ship_speed.quantum_engage_speed)) [
            | none ↦ floats.div distance_m top_speed
            | some (stage_one_accel, stage_two_accel, engage_speed) ↦
                staged_seconds distance_m top_speed stage_one_accel stage_two_accel
                  (min_float engage_speed top_speed)
          ] in
      if floats.le distance_m (whole 0) then whole 0 else moving

  -- What the thrust burns, where the usage is known.
  abbrev burned :
      ShipSpeed floats → (accel_seconds decel_seconds : floats.Float) → Option floats.Float
  burned ship_speed accel_seconds decel_seconds =
      elim (both ship_speed.hydrogen_usage_main ship_speed.hydrogen_usage_retro) [
        | none ↦ none
        | some (main, retro) ↦ some (
            floats.mul (floats.add (floats.mul main accel_seconds) (floats.mul retro decel_seconds))
              hydrogen_usage_unit_scu)
      ]

  -- The approach with the speed curve: seconds and burn.
  unfoldable pub curve_approach :
      ShipSpeed floats
      → (distance_m max_speed zero_to_max max_to_zero : floats.Float)
      → floats.Float × Option floats.Float
  curve_approach ship_speed distance_m max_speed zero_to_max max_to_zero =
      let accel = floats.div max_speed zero_to_max in
      let decel = floats.div max_speed max_to_zero in
      let accel_m = floats.mul (floats.mul half max_speed) zero_to_max in
      let decel_m = floats.mul (floats.mul half max_speed) max_to_zero in
      let peak_speed = floats.sqrt (
        floats.div (floats.mul (whole 2) distance_m)
          (floats.add (floats.div (whole 1) accel) (floats.div (whole 1) decel))) in
      let cruise_seconds =
        floats.div (floats.sub (floats.sub distance_m accel_m) decel_m) max_speed in
      if floats.le (floats.add accel_m decel_m) distance_m
      then (
        floats.add (floats.add zero_to_max cruise_seconds) max_to_zero,
        burned ship_speed zero_to_max max_to_zero,
      )
      else (
        floats.add (floats.add (floats.div peak_speed accel) (whole 0))
            (floats.div peak_speed decel),
        burned ship_speed (floats.div peak_speed accel) (floats.div peak_speed decel),
      )

  unfoldable pub approach : floats.Float → ShipSpeed floats → floats.Float × Option floats.Float
  unfolding curve_approach
  approach distance_m ship_speed =
      let moving : floats.Float × Option floats.Float =
        elim (all_three (known ship_speed.max_speed) (known ship_speed.zero_to_max)
          (known ship_speed.max_to_zero)) [
            | none ↦ (floats.div distance_m ship_speed.scm_speed, none)
            | some (max_speed, zero_to_max, max_to_zero) ↦
                curve_approach ship_speed distance_m max_speed zero_to_max max_to_zero
          ] in
      if floats.le distance_m (whole 0) then (whole 0, some (whole 0)) else moving
