-- ===== src/Travel/Reasons.antt =====
-- What is answered between two terminals, and why it is refused (app/tools/travel_time.py).
use graphling.Prelude.{
  Text, ◌≡◌, refl, Bool, true, false, not, Bool-cases, Option, none, some, inl, inr, if◌then◌else◌,
  Floats,
}
use graphling.Catalog.Entities.{
  CachedTerminal, CachedOrbit, CachedStarSystem, named_terminal, named_vehicle,
}
use graphling.Catalog.Fuzzy.{Libraries}
use graphling.Catalog.Regions.{OrbitDistance}
use graphling.Travel.Places.{ShipSpeed, LocationPosition, WordSearch}
use graphling.Travel.Builder.{TripBuilder, new_trip, add_jump, build}
use graphling.Travel.Flight.{whole}
use graphling.Travel.Terminals.{is_same_orbit_different_place, is_same_physical_location}
use graphling.Travel.Trip.{
  Clients, Estimate, origin_side, to_jump_point, gateway_of, destination_side, from_jump_point,
  cross_between, estimate_cross_system, by_distance, from_orbit, by_orbits, by_positions,
  estimate_between,
}
use graphling.Travel.Explained.{
  Adds, Explained, Unplaced, Apart, its_orbit, its_system, distance_from, towards, placed,
  one_system,
}

module _ (floats : Floats) (libraries : Libraries) (has_word : WordSearch)
    (clients : Clients floats) where
  build-Adds :
      (trip : TripBuilder floats) → Adds floats libraries has_word clients (build floats trip)
  unfolding build
  build-Adds trip = (refl, refl, λ e. rw e refl)

  module _ (origin destination : CachedTerminal) (origin_name destination_name : Text)
      (ship_speed : ShipSpeed floats) where
    abbrev Missing : Type 0
    Missing =
        Unplaced floats libraries has_word clients origin destination origin_name destination_name
          ship_speed

    abbrev Separate : Type 0
    Separate =
        Apart floats libraries has_word clients origin destination origin_name destination_name
          ship_speed

    abbrev orbit_found : Option CachedOrbit
    orbit_found =
        its_orbit floats libraries has_word clients origin destination origin_name destination_name
          ship_speed

    abbrev system_found : Option CachedStarSystem
    system_found =
        its_system floats libraries has_word clients origin destination origin_name destination_name
          ship_speed

    abbrev listed_from : CachedOrbit → CachedStarSystem → Option OrbitDistance
    listed_from =
        distance_from floats libraries has_word clients origin destination origin_name
          destination_name ship_speed

    abbrev jump_point : Text → Text → Option (LocationPosition floats)
    jump_point =
        towards floats libraries has_word clients origin destination origin_name destination_name
          ship_speed

    abbrev position : CachedTerminal → Option (LocationPosition floats)
    position =
        placed floats libraries has_word clients origin destination origin_name destination_name
          ship_speed

    abbrev same_system : Bool
    same_system =
        one_system floats libraries has_word clients origin destination origin_name destination_name
          ship_speed

    abbrev pub Told : Estimate floats libraries has_word clients → Type 0
    Told =
        Explained floats libraries has_word clients origin destination origin_name destination_name
          ship_speed

    by_distance-Explained :
        (o : CachedOrbit) (s : CachedStarSystem) (d : Option OrbitDistance)
        → orbit_found ≡ some o
        → system_found ≡ some s
        → listed_from o s ≡ d
        → Missing
        → Separate
        → is_same_orbit_different_place origin destination ≡ false
        → Told (
            by_distance floats libraries has_word clients ship_speed origin_name destination_name d)
    by_distance-Explained o s none f g h u a e = (refl, refl, u, a, e, (o, s, f, g, h))
    by_distance-Explained o s (some d) f g h u a e = (
      build-Adds _,
      inr (
          inr (
            inl (record {
              apart = a;
              unplaced = u;
              orbit = o;
              system = s;
              distance = d;
              orbit_is = f;
              system_is = g;
              distance_is = h;
              trip_is = refl;
            }))),
    )

    from_orbit-Explained :
        (o : Option CachedOrbit) (s : Option CachedStarSystem)
        → orbit_found ≡ o
        → system_found ≡ s
        → Missing
        → Separate
        → is_same_orbit_different_place origin destination ≡ false
        → Told (
            from_orbit floats libraries has_word clients destination ship_speed origin_name
              destination_name o s)
    from_orbit-Explained none s f g u a e = (refl, u, a, e, inl f)
    from_orbit-Explained (some o) none f g u a e = (refl, u, a, e, inr g)
    from_orbit-Explained (some o) (some s) f g u a e =
        by_distance-Explained o s (listed_from o s) f g refl u a e

    by_orbits-Explained :
        Missing
        → Separate
        → Told (
            by_orbits floats libraries has_word clients origin destination ship_speed origin_name
              destination_name)
    unfolding by_orbits
    by_orbits-Explained u a = elim (Bool-cases (is_same_orbit_different_place origin destination)) [
      | inl e ↦ rw e (refl, refl, u, a, e)
      | inr e ↦ rw e (from_orbit-Explained orbit_found system_found refl refl u a e)
    ]

    -- Two positions, or one that is missing.
    by_positions-Explained :
        (o d : Option (LocationPosition floats))
        → position origin ≡ o
        → position destination ≡ d
        → Separate
        → Told (
            by_positions floats libraries has_word clients ship_speed o d (
              by_orbits floats libraries has_word clients origin destination ship_speed origin_name
                destination_name))
    by_positions-Explained (some o) (some d) e f a = (
      build-Adds _,
      inr (inl (record { apart = a; from = o; to = d; from_is = e; to_is = f; trip_is = refl })),
    )
    by_positions-Explained none d e f a = by_orbits-Explained (inl e) a
    by_positions-Explained (some o) none e f a = by_orbits-Explained (inr f) a

    to_jump_point-none :
        (trip : TripBuilder floats) (l : LocationPosition floats)
        (g : Option (LocationPosition floats × LocationPosition floats))
        (j : Option (LocationPosition floats))
        → to_jump_point floats libraries has_word clients trip l g j ≡ none
        → j ≡ none
    to_jump_point-none trip l (some (gateway, point)) j e = absurd (let z : ⊥ = cc (e) in z)
    to_jump_point-none trip l none none e = refl
    to_jump_point-none trip l none (some p) e = absurd (let z : ⊥ = cc (e) in z)

    origin_side-none :
        (trip : TripBuilder floats) (l : LocationPosition floats) (a b : Text)
        → origin_side floats libraries has_word clients trip l a b ≡ none
        → jump_point a b ≡ none
    unfolding origin_side
    origin_side-none trip l a b e =
        to_jump_point-none trip l (gateway_of floats libraries has_word clients a b)
          (jump_point a b) e

    -- A trip between two systems, from the positions of its ends.
    module _ (systems : same_system ≡ false) (o d : LocationPosition floats)
        (from_is : position origin ≡ some o) (to_is : position destination ≡ some d) where
      from_jump_point-Explained :
          (trip : TripBuilder floats) (j : Option (LocationPosition floats))
          → origin_side floats libraries has_word clients
              (new_trip floats ship_speed)
              o
              origin.star_system_name
              destination.star_system_name
            ≡ some trip
          → jump_point destination.star_system_name origin.star_system_name ≡ j
          → Told (
              from_jump_point floats libraries has_word clients trip d origin.star_system_name
                destination.star_system_name j)
      from_jump_point-Explained trip none h e = (e, systems)
      from_jump_point-Explained trip (some p) h e = (
        build-Adds _,
        inr (
            inr (
              inr (record {
                systems = systems;
                from = o;
                to = d;
                point = p;
                before = trip;
                from_is = from_is;
                to_is = to_is;
                point_is = e;
                before_is = h;
                trip_is = refl;
              }))),
      )

      destination_side-Explained :
          (trip : Option (TripBuilder floats))
          → origin_side floats libraries has_word clients
              (new_trip floats ship_speed)
              o
              origin.star_system_name
              destination.star_system_name
            ≡ trip
          → Told (
              destination_side floats libraries has_word clients d origin.star_system_name
                destination.star_system_name trip)
      destination_side-Explained none e = (
        origin_side-none (new_trip floats ship_speed) o origin.star_system_name
            destination.star_system_name e,
        systems,
      )
      destination_side-Explained (some trip) e =
          from_jump_point-Explained trip
            (jump_point destination.star_system_name origin.star_system_name) e refl

    cross_between-Explained :
        (o d : Option (LocationPosition floats))
        → position origin ≡ o
        → position destination ≡ d
        → same_system ≡ false
        → Told (
            cross_between floats libraries has_word clients ship_speed origin.star_system_name
              destination.star_system_name origin_name destination_name o d)
    cross_between-Explained none d e f g = (refl, refl, inl e, g)
    cross_between-Explained (some o) none e f g = (refl, refl, inr f, g)
    cross_between-Explained (some o) (some d) e f g =
        destination_side-Explained g o d e f
          (origin_side floats libraries has_word clients (new_trip floats ship_speed) o
            origin.star_system_name destination.star_system_name)
          refl

    -- An answer of a test is explained by what the test came to.
    tested-Explained :
        (b : Bool) (x y : Estimate floats libraries has_word clients)
        → (b ≡ true → Told x)
        → (b ≡ false → Told y)
        → Told (if b then x else y)
    tested-Explained true x y h k = h refl
    tested-Explained false x y h k = k refl

    untested-Explained :
        (b : Bool) (x y : Estimate floats libraries has_word clients)
        → (b ≡ false → Told x)
        → (b ≡ true → Told y)
        → Told (if not b then x else y)
    untested-Explained true x y h k = k refl
    untested-Explained false x y h k = h refl

    -- Between two terminals a trip is estimated, with the origin of its distances, or the refusal has
    -- its reason.
    pub estimate_between-Explained : Told (
        estimate_between floats libraries has_word clients origin destination ship_speed origin_name
          destination_name)
    unfolding estimate_between estimate_cross_system
    estimate_between-Explained =
        untested-Explained same_system _ _
          (λ e. cross_between-Explained (position origin) (position destination) refl refl e)
          (λ e.
            tested-Explained (is_same_physical_location origin destination) _ _
              (λ f. (
                build-Adds (add_jump floats (new_trip floats ship_speed) (whole floats 0)),
                inl (e, f, refl),
              ))
              (λ f.
                by_positions-Explained (position origin) (position destination) refl refl (e, f)))
