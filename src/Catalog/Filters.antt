-- ===== src/Catalog/Filters.antt =====
-- The filters of rows by a named location, and the pools of ships (app/tools/uexcorp/matching.py). A
-- row's columns are functions; `inl` is UnresolvedName with its message.
use graphling.Prelude.{
  Text, text_eqb, text_in, is_set, strip, ℕ, pos, ltb_ℤ, Bool, false, not, ◌&&◌, Option, none, some,
  ◌⊎◌, inl, inr, List, [], ◌∷◌, ◌++◌, map, filter, if◌then◌else◌,
}
use graphling.Catalog.Entities.{
  CachedTerminal, CachedVehicle, UexReferenceCache, Named, named_terminal, named_orbit, named_moon,
  named_star_system, named_vehicle,
}
use graphling.Catalog.Fuzzy.{Libraries, wratio, token_sort_ratio}
use graphling.Catalog.Vocabulary.{location, ship, canonicalize}
use graphling.Catalog.Matching.{
  Message, resolve_or_hedge, exact_name_matches, default_cutoff, item_in,
}
use graphling.Catalog.Regions.{
  Distances, resolve_near_anchor, in_range, places_in, at_place, exact_name, terminals_within,
  resolved,
}

-- Why a filter refuses: the hedge of a name, or a location that is not found.
pub data Unresolved : Type 0 where
  hedged : Message → Unresolved
  no_location : Text → Unresolved

-- DEFAULT_NEAR_DISTANCE, in whole Gm
abbrev pub default_near_distance : ℕ
default_near_distance = 25

-- A location row's columns.
pub record Row (R : Type 0) : Type 0 where
  pub star_system_name : R → Text
  pub orbit_name : R → Text
  pub terminal_name : R → Text
  pub moon_name : R → Text

module _ {R : Type 0} (row : Row R) (libraries : Libraries) (cache : UexReferenceCache) where
  abbrev pub Filtered : Type 0
  Filtered = Unresolved ⊎ List R

  abbrev pub then_filter : Filtered → (List R → Filtered) → Filtered
  then_filter (inl error) next = inl error
  then_filter (inr rows) next = next rows

  module _ {A : Type 0} ⦃named : Named A⦄ where
    abbrev matched : List R → (R → Text) → A ⊎ Message → Filtered
    matched rows attr (inl match) = inr (filter (λ r. text_eqb (attr r) (named.name match)) rows)
    matched rows attr (inr message) = inl (hedged message)

    unfoldable pub filter_by_match : List R → Text → List A → (R → Text) → Filtered
    unfolding resolve_or_hedge
    filter_by_match rows query candidates attr =
        if is_set query
        then matched rows attr
            (resolve_or_hedge libraries query candidates location default_cutoff wratio)
        else inr rows

  -- The terminals of the exact name, then those of the exact nickname.
  unfoldable pub add_nicknamed :
      Text → List CachedTerminal → List CachedTerminal → List CachedTerminal
  add_nicknamed wanted [] found = found
  add_nicknamed wanted (t ∷ terminals) found = add_nicknamed wanted terminals (
      if is_set t.nickname
        && text_eqb (libraries.casefold t.nickname) wanted
        && not (item_in t found)
      then found ++ t ∷ []
      else found)

  abbrev named_at : Text → Option Text → List CachedTerminal
  named_at query (some place) = at_place place (places_in cache.terminals)
  named_at query none =
      add_nicknamed (libraries.casefold (strip query)) cache.terminals
        (exact_name_matches libraries query cache.terminals)

  unfoldable pub rows_at : List R → List CachedTerminal → List R
  rows_at rows terminals =
      filter (λ r. text_in (row.terminal_name r) (map (λ (t : CachedTerminal). t.name) terminals))
        rows

  abbrev by_region : List R → Text → List CachedTerminal → Filtered
  by_region rows query (t ∷ terminals) = inr (rows_at rows (t ∷ terminals))
  by_region rows query [] = elim (terminals_within libraries query cache.terminals cache) [
    | none ↦ filter_by_match rows query cache.terminals row.terminal_name
    | some region ↦ inr (rows_at rows region.terminals)
  ]

  unfoldable pub filter_by_terminal_or_place : List R → Text → Filtered
  unfolding places_in at_place exact_name canonicalize add_nicknamed exact_name_matches rows_at
      terminals_within filter_by_match
  filter_by_terminal_or_place rows query =
      let place =
        exact_name libraries (canonicalize libraries query location)
          (map (λ p. p.0) (places_in cache.terminals)) in
      if is_set query then by_region rows query (named_at query place) else inr rows

  unfoldable pub filter_by_distance : Distances → List R → Text → ℕ → Filtered
  unfolding resolve_near_anchor in_range
  filter_by_distance get_orbit_distances rows near max_distance =
      elim (resolve_near_anchor libraries cache near) [
        | none ↦ inl (no_location near)
        | some anchor ↦
            inr (
              filter (λ r. in_range get_orbit_distances anchor max_distance (row.orbit_name r))
                rows)
      ]

  abbrev or_default : Option ℕ → ℕ
  or_default none = default_near_distance
  or_default (some max_distance) = max_distance

  abbrev near_or_all : Distances → Text → Option ℕ → List R → Filtered
  near_or_all get_orbit_distances near max_distance rows =
      if is_set near
      then filter_by_distance get_orbit_distances rows near (or_default max_distance)
      else inr rows

  -- A name that is None is the empty text.
  unfoldable pub filter_by_location :
      Distances → List R → (star_system orbit terminal moon near : Text) → Option ℕ → Filtered
  unfolding filter_by_match filter_by_terminal_or_place filter_by_distance
  filter_by_location get_orbit_distances rows star_system orbit terminal moon near max_distance =
      then_filter (filter_by_match rows star_system cache.star_systems row.star_system_name) λ rows.
        then_filter (filter_by_match rows orbit cache.orbits row.orbit_name) λ rows.
          then_filter (filter_by_terminal_or_place rows terminal) λ rows.
            then_filter (filter_by_match rows moon cache.moons row.moon_name)
              λ rows. near_or_all get_orbit_distances near max_distance rows

-- vehicle.scu and at least 1, and not a concept
abbrev can_haul : CachedVehicle → Bool
can_haul vehicle = if vehicle.is_concept then false else not (ltb_ℤ vehicle.scu (pos 1))

unfoldable pub cargo_capable_vehicles : UexReferenceCache → List CachedVehicle
cargo_capable_vehicles cache = filter can_haul cache.vehicles

pub data ShipMessage : Type 0 where
  ship_hedged : Message → ShipMessage
  concept_ship : Text → ShipMessage
  no_cargo_capacity : Text → ShipMessage

module _ (libraries : Libraries) (cache : UexReferenceCache) where
  -- Why a ship that UEX knows is not in the pool.
  abbrev known_ship : Message → Option CachedVehicle → ShipMessage
  known_ship error none = ship_hedged error
  known_ship error (some known) =
      if item_in known (cargo_capable_vehicles cache)
      then ship_hedged error
      else if known.is_concept
      then concept_ship known.name
      else no_cargo_capacity known.name

  abbrev or_known_ship : Text → CachedVehicle ⊎ Message → CachedVehicle ⊎ ShipMessage
  or_known_ship query (inl vehicle) = inl vehicle
  or_known_ship query (inr error) = inr (
      known_ship error (
        resolved
          (resolve_or_hedge libraries query cache.vehicles ship default_cutoff token_sort_ratio)))

  unfoldable pub resolve_cargo_ship : Text → CachedVehicle ⊎ ShipMessage
  unfolding cargo_capable_vehicles resolve_or_hedge
  resolve_cargo_ship query = or_known_ship query (
      resolve_or_hedge libraries query (cargo_capable_vehicles cache) ship default_cutoff
        token_sort_ratio)
