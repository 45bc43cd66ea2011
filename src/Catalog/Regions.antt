-- ===== src/Catalog/Regions.antt =====
-- Places, regions and distances of app/tools/uexcorp/matching.py. A distance is a whole number of a
-- small unit, and the client's table of distances is an argument. A place is a station, a city or an
-- outpost with the terminals there.
use mathlib.Core.Option
use graphling.Prelude.{
  Text, text_eqb, is_set, strip, ℕ, Bool, false, ◌&&◌, Option, none, some, ◌⊎◌, inl, inr, List, [],
  ◌∷◌, ◌++◌, map, filter, find, ltb, leb, ◌==◌, if◌then◌else◌,
}
use graphling.Catalog.Entities.{
  CachedTerminal, CachedOrbit, CachedMoon, CachedStarSystem, CachedCommodity, UexReferenceCache,
  Named, named_terminal, named_orbit, named_moon, is_commodity_terminal,
}
use graphling.Catalog.Fuzzy.{Libraries, wratio, token_sort_ratio}
use graphling.Catalog.Vocabulary.{location, canonicalize}
use graphling.Catalog.Matching.{resolve_or_hedge, match_by_name_or_code, default_cutoff}

pub record OrbitDistance : Type 0 where
  pub orbit_destination_name : Text
  pub distance : ℕ

-- client.get_orbit_distances(orbit_id, star_system_id)
abbrev pub Distances : Type 0
Distances = ℕ → ℕ → List OrbitDistance

unfoldable pub trade_terminals : UexReferenceCache → List CachedTerminal
trade_terminals cache = filter is_commodity_terminal cache.terminals

unfoldable pub find_orbit_by_name : UexReferenceCache → Text → Option CachedOrbit
find_orbit_by_name cache orbit_name = find (λ o. text_eqb o.name orbit_name) cache.orbits

unfoldable pub find_commodity_by_id : UexReferenceCache → ℕ → Option CachedCommodity
find_commodity_by_id cache commodity_id = find (λ c. c.id == commodity_id) cache.commodities

-- The anchor of a radius: (orbit_id, star_system_id, orbit_name).
pub record Anchor : Type 0 where
  pub orbit_id : ℕ
  pub star_system_id : ℕ
  pub orbit_name : Text

abbrev orbit_anchor : CachedOrbit → Anchor
orbit_anchor o = record { orbit_id = o.id; star_system_id = o.id_star_system; orbit_name = o.name }

abbrev moon_anchor : CachedMoon → Anchor
moon_anchor m = record {
  orbit_id = m.id_orbit;
  star_system_id = m.id_star_system;
  orbit_name = m.orbit_name;
}

abbrev terminal_anchor : UexReferenceCache → Option CachedTerminal → Option Anchor
terminal_anchor cache none = none
terminal_anchor cache (some terminal) =
    if is_set terminal.orbit_name
    then Option.map orbit_anchor (find_orbit_by_name cache terminal.orbit_name)
    else none

abbrev or_else {ℓ} : {A : Type ℓ} → Option A → Option A → Option A
or_else none next = next
or_else (some a) next = some a

-- item, _ = resolve_or_hedge(…)
abbrev pub resolved {ℓ κ} : {A : Type ℓ} {M : Type κ} → A ⊎ M → Option A
resolved (inl a) = some a
resolved (inr m) = none

module _ (libraries : Libraries) (cache : UexReferenceCache) where
  unfoldable pub confident_anchor : Text → Option Anchor
  unfolding resolve_or_hedge find_orbit_by_name
  confident_anchor near =
      or_else
        (Option.map orbit_anchor
          (resolved (resolve_or_hedge libraries near cache.orbits location default_cutoff wratio)))
        (or_else
          (Option.map moon_anchor
            (resolved (resolve_or_hedge libraries near cache.moons location default_cutoff wratio)))
          (terminal_anchor cache (
            resolved
              (resolve_or_hedge libraries near cache.terminals location default_cutoff wratio))))

  unfoldable pub loose_anchor : Text → Option Anchor
  unfolding match_by_name_or_code find_orbit_by_name
  loose_anchor near =
      or_else
        (Option.map orbit_anchor
          (match_by_name_or_code libraries near cache.orbits default_cutoff wratio))
        (or_else
          (Option.map moon_anchor
            (match_by_name_or_code libraries near cache.moons default_cutoff wratio))
          (terminal_anchor cache
            (match_by_name_or_code libraries near cache.terminals default_cutoff wratio)))

  unfoldable pub resolve_near_anchor : Text → Option Anchor
  unfolding confident_anchor loose_anchor canonicalize
  resolve_near_anchor near =
      or_else (confident_anchor near) (loose_anchor (canonicalize libraries near location))

-- lookup.get(name): the origin is at 0, and a later row of the same orbit replaces an earlier one.
unfoldable pub last_distance : Text → List OrbitDistance → Option ℕ
last_distance name [] = none
last_distance name (d ∷ distances) =
    or_else (last_distance name distances)
      (if text_eqb d.orbit_destination_name name then some d.distance else none)

unfoldable pub distance_to : Anchor → List OrbitDistance → Text → Option ℕ
unfolding last_distance
distance_to anchor distances name =
    if text_eqb anchor.orbit_name name then some 0 else last_distance name distances

abbrev within_distance : ℕ → Option ℕ → Bool
within_distance max_distance none = false
within_distance max_distance (some distance) = leb distance max_distance

-- name in lookup and lookup[name] <= max_distance
unfoldable pub in_range : Distances → Anchor → ℕ → Text → Bool
unfolding distance_to
in_range get_orbit_distances anchor max_distance name =
    within_distance max_distance
      (distance_to anchor (get_orbit_distances anchor.orbit_id anchor.star_system_id) name)

abbrev pub or_far : Option ℕ → ℕ
or_far none = 0
or_far (some distance) = distance

-- sorted(…, key=…): a stable insertion by the distance of the orbit
unfoldable pub insert_by_distance :
    (CachedTerminal → ℕ) → CachedTerminal → List CachedTerminal → List CachedTerminal
insert_by_distance key t [] = t ∷ []
insert_by_distance key t (u ∷ terminals) =
    if ltb (key u) (key t) then u ∷ insert_by_distance key t terminals else t ∷ u ∷ terminals

unfoldable pub sorted_by_distance : (CachedTerminal → ℕ) → List CachedTerminal → List CachedTerminal
unfolding insert_by_distance
sorted_by_distance key [] = []
sorted_by_distance key (t ∷ terminals) = insert_by_distance key t (sorted_by_distance key terminals)

unfoldable pub terminals_from : Distances → Anchor → ℕ → List CachedTerminal → List CachedTerminal
unfolding in_range sorted_by_distance distance_to
terminals_from get_orbit_distances anchor max_distance terminals =
    let distances = get_orbit_distances anchor.orbit_id anchor.star_system_id in
    sorted_by_distance (λ t. or_far (distance_to anchor distances t.orbit_name))
      (filter (λ t. in_range get_orbit_distances anchor max_distance t.orbit_name) terminals)

unfoldable pub terminals_near :
    Libraries
    → UexReferenceCache
    → Distances
    → Text
    → List CachedTerminal
    → ℕ
    → Option (List CachedTerminal)
unfolding resolve_near_anchor terminals_from
terminals_near libraries cache get_orbit_distances near terminals max_distance =
    Option.map (λ anchor. terminals_from get_orbit_distances anchor max_distance terminals)
      (resolve_near_anchor libraries cache near)

abbrev pub Places : Type 0
Places = List (Text × List CachedTerminal)

-- places[name].append(terminal), where the name is set
unfoldable pub add_place : Text → CachedTerminal → Places → Places
add_place name terminal [] = if is_set name then (name, terminal ∷ []) ∷ [] else []
add_place name terminal ((n, there) ∷ places) =
    if is_set name
    then (if text_eqb n name
        then (n, there ++ terminal ∷ []) ∷ places
        else (n, there) ∷ add_place name terminal places)
    else (n, there) ∷ places

unfoldable pub places_from : Places → List CachedTerminal → Places
unfolding add_place
places_from places [] = places
places_from places (t ∷ pool) =
    places_from
      (add_place t.outpost_name t
        (add_place t.city_name t (add_place t.space_station_name t places)))
      pool

unfoldable pub places_in : List CachedTerminal → Places
unfolding places_from
places_in pool = places_from [] pool

-- places[name]
unfoldable pub at_place : Text → Places → List CachedTerminal
at_place name [] = []
at_place name ((n, there) ∷ places) = if text_eqb n name then there else at_place name places

-- A bare name, for the fuzzy match of names.
instance abbrev named_name : Named Text
named_name = record {
  name = λ n. n;
  code = λ n. [];
  name_full = λ n. [];
  nickname = λ n. [];
  same = text_eqb;
}

unfoldable pub exact_name : Libraries → Text → List Text → Option Text
exact_name libraries region names =
    let wanted = libraries.casefold (strip region) in
    find (λ name. is_set name && text_eqb (libraries.casefold name) wanted) names

unfoldable pub fuzzy_name : Libraries → Text → List Text → Option Text
unfolding match_by_name_or_code
fuzzy_name libraries region names =
    match_by_name_or_code libraries region (filter is_set names) default_cutoff token_sort_ratio

pub record RegionMatch : Type 0 where
  pub name : Text
  pub terminals : List CachedTerminal

abbrev pub place_match : Places → Text → RegionMatch
place_match places name = record { name = name; terminals = at_place name places }

abbrev pub orbit_match : List CachedTerminal → Text → RegionMatch
orbit_match pool name = record {
  name = name;
  terminals = filter (λ t. text_eqb t.orbit_name name) pool;
}

abbrev pub system_match : List CachedTerminal → Text → RegionMatch
system_match pool name = record {
  name = name;
  terminals = filter (λ t. text_eqb t.star_system_name name) pool;
}

-- The three scopes by one way of matching names, the narrowest first.
unfoldable pub by_scope :
    (Text → List Text → Option Text)
    → Text
    → List CachedTerminal
    → UexReferenceCache
    → Option RegionMatch
unfolding places_in at_place
by_scope match region pool cache =
    let places = places_in pool in
    or_else (Option.map (place_match places) (match region (map (λ p. p.0) places))) (
      or_else
        (Option.map (orbit_match pool)
          (match region (map (λ (o : CachedOrbit). o.name) cache.orbits)))
        (Option.map (system_match pool)
          (match region (map (λ (s : CachedStarSystem). s.name) cache.star_systems))))

unfoldable pub terminals_within :
    Libraries → Text → List CachedTerminal → UexReferenceCache → Option RegionMatch
unfolding canonicalize by_scope exact_name fuzzy_name
terminals_within libraries spoken pool cache =
    let region = canonicalize libraries spoken location in
    or_else (by_scope (exact_name libraries) region pool cache)
      (by_scope (fuzzy_name libraries) region pool cache)
