-- ===== src/Travel/Places.antt =====
-- The ship data and positions of the wiki (app/tools/starcitizenwiki/models.py), and the lookups in the
-- positions (app/tools/starcitizenwiki/client.py). The case tables and the search of a whole word, a
-- regular expression, are arguments.
use graphling.Prelude.{
  Text, codes, text_eqb, Bool, true, false, not, ◌&&◌, ◌||◌, Option, none, some, List, [], ◌∷◌,
  find, filter, ◌==◌, if◌then◌else◌, Floats,
}
use graphling.Catalog.Fuzzy.{Libraries}

-- A number that is None is not known.
pub record ShipSpeed (floats : Floats) : Type 0 where
  pub scm_speed : floats.Float
  pub quantum_speed : floats.Float
  pub quantum_spool_time : floats.Float
  pub quantum_fuel_capacity : Option floats.Float
  pub quantum_range : Option floats.Float
  pub max_speed : Option floats.Float
  pub zero_to_max : Option floats.Float
  pub max_to_zero : Option floats.Float
  pub hydrogen_capacity : Option floats.Float
  pub hydrogen_usage_main : Option floats.Float
  pub hydrogen_usage_retro : Option floats.Float
  pub quantum_engage_speed : Option floats.Float
  pub quantum_stage_one_accel : Option floats.Float
  pub quantum_stage_two_accel : Option floats.Float

pub record LocationPosition (floats : Floats) : Type 0 where
  pub name : Text
  pub type : Text
  pub system : Text
  pub x : floats.Float
  pub y : floats.Float
  pub z : floats.Float
  pub arrival_radius : Option floats.Float

-- text.startswith(part)
abbrev starts_with : Text → Text → Bool
starts_with [] text = true
starts_with (c ∷ part) [] = false
starts_with (c ∷ part) (d ∷ text) = c == d && starts_with part text

-- part in text
abbrev pub has_part : Text → Text → Bool
has_part part [] = starts_with part []
has_part part (c ∷ text) = starts_with part (c ∷ text) || has_part part text

-- `\b` around the escaped word, searched in a text
abbrev pub WordSearch : Type 0
WordSearch = Text → Text → Bool

module _ (floats : Floats) (libraries : Libraries) where
  abbrev pub in_system : Text → LocationPosition floats → Bool
  in_system system location = text_eqb (libraries.lower location.system) (libraries.lower system)

  abbrev pub named_with : Text → LocationPosition floats → Bool
  named_with part location = has_part part (libraries.lower location.name)

  unfoldable pub find_location :
      List (LocationPosition floats) → Text → Text → Option (LocationPosition floats)
  find_location locations name system =
      find
        (λ location.
          text_eqb (libraries.lower location.name) (libraries.lower name)
          && in_system system location)
        locations

  module _ (has_word : WordSearch) where
    abbrev serves : Text → LocationPosition floats → Bool
    serves to_system location = has_word (libraries.lower to_system) (libraries.lower location.name)

    unfoldable pub is_connector : Text → Text → LocationPosition floats → Bool
    is_connector from_system to_system location =
        in_system from_system location
        && (text_eqb location.type (codes "Anomaly") || text_eqb location.type (codes "Manmade"))
        && not (named_with (codes "wreck") location)
        && serves to_system location

    abbrev first_of : List (LocationPosition floats) → Option (LocationPosition floats)
    first_of [] = none
    first_of (location ∷ locations) = some location

    abbrev pub or_first :
        Option (LocationPosition floats)
        → List (LocationPosition floats)
        → Option (LocationPosition floats)
    or_first none candidates = first_of candidates
    or_first (some location) candidates = some location

    unfoldable pub find_jump_point :
        List (LocationPosition floats) → Text → Text → Option (LocationPosition floats)
    unfolding is_connector
    find_jump_point locations from_system to_system =
        let candidates = filter (is_connector from_system to_system) locations in
        or_first (find (named_with (codes "jump point")) candidates) candidates

    unfoldable pub is_gateway : Text → Text → LocationPosition floats → Bool
    is_gateway from_system to_system location =
        in_system from_system location
        && text_eqb location.type (codes "Manmade")
        && named_with (codes "gateway") location
        && serves to_system location

    unfoldable pub find_gateway :
        List (LocationPosition floats) → Text → Text → Option (LocationPosition floats)
    unfolding is_gateway
    find_gateway locations from_system to_system = find (is_gateway from_system to_system) locations

  unfoldable pub is_jump_point_near : LocationPosition floats → LocationPosition floats → Bool
  is_jump_point_near location candidate =
      in_system location.system candidate
      && named_with (codes "jump point") candidate
      && not (named_with (codes "wreck") candidate)

  unfoldable pub square_distance : LocationPosition floats → LocationPosition floats → floats.Float
  square_distance location candidate =
      floats.add
        (floats.add (floats.square (floats.sub candidate.x location.x))
          (floats.square (floats.sub candidate.y location.y)))
        (floats.square (floats.sub candidate.z location.z))

  abbrev pub is_closer : floats.Float → Option (LocationPosition floats × floats.Float) → Bool
  is_closer distance none = true
  is_closer distance (some (best, best_distance)) = floats.lt distance best_distance

  -- The loop of `nearest_jump_point`: the best candidate so far, with its distance.
  unfoldable pub nearer :
      LocationPosition floats
      → List (LocationPosition floats)
      → Option (LocationPosition floats × floats.Float)
      → Option (LocationPosition floats × floats.Float)
  unfolding is_jump_point_near square_distance
  nearer location [] best = best
  nearer location (candidate ∷ locations) best =
      let distance = square_distance location candidate in
      nearer location locations (
        if is_jump_point_near location candidate && is_closer distance best
        then some (candidate, distance)
        else best)

  abbrev pub location_of :
      Option (LocationPosition floats × floats.Float) → Option (LocationPosition floats)
  location_of none = none
  location_of (some (location, distance)) = some location

  unfoldable pub nearest_jump_point :
      List (LocationPosition floats) → LocationPosition floats → Option (LocationPosition floats)
  unfolding nearer
  nearest_jump_point locations location = location_of (nearer location locations none)
