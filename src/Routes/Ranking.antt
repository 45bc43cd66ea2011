-- ===== src/Routes/Ranking.antt =====
-- `find_best_route` of app/tools/route_ranking.py on the rows that it has, with the filters, the score
-- and the two best candidates. Sets of terminal ids are lists. The travel time is an argument, `none`
-- where it cannot be estimated, and so are the two constants of the transfer time.
use graphling.Prelude.{
  ℕ, ℤ, pos, Bool, true, false, not, ◌&&◌, Option, none, some, List, [], ◌∷◌, find, any, ◌==◌,
  if◌then◌else◌, Floats,
}
use graphling.Cargo.Sizes.{usable_container_sizes}
use graphling.Cargo.Packing.{
  best_container_mix, reachable_scu, estimated_profit, estimate_transfer_time,
}
use graphling.Ledger.Models.{UexTradeRoute}

pub record Terminal : Type 0 where
  pub id : ℕ
  pub is_auto_load : Bool
  pub is_nqa : Bool

abbrev flag : (Terminal → Bool) → Option Terminal → Bool
flag f none = false
flag f (some terminal) = f terminal

unfoldable pub terminal_is_auto_load : List Terminal → ℕ → Bool
terminal_is_auto_load terminals terminal_id =
    flag (λ t. t.is_auto_load) (find (λ t. t.id == terminal_id) terminals)

unfoldable pub terminal_is_nqa : List Terminal → ℕ → Bool
terminal_is_nqa terminals terminal_id =
    flag (λ t. t.is_nqa) (find (λ t. t.id == terminal_id) terminals)

abbrev is_in : ℕ → List ℕ → Bool
is_in x = any (λ y. y == x)

-- An id, or a list of ids, that is None rules nothing out.
abbrev outside : ℕ → Option (List ℕ) → Bool
outside x none = false
outside x (some ids) = not (is_in x ids)

abbrev differs : ℕ → Option ℕ → Bool
differs x none = false
differs x (some y) = not (x == y)

module _ (floats : Floats) where
  open floats use {Float, of_int, add, mul, div, lt, trunc}

  pub record Search : Type 0 where
    pub ship_scu : ℤ
    pub terminals : List Terminal
    pub commodity_id : Option ℕ
    -- exclude_destination_terminal_name and route.destination_terminal_name == …
    pub excluded_name : UexTradeRoute floats → Bool
    pub exclude_ground : Bool
    pub require_autoload : Bool
    pub require_nqa : Bool
    pub destination_terminal_ids : Option (List ℕ)
    pub excluded_destination_terminal_ids : List ℕ
    pub per_hour : Bool
    pub seconds_per_crate : Float
    pub modifier : ℕ → Float
    pub travel : UexTradeRoute floats → Option Float

  -- Is the route skipped by the commodity or by one of the filters on the destination?
  unfoldable pub filtered_out : Search → UexTradeRoute floats → Bool
  unfolding terminal_is_auto_load terminal_is_nqa
  filtered_out search route =
      if differs route.commodity_id search.commodity_id
      then true
      else if search.excluded_name route
      then true
      else if outside route.destination_terminal_id search.destination_terminal_ids
      then true
      else if is_in route.destination_terminal_id search.excluded_destination_terminal_ids
      then true
      else if search.exclude_ground && route.is_on_ground_destination
      then true
      else if search.require_autoload
          && not (terminal_is_auto_load search.terminals route.destination_terminal_id)
      then true
      else search.require_nqa
        && not (terminal_is_nqa search.terminals route.destination_terminal_id)

  pub record Found : Type 0 where
    pub route : UexTradeRoute floats
    pub score : Float
    pub profit : Float
    pub rate : Float
    pub scu : Float

  unfoldable pub scored : Search → UexTradeRoute floats → Float → Option Float → Option Found
  scored search route scu none = none
  scored search route scu (some travel) =
      let sizes =
        usable_container_sizes route.container_sizes_origin route.container_sizes_destination in
      let mix = best_container_mix (trunc scu) sizes in
      let transfer =
        mul (of_int (pos 2))
          (estimate_transfer_time floats mix search.seconds_per_crate search.modifier) in
      let total_time = add transfer travel in
      let profit = estimated_profit floats route scu in
      let rate = div profit total_time in
      if lt (of_int (pos 0)) total_time
      then some (record {
        route = route;
        score = if search.per_hour then rate else profit;
        profit = profit;
        rate = rate;
        scu = scu;
      })
      else none

  -- One round of the loop, up to its score; `none` is a `continue`.
  unfoldable pub candidate : Search → UexTradeRoute floats → Option Found
  unfolding filtered_out scored
  candidate search route =
      let scu = reachable_scu floats route (some search.ship_scu) in
      if filtered_out search route
      then none
      else if lt (of_int (pos 0)) scu
      then scored search route scu (search.travel route)
      else none

  -- best… and runner_up… of the code, each all set or all None
  pub record Standing : Type 0 where
    pub best : Option Found
    pub runner_up : Option Found

  abbrev pub beats : Found → Option Found → Bool
  beats found none = true
  beats found (some other) = lt other.score found.score

  unfoldable pub place : Standing → Found → Standing
  place standing found =
      if beats found standing.best
      then record { best = some found; runner_up = standing.best }
      else if beats found standing.runner_up
      then record { best = standing.best; runner_up = some found }
      else standing

  abbrev pub place_optional : Standing → Option Found → Standing
  place_optional standing none = standing
  place_optional standing (some found) = place standing found

  unfoldable pub rank : Search → Standing → List (UexTradeRoute floats) → Standing
  unfolding candidate place
  rank search standing [] = standing
  rank search standing (route ∷ routes) =
      rank search (place_optional standing (candidate search route)) routes

  unfoldable pub patch_auto_load : List Terminal → Found → Found
  unfolding terminal_is_auto_load
  patch_auto_load terminals found = record found {
    route = record found.route {
      is_auto_load_origin = terminal_is_auto_load terminals found.route.origin_terminal_id;
      is_auto_load_destination =
          terminal_is_auto_load terminals found.route.destination_terminal_id;
    };
  }

  abbrev patch_optional : List Terminal → Option Found → Option Found
  patch_optional terminals none = none
  patch_optional terminals (some found) = some (patch_auto_load terminals found)

  -- A best of `none` is the None of the code.
  unfoldable pub find_best_route : Search → List (UexTradeRoute floats) → Standing
  unfolding rank
  find_best_route search routes =
      let standing = rank search (record { best = none; runner_up = none }) routes in
      record {
        best = patch_optional search.terminals standing.best;
        runner_up = patch_optional search.terminals standing.runner_up;
      }
