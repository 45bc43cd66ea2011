-- ===== src/Tools/Resolver.antt =====
-- app/tools/trade_run/resolver.py: which leg, or which run, of the pilot is meant. A query is a call of
-- the server, so it reads the tables of the ledger.
use graphling.Prelude.{
  Text, codes, text_eqb, is_set, ℕ, String, Bool, true, false, ◌&&◌, ◌||◌, Option, none, some, ◌⊎◌,
  inl, inr, List, [], ◌∷◌, ◌++◌, filter, leb, is_none, if◌then◌else◌,
}
use graphling.Ledger.Models.{LegType, TradeLeg, TradeRun, leg_type_eqb}
use graphling.Ledger.Milestones.{current_leg}
use graphling.Ledger.Tables.{Tables, legs_of}
use graphling.Ledger.Queries.{get_in_progress_runs}
use graphling.Catalog.Entities.{
  Named, CachedCommodity, CachedTerminal, CachedVehicle, UexReferenceCache, named_commodity,
  named_terminal, named_vehicle,
}
use graphling.Catalog.Fuzzy.{Libraries, wratio, token_sort_ratio, points}
use graphling.Catalog.Vocabulary.{Label}
use graphling.Catalog.Matching.{default_cutoff, resolve_or_hedge}
use graphling.Catalog.Regions.{resolved}

-- AmbiguousLegError and the ValueError, AmbiguousRunError and the ValueErrors
pub data LegError : Type 0 where
  ambiguous_leg : List (TradeRun × TradeLeg) → LegError
  no_leg : LegError

pub data RunError : Type 0 where
  ambiguous_run : List TradeRun → RunError
  no_run_for_ship no_active_runs : RunError

module _ (libraries : Libraries) (cache : UexReferenceCache) where
  unfoldable pub confident_match :
      {A : Type 0} ⦃named : Named A⦄ → Option Text → List A → Label → Option A
  unfolding resolve_or_hedge
  confident_match none items label = none
  confident_match (some query) items label =
      resolved (resolve_or_hedge libraries query items label default_cutoff wratio)

  -- matched and matched.name == name
  abbrev pub is_named : {A : Type 0} ⦃named : Named A⦄ → Option A → String → Bool
  is_named none name = false
  is_named ⦃named⦄ (some item) name = text_eqb (named.name item) (codes name)

  abbrev pub is_type : Option LegType → TradeLeg → Bool
  is_type none leg = true
  is_type (some leg_type) leg = leg_type_eqb leg.leg_type leg_type

  -- What was said of the leg: its type, and the commodity and terminal that are matched.
  pub record Hint : Type 0 where
    pub leg_type : Option LegType
    pub commodity : Option CachedCommodity
    pub terminal : Option CachedTerminal

  unfoldable pub fits_hint : Hint → TradeLeg → Bool
  fits_hint hint leg =
      is_type hint.leg_type leg
      && (is_none hint.commodity && is_none hint.terminal
          || is_named hint.commodity leg.commodity_name
          || is_named hint.terminal leg.terminal_name)

  abbrev pub fitting : Hint → TradeRun → Option TradeLeg → List (TradeRun × TradeLeg)
  fitting hint run none = []
  fitting hint run (some leg) = if fits_hint hint leg then (run, leg) ∷ [] else []

  -- The loop over the runs.
  unfoldable pub matching_legs : Hint → Tables → List TradeRun → List (TradeRun × TradeLeg)
  unfolding fits_hint current_leg
  matching_legs hint tables [] = []
  matching_legs hint tables (run ∷ runs) =
      fitting hint run (current_leg (legs_of run.id tables.legs)) ++ matching_legs hint tables runs

  abbrev pub only_leg : List (TradeRun × TradeLeg) → LegError ⊎ TradeLeg
  only_leg [] = inl no_leg
  only_leg ((run, leg) ∷ []) = inr leg
  only_leg (a ∷ b ∷ found) = inl (ambiguous_leg (a ∷ b ∷ found))

  abbrev pub hint_of : Option LegType → Option Text → Option Text → Hint
  hint_of leg_type said_commodity said_terminal = record {
    leg_type = leg_type;
    commodity = confident_match said_commodity cache.commodities Label.commodity;
    terminal = confident_match said_terminal cache.terminals Label.location;
  }

  unfoldable pub resolve_leg :
      ℕ → Tables → Option LegType → Option Text → Option Text → LegError ⊎ TradeLeg
  unfolding confident_match matching_legs get_in_progress_runs
  resolve_leg user_id tables leg_type said_commodity said_terminal = only_leg (
      matching_legs (hint_of leg_type said_commodity said_terminal) tables
        (get_in_progress_runs user_id tables))

  -- run.ship and run.ship.casefold() in (...), and the loose match
  abbrev is_ship : CachedVehicle → Option String → Bool
  is_ship vehicle none = false
  is_ship vehicle (some name) =
      is_set (codes name)
      && (text_eqb (libraries.casefold (codes name)) (libraries.casefold vehicle.name)
          || text_eqb (libraries.casefold (codes name)) (libraries.casefold vehicle.name_full))

  abbrev is_like_ship : Text → Option String → Bool
  is_like_ship said none = false
  is_like_ship said (some name) =
      is_set (codes name)
      && leb (points libraries 60)
          (libraries.partial_ratio (libraries.lower said) (libraries.lower (codes name)))

  abbrev runs_on : Option CachedVehicle → List TradeRun → List TradeRun
  runs_on none runs = []
  runs_on (some vehicle) runs = filter (λ run. is_ship vehicle run.ship) runs

  abbrev or_runs : List TradeRun → List TradeRun → List TradeRun
  or_runs [] runs = runs
  or_runs (run ∷ found) runs = run ∷ found

  abbrev pub only_run : RunError → List TradeRun → RunError ⊎ TradeRun
  only_run error [] = inl error
  only_run error (run ∷ []) = inr run
  only_run error (a ∷ b ∷ runs) = inl (ambiguous_run (a ∷ b ∷ runs))

  unfoldable pub resolve_run : ℕ → Tables → Option Text → RunError ⊎ TradeRun
  unfolding resolve_or_hedge get_in_progress_runs
  resolve_run user_id tables none = only_run no_active_runs (get_in_progress_runs user_id tables)
  resolve_run user_id tables (some []) =
      only_run no_active_runs (get_in_progress_runs user_id tables)
  resolve_run user_id tables (some (c ∷ said)) =
      let runs = get_in_progress_runs user_id tables in
      let vehicle = resolved (
        resolve_or_hedge libraries (c ∷ said) cache.vehicles Label.ship default_cutoff
          token_sort_ratio) in
      only_run no_run_for_ship
        (or_runs (runs_on vehicle runs) (filter (λ run. is_like_ship (c ∷ said) run.ship) runs))
