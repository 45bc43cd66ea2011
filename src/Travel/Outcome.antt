-- ===== src/Travel/Outcome.antt =====
-- What `estimate_trip` answers, and why it refuses (app/tools/travel_time.py).
use graphling.Prelude.{Text, ◌≡◌, none, some, ◌⊎◌, inl, inr, Floats}
use graphling.Catalog.Entities.{CachedTerminal, CachedVehicle, named_terminal, named_vehicle}
use graphling.Catalog.Fuzzy.{Libraries, wratio, token_sort_ratio}
use graphling.Catalog.Vocabulary.{location, ship}
use graphling.Catalog.Matching.{Message, default_cutoff, resolve_or_hedge}
use graphling.Travel.Places.{ShipSpeed, WordSearch}
use graphling.Travel.Trip.{hedged, no_speed_data, Clients, Estimate}
use graphling.Travel.Explained.{Explained}

module _ (floats : Floats) (libraries : Libraries) (has_word : WordSearch)
    (clients : Clients floats) where
  -- The terminals that the names resolve to, and what the answer says of them.
  pub record Resolved (origin_name destination_name ship_name : Text)
      (answer : Estimate floats libraries has_word clients) : Type 0 where
    pub origin : CachedTerminal
    pub destination : CachedTerminal
    pub vehicle : CachedVehicle
    pub speed : ShipSpeed floats
    pub origin_is :
        resolve_or_hedge libraries origin_name clients.cache.terminals location default_cutoff
          wratio
        ≡ inl origin
    pub destination_is :
        resolve_or_hedge libraries destination_name clients.cache.terminals location default_cutoff
          wratio
        ≡ inl destination
    pub vehicle_is :
        resolve_or_hedge libraries ship_name clients.cache.vehicles ship default_cutoff
          token_sort_ratio
        ≡ inl vehicle
    pub speed_is : clients.get_ship_speed vehicle.name ≡ some speed
    pub explained :
        Explained floats libraries has_word clients origin destination origin_name destination_name
          speed answer

  -- One of the three names is not resolved, with the message.
  abbrev pub Hedged : (origin_name destination_name ship_name : Text) → Message → Type 0
  Hedged origin_name destination_name ship_name m =
      (resolve_or_hedge libraries origin_name clients.cache.terminals location default_cutoff wratio
        ≡ inr m)
      ⊎ ((resolve_or_hedge libraries destination_name clients.cache.terminals location
              default_cutoff wratio
            ≡ inr m)
          ⊎ (resolve_or_hedge libraries ship_name clients.cache.vehicles ship default_cutoff
                token_sort_ratio
              ≡ inr m))

  abbrev pub Answered :
      (origin_name destination_name ship_name : Text)
      → Estimate floats libraries has_word clients
      → Type 0
  Answered origin_name destination_name ship_name (inl (hedged m)) =
      Hedged origin_name destination_name ship_name m
  Answered origin_name destination_name ship_name (inl (no_speed_data name)) =
      (vehicle : CachedVehicle) × (resolve_or_hedge libraries ship_name clients.cache.vehicles ship
          default_cutoff token_sort_ratio
        ≡ inl vehicle)
      × (name ≡ vehicle.name)
      × (clients.get_ship_speed name ≡ none)
  Answered origin_name destination_name ship_name answer =
      Resolved origin_name destination_name ship_name answer

  module _ (origin_name destination_name ship_name : Text) where
    abbrev origin_found : CachedTerminal ⊎ Message
    origin_found =
        resolve_or_hedge libraries origin_name clients.cache.terminals location default_cutoff
          wratio

    abbrev destination_found : CachedTerminal ⊎ Message
    destination_found =
        resolve_or_hedge libraries destination_name clients.cache.terminals location default_cutoff
          wratio

    abbrev vehicle_found : CachedVehicle ⊎ Message
    vehicle_found =
        resolve_or_hedge libraries ship_name clients.cache.vehicles ship default_cutoff
          token_sort_ratio

    abbrev Next : Type 0
    Next = Estimate floats libraries has_word clients
