-- ===== src/Tests/CatalogTests.antt =====
-- A small catalog with libraries that match equal texts only, and names resolved in it.
use graphling.Prelude.{
  Text, codes, text_eqb, ℕ, suc, ◌+◌, ◌≡◌, refl, ap, ◌∙◌, sym, true, false, ◌&&◌, Option, none,
  some, inl, inr, List, [], ◌∷◌, map, take, leb, if◌then◌else◌, Elem, strip,
}
use graphling.Catalog.Entities.{
  TerminalType, CachedTerminal, CachedCommodity, UexReferenceCache, named_commodity,
}
use graphling.Catalog.Fuzzy.{wratio, Libraries}
use graphling.Catalog.Vocabulary.{Label, canonicalize}
use graphling.Catalog.Matching.{resolve_or_hedge}
use graphling.Catalog.Pooled.{FromPool}
use graphling.Catalog.FromPool.{resolve_or_hedge-FromPool}
use graphling.Catalog.OwnName.{resolve_or_hedge-own_name}
use graphling.Catalog.PlaceTerminals.{terminals_at, at_place-places_in}
use graphling.Catalog.Regions.{Distances, Anchor, terminals_from, places_in, at_place}
use graphling.Catalog.Nearest.{Nearest, terminals_from-Nearest}
use graphling.Catalog.Resolution.{
  sell, Entity, PriceRow, Patterns, fetched, max_checked, candidates, resolve,
}
use graphling.Catalog.Ranked.{Descending}
use graphling.Catalog.Chosen.{Settled, resolve-Settled}

abbrev lower_code : ℕ → ℕ
lower_code c = if leb 65 c && leb c 90 then 32 + c else c

abbrev lower_text : Text → Text
lower_text = map lower_code

abbrev equal_at : Text → List Text → ℕ → List (ℕ × ℕ)
equal_at query [] i = []
equal_at query (t ∷ texts) i =
    if text_eqb t query
    then (100, i) ∷ equal_at query texts (suc i)
    else equal_at query texts (suc i)

abbrev first_equal : List (ℕ × ℕ) → Option (ℕ × ℕ)
first_equal [] = none
first_equal (r ∷ results) = some r

abbrev pub libraries : Libraries
libraries = record {
  unit = 1;
  casefold = lower_text;
  lower = lower_text;
  default_process = lower_text;
  extract = λ scorer query texts cutoff. equal_at query texts 0;
  extract_one = λ scorer query texts cutoff. first_equal (equal_at query texts 0);
  token_sort = λ s t. if text_eqb s t then 100 else 0;
  partial_ratio = λ s t. if text_eqb s t then 100 else 0;
  metaphone = λ t. t;
}

abbrev gold : CachedCommodity
gold = record { id = 1; name = codes "Gold"; code = codes "GOLD" }

abbrev agricium : CachedCommodity
agricium = record { id = 2; name = codes "Agricium"; code = codes "AGRI" }

abbrev pool : List CachedCommodity
pool = gold ∷ agricium ∷ []

not_agricium : codes "agricium" ≡ codes "gold" → ⊥
not_agricium e =
    let z : false ≡ true = ap (λ t. text_eqb t (codes "gold")) e in let y : ⊥ = cc (z) in y

only_gold :
    (other : CachedCommodity)
    → Elem other pool
    → lower_text other.name ≡ codes "gold"
    → other ≡ gold
only_gold other (inl e) h = e
only_gold other (inr (inl e)) h =
    absurd (not_agricium (ap (λ (c : CachedCommodity). lower_text c.name) (sym e) ∙ h))
only_gold other (inr (inr m)) h = absurd m

resolve_or_hedge-FromPool_example :
    FromPool pool
      (codes "silver")
      Label.commodity
      (resolve_or_hedge libraries (codes "silver") pool Label.commodity 60 wratio)
resolve_or_hedge-FromPool_example =
    resolve_or_hedge-FromPool pool libraries (codes "silver") Label.commodity 60 wratio

resolve_or_hedge-own_name_example :
    resolve_or_hedge libraries (codes " gOLD ") pool Label.commodity 60 wratio ≡ inl gold
unfolding canonicalize strip
resolve_or_hedge-own_name_example =
    resolve_or_hedge-own_name libraries pool gold (codes " gOLD ") Label.commodity 60 wratio
      (inl refl) refl refl only_gold

abbrev pub place_named : ℕ → Text → Text → Text → CachedTerminal
place_named id orbit station city = record {
  id = id;
  name = station;
  type = TerminalType.commodity;
  star_system_name = codes "Stanton";
  orbit_name = orbit;
  moon_name = [];
  planet_name = orbit;
  displayname = station;
  nickname = station;
  space_station_name = station;
  outpost_name = [];
  city_name = city;
}

abbrev pub everus : CachedTerminal
everus = place_named 1 (codes "Hurston") (codes "Everus Harbor") []

abbrev pub lorville : CachedTerminal
lorville = place_named 2 (codes "Hurston") [] (codes "Lorville")

abbrev pub area18 : CachedTerminal
area18 = place_named 3 (codes "ArcCorp") [] (codes "Area18")

abbrev pub terminals : List CachedTerminal
terminals = area18 ∷ lorville ∷ everus ∷ []

at_place-places_in_example :
    at_place (codes "Lorville") (places_in terminals) ≡ terminals_at (codes "Lorville") terminals
at_place-places_in_example = at_place-places_in (codes "Lorville") terminals

lorville_here : terminals_at (codes "Lorville") terminals ≡ lorville ∷ []
unfolding terminals_at
lorville_here = refl

abbrev distances : Distances
distances orbit system =
    record { orbit_destination_name = codes "ArcCorp"; distance = 40 }
    ∷ record { orbit_destination_name = codes "Crusader"; distance = 90 }
    ∷ []

abbrev hurston : Anchor
hurston = record { orbit_id = 4; star_system_id = 1; orbit_name = codes "Hurston" }

terminals_from-Nearest_example :
    Nearest distances hurston 50 terminals (terminals_from distances hurston 50 terminals)
terminals_from-Nearest_example = terminals_from-Nearest distances hurston 50 terminals

abbrev pub catalog : UexReferenceCache
catalog = record {
  commodities = pool;
  star_systems = [];
  orbits = [];
  terminals = terminals;
  moons = [];
  items = [];
  vehicles = [];
}

abbrev patterns : Patterns
patterns = record { is_variant = λ name. false; is_accessory = λ name. false }

abbrev gold_price : Entity → List PriceRow
gold_price e = record { price_buy = 0; price_sell = 7; price_rent = 0 } ∷ []

resolve-Settled_example :
    let checked =
      map
        (fetched libraries patterns gold_price)
        (take max_checked (candidates libraries patterns (codes "gold") sell catalog)) in
    Descending checked
    × Settled libraries patterns sell checked
        (resolve libraries patterns (codes "gold") sell catalog gold_price)
resolve-Settled_example = resolve-Settled libraries patterns (codes "gold") sell catalog gold_price
