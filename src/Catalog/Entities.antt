-- ===== src/Catalog/Entities.antt =====
-- The cached catalog of app/tools/uexcorp/reference_cache.py: the entities that the resolution reads,
-- with the columns that it reads. A text that is None is the empty text.
use graphling.Prelude.{
  Text, text_eqb, ℕ, Bool, true, false, ◌&&◌, List, [], ◌==◌, ℤ, eqb_ℤ, not, if◌then◌else◌,
}

pub data TerminalType : Type 0 where
  item commodity commodity_raw fuel refinery vehicle_rent vehicle_buy : TerminalType

pub record CachedTerminal : Type 0 where
  pub id : ℕ
  pub name : Text
  pub type : TerminalType
  pub star_system_name : Text
  pub orbit_name : Text
  pub moon_name : Text
  pub planet_name : Text
  pub displayname : Text
  pub nickname : Text
  pub space_station_name : Text
  pub outpost_name : Text
  pub city_name : Text

pub record CachedCommodity : Type 0 where
  pub id : ℕ
  pub name : Text
  pub code : Text

pub record CachedStarSystem : Type 0 where
  pub id : ℕ
  pub name : Text
  pub code : Text

pub record CachedOrbit : Type 0 where
  pub id : ℕ
  pub name : Text
  pub id_star_system : ℕ
  pub star_system_name : Text

pub record CachedMoon : Type 0 where
  pub id : ℕ
  pub name : Text
  pub code : Text
  pub id_star_system : ℕ
  pub id_orbit : ℕ
  pub orbit_name : Text

pub record CachedItem : Type 0 where
  pub id : ℕ
  pub name : Text
  pub slug : Text

-- `scu` in whole SCU.
pub record CachedVehicle : Type 0 where
  pub id : ℕ
  pub name : Text
  pub name_full : Text
  pub scu : ℤ
  pub is_concept : Bool

pub record UexReferenceCache : Type 0 where
  pub commodities : List CachedCommodity
  pub star_systems : List CachedStarSystem
  pub orbits : List CachedOrbit
  pub terminals : List CachedTerminal
  pub moons : List CachedMoon
  pub items : List CachedItem
  pub vehicles : List CachedVehicle

-- What the matching reads of an entity: its name, the fields that it may have (empty where it has no
-- such field), and `==`, which compares the fields.
pub record Named (A : Type 0) : Type 0 where
  pub name : A → Text
  pub code : A → Text
  pub name_full : A → Text
  pub nickname : A → Text
  pub same : A → A → Bool

abbrev missing {ℓ} : {A : Type ℓ} → A → Text
missing a = []

abbrev type_eqb : TerminalType → TerminalType → Bool
type_eqb TerminalType.item TerminalType.item = true
type_eqb TerminalType.commodity TerminalType.commodity = true
type_eqb TerminalType.commodity_raw TerminalType.commodity_raw = true
type_eqb TerminalType.fuel TerminalType.fuel = true
type_eqb TerminalType.refinery TerminalType.refinery = true
type_eqb TerminalType.vehicle_rent TerminalType.vehicle_rent = true
type_eqb TerminalType.vehicle_buy TerminalType.vehicle_buy = true
type_eqb _ _ = false

-- terminal.type == TerminalType.COMMODITY
abbrev pub is_commodity_terminal : CachedTerminal → Bool
is_commodity_terminal terminal = type_eqb terminal.type TerminalType.commodity

abbrev terminal_eqb : CachedTerminal → CachedTerminal → Bool
terminal_eqb a b =
    a.id == b.id
    && text_eqb a.name b.name
    && type_eqb a.type b.type
    && text_eqb a.star_system_name b.star_system_name
    && text_eqb a.orbit_name b.orbit_name
    && text_eqb a.moon_name b.moon_name
    && text_eqb a.planet_name b.planet_name
    && text_eqb a.displayname b.displayname
    && text_eqb a.nickname b.nickname
    && text_eqb a.space_station_name b.space_station_name
    && text_eqb a.outpost_name b.outpost_name
    && text_eqb a.city_name b.city_name

instance abbrev pub named_terminal : Named CachedTerminal
named_terminal = record {
  name = λ t. t.name;
  code = missing;
  name_full = missing;
  nickname = λ t. t.nickname;
  same = terminal_eqb;
}

instance abbrev pub named_commodity : Named CachedCommodity
named_commodity = record {
  name = λ c. c.name;
  code = λ c. c.code;
  name_full = missing;
  nickname = missing;
  same = λ a b. a.id == b.id && text_eqb a.name b.name && text_eqb a.code b.code;
}

instance abbrev pub named_orbit : Named CachedOrbit
named_orbit = record {
  name = λ o. o.name;
  code = missing;
  name_full = missing;
  nickname = missing;
  same = λ a b.
      a.id == b.id
      && text_eqb a.name b.name
      && a.id_star_system == b.id_star_system
      && text_eqb a.star_system_name b.star_system_name;
}

instance abbrev pub named_star_system : Named CachedStarSystem
named_star_system = record {
  name = λ s. s.name;
  code = λ s. s.code;
  name_full = missing;
  nickname = missing;
  same = λ a b. a.id == b.id && text_eqb a.name b.name && text_eqb a.code b.code;
}

instance abbrev pub named_moon : Named CachedMoon
named_moon = record {
  name = λ m. m.name;
  code = λ m. m.code;
  name_full = missing;
  nickname = missing;
  same = λ a b.
      a.id == b.id
      && text_eqb a.name b.name
      && text_eqb a.code b.code
      && a.id_star_system == b.id_star_system
      && a.id_orbit == b.id_orbit
      && text_eqb a.orbit_name b.orbit_name;
}

instance abbrev pub named_item : Named CachedItem
named_item = record {
  name = λ i. i.name;
  code = missing;
  name_full = missing;
  nickname = missing;
  same = λ a b. a.id == b.id && text_eqb a.name b.name && text_eqb a.slug b.slug;
}

instance abbrev pub named_vehicle : Named CachedVehicle
named_vehicle = record {
  name = λ v. v.name;
  code = missing;
  name_full = λ v. v.name_full;
  nickname = missing;
  same = λ a b.
      a.id == b.id
      && text_eqb a.name b.name
      && text_eqb a.name_full b.name_full
      && eqb_ℤ a.scu b.scu
      && (if a.is_concept then b.is_concept else not b.is_concept);
}
