-- ===== src/Ledger/Models.antt =====
-- The rows of app/db/models.py that the ledger keeps, and the route of
-- app/tools/uexcorp/trade_data.py from which a run is made. Ids (UUIDs) and times are numbers. A
-- run's `legs` are not a column: they are the rows of the leg table that carry the run's id.
use graphling.Prelude.{Text, ℕ, ℤ, String, Bool, Option, List, Floats}

pub data LegType : Type 0 where
  acquisition sale : LegType

pub data CargoTransferType : Type 0 where
  manual autoload : CargoTransferType

pub data LegMilestone : Type 0 where
  reached_at transaction_completed_at transferred_at finalized_at : LegMilestone

pub record TradeLeg : Type 0 where
  pub id : ℕ
  pub created_at : ℕ
  pub user_id : ℕ
  pub run_id : ℕ
  pub leg_type : LegType
  pub terminal_id : ℕ
  pub terminal_name : String
  pub commodity_name : String
  pub quantity_scu : ℤ
  pub price_per_unit : ℤ
  pub cargo_transfer_type : CargoTransferType
  pub cargo_transfer_fee : ℤ
  pub started_at : Option ℕ
  pub reached_at : Option ℕ
  pub transaction_completed_at : Option ℕ
  pub transferred_at : Option ℕ
  pub finalized_at : Option ℕ

pub record TradeRun : Type 0 where
  pub id : ℕ
  pub created_at : ℕ
  pub user_id : ℕ
  pub ship : Option String
  pub usable_container_sizes : Text
  pub finalized_at : Option ℕ

-- UEXTradeRoute, without the columns that no modelled code reads.
pub record UexTradeRoute (floats : Floats) : Type 0 where
  pub commodity_id : ℕ
  pub commodity_name : String
  pub origin_terminal_id : ℕ
  pub origin_terminal_name : String
  pub destination_terminal_id : ℕ
  pub destination_terminal_name : String
  pub price_origin : floats.Float
  pub price_destination : floats.Float
  pub scu_origin : floats.Float
  pub scu_destination : floats.Float
  pub is_on_ground_destination : Bool
  pub is_auto_load_origin : Bool
  pub is_auto_load_destination : Bool
  pub container_sizes_origin : List ℤ
  pub container_sizes_destination : List ℤ

abbrev pub leg_type_eqb : LegType → LegType → Bool
leg_type_eqb acquisition acquisition = Bool.true
leg_type_eqb sale sale = Bool.true
leg_type_eqb _ _ = Bool.false

abbrev pub milestone_eqb : LegMilestone → LegMilestone → Bool
milestone_eqb reached_at reached_at = Bool.true
milestone_eqb transaction_completed_at transaction_completed_at = Bool.true
milestone_eqb transferred_at transferred_at = Bool.true
milestone_eqb finalized_at finalized_at = Bool.true
milestone_eqb _ _ = Bool.false

-- getattr(leg, field)
abbrev pub milestone : LegMilestone → TradeLeg → Option ℕ
milestone reached_at leg = leg.reached_at
milestone transaction_completed_at leg = leg.transaction_completed_at
milestone transferred_at leg = leg.transferred_at
milestone finalized_at leg = leg.finalized_at

-- setattr(leg, field, now)
abbrev pub stamp : LegMilestone → ℕ → TradeLeg → TradeLeg
stamp reached_at now leg = record leg { reached_at = Option.some now }
stamp transaction_completed_at now leg = record leg { transaction_completed_at = Option.some now }
stamp transferred_at now leg = record leg { transferred_at = Option.some now }
stamp finalized_at now leg = record leg { finalized_at = Option.some now }
