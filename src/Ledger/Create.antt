-- ===== src/Ledger/Create.antt =====
-- `create_run_from_route` of app/server/ledger_service.py. The ids and creation times that the row
-- defaults produce, and the time that `datetime.now` reads, are arguments.
use graphling.Prelude.{
  ℕ, ℤ, pos, String, Bool, not, ◌&&◌, Option, none, some, ◌∷◌, if◌then◌else◌, Floats,
}
use graphling.Cargo.Sizes.{usable_container_sizes, format_container_sizes}
use graphling.Ledger.Models.{
  acquisition, sale, CargoTransferType, manual, autoload, TradeLeg, TradeRun, UexTradeRoute,
}
use graphling.Ledger.Tables.{
  Tables, Result, ok, err, ◌>>=◌, ◌>>◌, raise_if, out_of_range, not_finite, fits_int4,
}

-- The values that the columns' defaults give to the three rows of a new run.
pub record Defaults : Type 0 where
  pub run_id : ℕ
  pub acquisition_id : ℕ
  pub sale_id : ℕ
  pub run_created_at : ℕ
  pub acquisition_created_at : ℕ
  pub sale_created_at : ℕ

abbrev transfer_type : Bool → CargoTransferType
transfer_type auto_load = if auto_load then autoload else manual

-- The rows of the new run, at the two rounded prices.
unfoldable pub created_rows :
    (floats : Floats)
    → UexTradeRoute floats
    → ℤ
    → Option String
    → ℕ
    → Defaults
    → ℕ
    → ℤ
    → ℤ
    → Tables
    → TradeRun × Tables
created_rows floats route quantity_scu ship user_id new now origin_price destination_price tables =
    (run, record { runs = run ∷ tables.runs; legs = bought ∷ sold ∷ tables.legs })
  where
    bought : TradeLeg
    bought = record {
      id = new.acquisition_id;
      created_at = new.acquisition_created_at;
      user_id = user_id;
      run_id = new.run_id;
      leg_type = acquisition;
      terminal_id = route.origin_terminal_id;
      terminal_name = route.origin_terminal_name;
      commodity_name = route.commodity_name;
      quantity_scu = quantity_scu;
      price_per_unit = origin_price;
      cargo_transfer_type = transfer_type route.is_auto_load_origin;
      cargo_transfer_fee = pos 0;
      started_at = some now;
      reached_at = none;
      transaction_completed_at = none;
      transferred_at = none;
      finalized_at = none;
    }

    sold : TradeLeg
    sold = record {
      id = new.sale_id;
      created_at = new.sale_created_at;
      user_id = user_id;
      run_id = new.run_id;
      leg_type = sale;
      terminal_id = route.destination_terminal_id;
      terminal_name = route.destination_terminal_name;
      commodity_name = route.commodity_name;
      quantity_scu = quantity_scu;
      price_per_unit = destination_price;
      cargo_transfer_type = transfer_type route.is_auto_load_destination;
      cargo_transfer_fee = pos 0;
      started_at = none;
      reached_at = none;
      transaction_completed_at = none;
      transferred_at = none;
      finalized_at = none;
    }

    run : TradeRun
    run = record {
      id = new.run_id;
      created_at = new.run_created_at;
      user_id = user_id;
      ship = ship;
      usable_container_sizes =
          format_container_sizes
            (usable_container_sizes route.container_sizes_origin route.container_sizes_destination);
      finalized_at = none;
    }

-- int(round(price))
abbrev pub rounded : Option ℤ → Result ℤ
rounded none = err not_finite
rounded (some price) = ok price

-- Do the columns hold what the route and the request give?
abbrev pub columns_fit : ℕ → ℕ → ℤ → ℤ → ℤ → Bool
columns_fit origin_id destination_id quantity_scu origin_price destination_price =
    fits_int4 (pos origin_id)
    && fits_int4 (pos destination_id)
    && fits_int4 quantity_scu
    && fits_int4 origin_price
    && fits_int4 destination_price

unfoldable pub create_run_from_route :
    (floats : Floats)
    → UexTradeRoute floats
    → ℤ
    → Option String
    → ℕ
    → Defaults
    → ℕ
    → Tables
    → Result (TradeRun × Tables)
unfolding created_rows
create_run_from_route floats route quantity_scu ship user_id new now tables = do
  origin_price ← rounded (floats.round route.price_origin)
  destination_price ← rounded (floats.round route.price_destination)
  raise_if
      (not (
        columns_fit route.origin_terminal_id route.destination_terminal_id quantity_scu origin_price
          destination_price))
      out_of_range
  ok (
      created_rows floats route quantity_scu ship user_id new now origin_price destination_price
        tables)
