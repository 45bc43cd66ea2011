-- ===== src/Ledger/Created.antt =====
-- What becomes of the tables when a run is created, by `create_run_from_route` of
-- app/server/ledger_service.py.
use graphling.Prelude.{ℕ, ℤ, String, Bool, true, false, not, Option, none, some, Floats}
use graphling.Ledger.Models.{UexTradeRoute, TradeRun}
use graphling.Ledger.Tables.{
  Tables, Result, not_finite, ok, err, ◌>>=◌, ◌>>◌, raise_if, out_of_range,
}
use graphling.Ledger.Create.{Defaults, created_rows, rounded, columns_fit, create_run_from_route}

module _ (floats : Floats) (route : UexTradeRoute floats) (quantity_scu : ℤ) (ship : Option String)
    (user_id : ℕ) (new : Defaults) (now : ℕ) (tables : Tables) where
  abbrev rows_at : ℤ → ℤ → TradeRun × Tables
  rows_at origin_price destination_price =
      created_rows floats route quantity_scu ship user_id new now origin_price destination_price
        tables

  -- What holds of the rows at any prices holds of what is created, and what holds of the errors.
  pub create-cases :
      (P : Result (TradeRun × Tables) → Type 0)
      → P (err out_of_range)
      → P (err not_finite)
      → ((origin_price destination_price : ℤ) → P (ok (rows_at origin_price destination_price)))
      → P (create_run_from_route floats route quantity_scu ship user_id new now tables)
  unfolding create_run_from_route
  create-cases P range finite rows =
      go (floats.round route.price_origin) (floats.round route.price_destination)
    where
      checked : (fit : Bool) (a b : ℤ) → P (raise_if (not fit) out_of_range >> ok (rows_at a b))
      checked true a b = rows a b
      checked false a b = range

      go :
          (a b : Option ℤ)
          → P (
              rounded a >>= λ origin_price. rounded b >>= λ destination_price.
              raise_if
                (not (
                  columns_fit route.origin_terminal_id route.destination_terminal_id quantity_scu
                    origin_price destination_price))
                out_of_range
              >> ok (rows_at origin_price destination_price))
      go none b = finite
      go (some a) none = finite
      go (some a) (some b) =
          checked
            (columns_fit route.origin_terminal_id route.destination_terminal_id quantity_scu a b) a
            b
