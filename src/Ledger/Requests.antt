-- ===== src/Ledger/Requests.antt =====
-- app/server/routes/ledger.py: the requests, and the responses to an error.
use graphling.Prelude.{ℕ, ℤ, String, Option, Floats}
use graphling.Ledger.Models.{UexTradeRoute}
use graphling.Ledger.Tables.{
  Tables, Error, multiple_results, out_of_range, not_finite, not_found, Result, ok, err,
}
use graphling.Ledger.Create.{Defaults, create_run_from_route}
use graphling.Ledger.Legs.{
  Transaction, Correction, advance_leg, record_purchase, record_sale, update_transaction,
}
use graphling.Ledger.Runs.{finalize_run, write_off_run, delete_run}

-- One authenticated request of a pilot.
pub data Request (floats : Floats) : Type 0 where
  create : UexTradeRoute floats → ℤ → Option String → Defaults → Request floats
  advance : ℕ → Request floats
  purchase : ℕ → Transaction → Request floats
  sell : ℕ → Transaction → Request floats
  update : ℕ → Correction → Request floats
  finalize : ℕ → Request floats
  write_off : ℕ → Request floats
  delete : ℕ → Request floats

abbrev pub new_tables {ℓ} : {A : Type ℓ} → Result (A × Tables) → Result Tables
new_tables (ok (a, tables)) = ok tables
new_tables (err e) = err e

-- The call that the route's handler makes. `now` and `later` are the readings of the clock.
unfoldable pub handle : (floats : Floats) → Request floats → ℕ → ℕ → ℕ → Tables → Result Tables
handle floats (create route quantity_scu ship new) user_id now later tables =
    new_tables (create_run_from_route floats route quantity_scu ship user_id new now tables)
handle floats (advance leg_id) user_id now later tables =
    new_tables (advance_leg leg_id user_id now later tables)
handle floats (purchase leg_id transaction) user_id now later tables =
    new_tables (record_purchase leg_id transaction user_id now tables)
handle floats (sell leg_id transaction) user_id now later tables =
    new_tables (record_sale leg_id transaction user_id now later tables)
handle floats (update leg_id correction) user_id now later tables =
    new_tables (update_transaction leg_id correction user_id tables)
handle floats (finalize run_id) user_id now later tables =
    new_tables (finalize_run run_id user_id now tables)
handle floats (write_off run_id) user_id now later tables =
    new_tables (write_off_run run_id user_id now tables)
handle floats (delete run_id) user_id now later tables = delete_run run_id user_id tables

-- A request that raises has committed nothing.
abbrev pub after : Tables → Result Tables → Tables
after tables (ok next) = next
after tables (err e) = tables

unfoldable pub serve : (floats : Floats) → Request floats → ℕ → ℕ → ℕ → Tables → Tables
serve floats request user_id now later tables =
    after tables (handle floats request user_id now later tables)

-- The response's status: NotFoundError is 404, each ValueError that the routes catch 400, and what no
-- route catches a 500. The route that creates a run catches nothing.
unfoldable pub status_code : Error → ℕ
status_code not_found = 404
status_code multiple_results = 500
status_code out_of_range = 500
status_code not_finite = 500
status_code _ = 400
