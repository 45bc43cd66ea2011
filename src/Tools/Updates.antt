-- ===== src/Tools/Updates.antt =====
-- The tools mark_arrived, mark_cargo_acquired, mark_cargo_sold, confirm_cargo_loaded and
-- confirm_cargo_unloaded of app/tools/trade_run/, `catch_up_before_transaction` of
-- app/ledger_client.py, and how a failure is told (app/tools/uplink_tool.py). A call of the server is a
-- request of Ledger; it arrives and answers.
use graphling.Prelude.{
  Text, ℕ, zero, suc, ℤ, String, Bool, true, false, Option, none, some, ◌⊎◌, inl, inr, List, [],
  ◌∷◌, ◌==◌, ◌||◌, if◌then◌else◌,
}
use graphling.Ledger.Models.{
  acquisition, sale, CargoTransferType, manual, autoload, LegMilestone, reached_at,
  transaction_completed_at, transferred_at, finalized_at, TradeLeg,
}
use graphling.Ledger.Milestones.{next_unset_field, current_step_title}
use graphling.Ledger.Tables.{Tables, Error, Result, ok, err}
use graphling.Ledger.Legs.{Transaction, or_else, advance_leg, record_purchase, record_sale}
use graphling.Ledger.Requests.{status_code}
use graphling.Catalog.Entities.{UexReferenceCache}
use graphling.Catalog.Fuzzy.{Libraries}
use graphling.Tools.Resolver.{LegError, resolve_leg}

-- What failed, as `failure_message` tells it.
pub data Failure : Type 0 where
  unavailable not_accepted too_slow unreachable went_wrong : Failure
  answered_with : (status : ℕ) → Failure

unfoldable pub failure_of_status : ℕ → Failure
failure_of_status status =
    if status == 503
    then unavailable
    else if status == 401 || status == 403
    then not_accepted
    else answered_with status

-- A refusal of the ledger: `raise_for_status` makes a 404 a ValueError.
unfoldable pub failure_of : Error → Failure
unfolding status_code failure_of_status
failure_of error =
    if status_code error == 404 then went_wrong else failure_of_status (status_code error)

-- caught_up_steps
pub data CaughtUp : Type 0 where
  arrival unloading : CaughtUp

-- The answers of the tools, by what they say.
pub data Reply : Type 0 where
  failed : Failure → Reply
  unresolved : LegError → Reply
  not_at_arrival : TradeLeg → Reply
  not_yet : (step_title : String) → Reply
  recorded : List CaughtUp → TradeLeg → Reply
  confirmed : TradeLeg → Reply
  advanced : TradeLeg → (from : LegMilestone) → (to : Option LegMilestone) → Reply

-- What the pilot stated of a transaction.
pub record Stated : Type 0 where
  pub quantity_scu : Option ℤ
  pub price_per_unit : Option ℤ
  pub cargo_transfer_type : Option CargoTransferType
  pub cargo_transfer_fee : Option ℤ

unfoldable pub transaction_of : TradeLeg → Stated → Transaction
transaction_of leg stated = record {
  quantity_scu = or_else stated.quantity_scu leg.quantity_scu;
  price_per_unit = or_else stated.price_per_unit leg.price_per_unit;
  cargo_transfer_type = or_else stated.cargo_transfer_type leg.cargo_transfer_type;
  cargo_transfer_fee = or_else stated.cargo_transfer_fee leg.cargo_transfer_fee;
}

abbrev pub is_due : Option LegMilestone → Bool
is_due none = true
is_due (some transaction_completed_at) = true
is_due (some field) = false

-- A leg has at most four milestones.
abbrev pub enough_fuel : ℕ
enough_fuel = 4

-- What is told of a purchase, and of the steps that were caught up.
unfoldable pub bought : List CaughtUp → TradeLeg → Reply
unfolding next_unset_field
bought [] leg = advanced leg transaction_completed_at (next_unset_field leg)
bought (step ∷ steps) leg = recorded (step ∷ steps) leg

-- A sale that the last milestone follows.
abbrev pub sold : List CaughtUp → TradeLeg → Option LegMilestone → Reply
sold caught_up leg (some finalized_at) = recorded caught_up leg
sold caught_up leg next = advanced leg transaction_completed_at next

abbrev pub caught_up_steps : Option LegMilestone → CargoTransferType → List CaughtUp
caught_up_steps (some reached_at) manual = arrival ∷ unloading ∷ []
caught_up_steps (some reached_at) autoload = arrival ∷ []
caught_up_steps (some transferred_at) transfer = unloading ∷ []
caught_up_steps next transfer = []

module _ (user_id : ℕ) where
  -- What follows a call of the server; a call that is refused has changed nothing.
  abbrev pub after_call :
      {A : Type 0}
      → Tables
      → Result (TradeLeg × Tables)
      → (Error → Tables → A)
      → (TradeLeg → Tables → A)
      → A
  after_call tables (err error) refused next = refused error tables
  after_call tables (ok (leg, new_tables)) refused next = next leg new_tables

  -- The loop, on fuel; `times` are the readings of the server's clock in each round.
  unfoldable pub catch_up_before_transaction :
      (fuel : ℕ) → (times : ℕ → ℕ × ℕ) → TradeLeg → Tables → Result TradeLeg × Tables
  unfolding next_unset_field advance_leg
  catch_up_before_transaction zero times leg tables = (ok leg, tables)
  catch_up_before_transaction (suc fuel) times leg tables =
      let rest : Result TradeLeg × Tables =
        after_call tables (advance_leg leg.id user_id (times fuel).0 (times fuel).1 tables)
          (λ error same. (err error, same))
          λ advanced_leg new_tables.
            catch_up_before_transaction fuel times advanced_leg new_tables in
      if is_due (next_unset_field leg) then (ok leg, tables) else rest

  unfoldable pub mark_arrived_on : (now later : ℕ) → TradeLeg → Tables → Reply × Tables
  unfolding next_unset_field advance_leg failure_of
  mark_arrived_on now later leg tables = elim (next_unset_field leg) [
    | some reached_at ↦
        after_call tables (advance_leg leg.id user_id now later tables)
          (λ error same. (failed (failure_of error), same))
          λ result new_tables. (advanced result reached_at (next_unset_field result), new_tables)
    | _ ↦ (not_at_arrival leg, tables)
  ]

  abbrev confirmed_or_advanced : TradeLeg → Option LegMilestone → Reply
  confirmed_or_advanced leg (some finalized_at) = confirmed leg
  confirmed_or_advanced leg next = advanced leg transferred_at next

  abbrev unloaded : TradeLeg → Option LegMilestone → Reply
  unloaded leg next = advanced leg transferred_at next

  -- The step that loading and unloading share; `said` is what is told of it.
  unfoldable pub confirm_transfer_on :
      (said : TradeLeg → Option LegMilestone → Reply)
      → (now later : ℕ) → TradeLeg
      → Tables
      → Reply × Tables
  unfolding next_unset_field advance_leg failure_of current_step_title
  confirm_transfer_on said now later leg tables = elim (next_unset_field leg) [
    | some transferred_at ↦
        after_call tables (advance_leg leg.id user_id now later tables)
          (λ error same. (failed (failure_of error), same))
          λ result new_tables. (said result (next_unset_field result), new_tables)
    | _ ↦ (not_yet (current_step_title leg), tables)
  ]

  unfoldable pub purchase_on : List CaughtUp → Transaction → ℕ → TradeLeg → Tables → Reply × Tables
  unfolding next_unset_field record_purchase failure_of current_step_title bought
  purchase_on caught_up transaction now leg tables = elim (next_unset_field leg) [
    | some transaction_completed_at ↦
        after_call tables (record_purchase leg.id transaction user_id now tables)
          (λ error same. (failed (failure_of error), same))
          λ result new_tables. (bought caught_up result, new_tables)
    | _ ↦ (not_yet (current_step_title leg), tables)
  ]

  -- What follows the loop.
  abbrev pub after_catch_up :
      Result TradeLeg × Tables → (TradeLeg → Tables → Reply × Tables) → Reply × Tables
  after_catch_up (err error, tables) next = (failed (failure_of error), tables)
  after_catch_up (ok leg, tables) next = next leg tables

  unfoldable pub mark_cargo_acquired_on :
      (times : ℕ → ℕ × ℕ) → (now : ℕ) → Stated → TradeLeg → Tables → Reply × Tables
  unfolding next_unset_field transaction_of catch_up_before_transaction purchase_on
  mark_cargo_acquired_on times now stated leg tables = elim (next_unset_field leg) [
    | some reached_at ↦
        after_catch_up (catch_up_before_transaction enough_fuel times leg tables)
          (purchase_on (arrival ∷ []) (transaction_of leg stated) now)
    | _ ↦ purchase_on [] (transaction_of leg stated) now leg tables
  ]

  unfoldable pub sale_on :
      List CaughtUp → Transaction → (now later : ℕ) → TradeLeg → Tables → Reply × Tables
  unfolding next_unset_field record_sale failure_of current_step_title
  sale_on caught_up transaction now later leg tables = elim (next_unset_field leg) [
    | some transaction_completed_at ↦
        after_call tables (record_sale leg.id transaction user_id now later tables)
          (λ error same. (failed (failure_of error), same))
          λ result new_tables. (sold caught_up result (next_unset_field result), new_tables)
    | _ ↦ (not_yet (current_step_title leg), tables)
  ]

  abbrev pub caught_up_or_not :
      List CaughtUp
      → Result TradeLeg × Tables
      → (TradeLeg → Tables → Reply × Tables)
      → TradeLeg
      → Tables
      → Reply × Tables
  caught_up_or_not [] caught next leg tables = next leg tables
  caught_up_or_not (step ∷ steps) caught next leg tables = after_catch_up caught next

  unfoldable pub mark_cargo_sold_on :
      (times : ℕ → ℕ × ℕ) → (now later : ℕ) → Stated → TradeLeg → Tables → Reply × Tables
  unfolding next_unset_field transaction_of catch_up_before_transaction sale_on
  mark_cargo_sold_on times now later stated leg tables =
      let transaction = transaction_of leg stated in
      let steps = caught_up_steps (next_unset_field leg) transaction.cargo_transfer_type in
      caught_up_or_not steps (catch_up_before_transaction enough_fuel times leg tables)
        (sale_on steps transaction now later) leg tables

  -- The leg that is meant, and the update of it.
  abbrev pub on_leg :
      LegError ⊎ TradeLeg → (TradeLeg → Tables → Reply × Tables) → Tables → Reply × Tables
  on_leg (inl error) update tables = (unresolved error, tables)
  on_leg (inr leg) update tables = update leg tables

  module _ (libraries : Libraries) (cache : UexReferenceCache)
      (commodity terminal : Option Text) where
    unfoldable pub mark_arrived : (now later : ℕ) → Tables → Reply × Tables
    unfolding resolve_leg mark_arrived_on
    mark_arrived now later tables =
        on_leg (resolve_leg libraries cache user_id tables none commodity terminal)
          (mark_arrived_on now later) tables

    unfoldable pub confirm_cargo_loaded : (now later : ℕ) → Tables → Reply × Tables
    unfolding resolve_leg confirm_transfer_on
    confirm_cargo_loaded now later tables =
        on_leg (resolve_leg libraries cache user_id tables (some acquisition) commodity terminal)
          (confirm_transfer_on confirmed_or_advanced now later) tables

    unfoldable pub confirm_cargo_unloaded : (now later : ℕ) → Tables → Reply × Tables
    unfolding resolve_leg confirm_transfer_on
    confirm_cargo_unloaded now later tables =
        on_leg (resolve_leg libraries cache user_id tables (some sale) commodity terminal)
          (confirm_transfer_on unloaded now later) tables

    unfoldable pub mark_cargo_acquired :
        (times : ℕ → ℕ × ℕ) → (now : ℕ) → Stated → Tables → Reply × Tables
    unfolding resolve_leg mark_cargo_acquired_on
    mark_cargo_acquired times now stated tables =
        on_leg (resolve_leg libraries cache user_id tables (some acquisition) commodity terminal)
          (mark_cargo_acquired_on times now stated) tables

    unfoldable pub mark_cargo_sold :
        (times : ℕ → ℕ × ℕ) → (now later : ℕ) → Stated → Tables → Reply × Tables
    unfolding resolve_leg mark_cargo_sold_on
    mark_cargo_sold times now later stated tables =
        on_leg (resolve_leg libraries cache user_id tables (some sale) commodity terminal)
          (mark_cargo_sold_on times now later stated) tables
