-- ===== src/Ledger/Legs.antt =====
-- The operations of app/server/ledger_service.py on one leg. Each takes the times that its calls of
-- `datetime.now` read, in their order.
use graphling.Prelude.{
  ℕ, ℤ, pos, ltb_ℤ, Bool, not, ◌&&◌, Option, none, some, is_none, is_some, if◌then◌else◌,
}
use graphling.Ledger.Models.{
  acquisition, sale, CargoTransferType, LegMilestone, transaction_completed_at, finalized_at,
  TradeLeg, TradeRun, leg_type_eqb, milestone_eqb, stamp,
}
use graphling.Ledger.Milestones.{next_unset_field}
use graphling.Ledger.Tables.{
  Tables, already_finalized, needs_transaction, not_an_acquisition, purchase_recorded, not_a_sale,
  sale_recorded, run_finalized, negative_amount, out_of_range, fits_int4, Result, ok, err, ◌>>=◌,
  ◌>>◌, raise_if, run_with, siblings, scalar_one_or_none, put_leg, put_optional,
}
use graphling.Ledger.Owned.{get_owned_leg}

-- The two guards of `advance_leg` on the next unset field.
abbrev pub advanceable : Option LegMilestone → Result LegMilestone
advanceable none = err already_finalized
advanceable (some transaction_completed_at) = err needs_transaction
advanceable (some field) = ok field

-- The sibling starts to travel when its run's other leg is finalized.
abbrev pub start_sibling : ℕ → Option TradeLeg → Option TradeLeg
start_sibling later none = none
start_sibling later (some sibling) =
    if is_none sibling.started_at then some (record sibling { started_at = some later }) else none

unfoldable pub advance_to : Tables → ℕ → ℕ → TradeLeg → LegMilestone → Result (TradeLeg × Tables)
advance_to tables now later leg field = do
  let advanced = stamp field now leg
  sibling ←
      (if milestone_eqb field finalized_at
        then scalar_one_or_none (siblings leg tables.legs)
        else ok none)
  ok (
    advanced,
    record tables {
      legs = put_optional (start_sibling later sibling) (put_leg advanced tables.legs);
    },
  )

unfoldable pub advance_owned : Tables → ℕ → ℕ → TradeLeg → Result (TradeLeg × Tables)
unfolding advance_to
advance_owned tables now later leg = do
  field ← advanceable (next_unset_field leg)
  advance_to tables now later leg field

unfoldable pub advance_leg : ℕ → ℕ → ℕ → ℕ → Tables → Result (TradeLeg × Tables)
unfolding get_owned_leg advance_owned
advance_leg leg_id user_id now later tables = do
  leg ← get_owned_leg tables leg_id user_id
  advance_owned tables now later leg

-- The amounts that a pilot records with a purchase or a sale.
pub record Transaction : Type 0 where
  pub quantity_scu : ℤ
  pub price_per_unit : ℤ
  pub cargo_transfer_type : CargoTransferType
  pub cargo_transfer_fee : ℤ

-- Do the columns hold the amounts?
abbrev pub fits : Transaction → Bool
fits transaction =
    fits_int4 transaction.quantity_scu
    && fits_int4 transaction.price_per_unit
    && fits_int4 transaction.cargo_transfer_fee

-- `now` stamps the transaction, `later` the transfer.
unfoldable pub apply_transaction : TradeLeg → Transaction → Bool → ℕ → ℕ → TradeLeg
apply_transaction leg transaction also_stamp_transferred now later = record leg {
  quantity_scu = transaction.quantity_scu;
  price_per_unit = transaction.price_per_unit;
  cargo_transfer_type = transaction.cargo_transfer_type;
  cargo_transfer_fee = transaction.cargo_transfer_fee;
  transaction_completed_at = some now;
  transferred_at = if also_stamp_transferred then some later else leg.transferred_at;
}

-- The sale leg's planned quantity follows what was bought, until the sale is recorded.
abbrev pub carry_forward : ℤ → Option TradeLeg → Option TradeLeg
carry_forward quantity_scu none = none
carry_forward quantity_scu (some sale_leg) =
    if is_none sale_leg.transaction_completed_at
    then some (record sale_leg { quantity_scu = quantity_scu })
    else none

unfoldable pub purchase_owned : Tables → Transaction → ℕ → TradeLeg → Result (TradeLeg × Tables)
unfolding apply_transaction
purchase_owned tables transaction now leg = do
  raise_if (not (leg_type_eqb leg.leg_type acquisition)) not_an_acquisition
  raise_if (is_some leg.transaction_completed_at) purchase_recorded
  let bought = apply_transaction leg transaction Bool.false now now
  -- the query of the sibling flushes the change
  raise_if (not (fits transaction)) out_of_range
  sale_leg ← scalar_one_or_none (siblings leg tables.legs)
  ok (
    bought,
    record tables {
      legs =
          put_optional (carry_forward transaction.quantity_scu sale_leg)
            (put_leg bought tables.legs);
    },
  )

unfoldable pub record_purchase : ℕ → Transaction → ℕ → ℕ → Tables → Result (TradeLeg × Tables)
unfolding get_owned_leg purchase_owned
record_purchase leg_id transaction user_id now tables = do
  leg ← get_owned_leg tables leg_id user_id
  purchase_owned tables transaction now leg

unfoldable pub sale_owned : Tables → Transaction → ℕ → ℕ → TradeLeg → Result (TradeLeg × Tables)
unfolding apply_transaction
sale_owned tables transaction now later leg = do
  raise_if (not (leg_type_eqb leg.leg_type sale)) not_a_sale
  raise_if (is_some leg.transaction_completed_at) sale_recorded
  let sold = apply_transaction leg transaction (is_none leg.transferred_at) now later
  raise_if (not (fits transaction)) out_of_range
  ok (sold, record tables { legs = put_leg sold tables.legs })

unfoldable pub record_sale : ℕ → Transaction → ℕ → ℕ → ℕ → Tables → Result (TradeLeg × Tables)
unfolding get_owned_leg sale_owned
record_sale leg_id transaction user_id now later tables = do
  leg ← get_owned_leg tables leg_id user_id
  sale_owned tables transaction now later leg

-- The fields of a correction; `none` leaves a field as it is.
pub record Correction : Type 0 where
  pub quantity_scu : Option ℤ
  pub price_per_unit : Option ℤ
  pub cargo_transfer_fee : Option ℤ
  pub cargo_transfer_type : Option CargoTransferType

abbrev pub is_negative : Option ℤ → Bool
is_negative none = Bool.false
is_negative (some value) = ltb_ℤ value (pos 0)

-- x if x is not None else y
abbrev pub or_else {ℓ} : {A : Type ℓ} → Option A → A → A
or_else none y = y
or_else (some x) y = x

abbrev fits_optional : Option ℤ → Bool
fits_optional none = Bool.true
fits_optional (some value) = fits_int4 value

abbrev pub fits_corrected : Correction → Bool
fits_corrected c =
    fits_optional c.quantity_scu
    && fits_optional c.price_per_unit
    && fits_optional c.cargo_transfer_fee

abbrev pub finalized_at_of : Option TradeRun → Option ℕ
finalized_at_of none = none
finalized_at_of (some run) = run.finalized_at

unfoldable pub correct : Correction → TradeLeg → TradeLeg
correct c leg = record leg {
  quantity_scu = or_else c.quantity_scu leg.quantity_scu;
  price_per_unit = or_else c.price_per_unit leg.price_per_unit;
  cargo_transfer_fee = or_else c.cargo_transfer_fee leg.cargo_transfer_fee;
  cargo_transfer_type = or_else c.cargo_transfer_type leg.cargo_transfer_type;
}

unfoldable pub update_owned : Tables → Correction → TradeLeg → Result (TradeLeg × Tables)
unfolding correct
update_owned tables c leg = do
  raise_if (is_some (finalized_at_of (run_with leg.run_id tables.runs))) run_finalized
  raise_if (is_negative c.quantity_scu) negative_amount
  raise_if (is_negative c.price_per_unit) negative_amount
  raise_if (is_negative c.cargo_transfer_fee) negative_amount
  raise_if (not (fits_corrected c)) out_of_range
  ok (correct c leg, record tables { legs = put_leg (correct c leg) tables.legs })

unfoldable pub update_transaction : ℕ → Correction → ℕ → Tables → Result (TradeLeg × Tables)
unfolding get_owned_leg update_owned
update_transaction leg_id c user_id tables = do
  leg ← get_owned_leg tables leg_id user_id
  update_owned tables c leg
