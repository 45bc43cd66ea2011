-- ===== src/Tools/Sold.antt =====
-- What mark_cargo_sold records (app/tools/trade_run/mark_cargo_sold_tool.py).
use graphling.Prelude.{
  Text, ℕ, ◌≡◌, refl, sym, subst, ◌∙◌, true, inl, inr, Option, none, some, List, [], ◌∷◌, is_none,
  is_some, whole_floats, if◌then◌else◌,
}
use graphling.Ledger.Models.{
  LegType, acquisition, sale, CargoTransferType, manual, autoload, reached_at,
  transaction_completed_at, TradeLeg, leg_type_eqb,
}
use graphling.Ledger.Milestones.{next_unset_field}
use graphling.Ledger.Tables.{Tables, put_leg, ok}
use graphling.Ledger.Owned.{get_owned_leg}
use graphling.Ledger.OwnedRows.{get_owned_leg-Owned}
use graphling.Ledger.Written.{get_owned_leg-put_leg}
use graphling.Ledger.Legs.{Transaction, fits, record_sale, sale_owned, apply_transaction}
use graphling.Ledger.Requests.{sell, serve, handle}
use graphling.Ledger.Consistent.{Consistent}
use graphling.Ledger.Integrity.{serve-Consistent}
use graphling.Catalog.Entities.{UexReferenceCache}
use graphling.Catalog.Fuzzy.{Libraries}
use graphling.Tools.Resolver.{resolve_leg}
use graphling.Tools.OwnLeg.{Meant, resolve_leg-Mine}
use graphling.Tools.Updates.{
  Reply, Stated, CaughtUp, transaction_of, sold, enough_fuel, caught_up_steps, sale_on,
  catch_up_before_transaction, caught_up_or_not, mark_cargo_sold_on, mark_cargo_sold,
}
use graphling.Tools.CatchUp.{
  next-unpaid, due-reached, catch_up_before_transaction-Ready, steps_left-le,
}

-- The tool has recorded the sale: the leg's row in the new tables has its amounts, as stated or else
-- as planned, the time of the sale, an arrival and an unloading.
pub record Sold (leg : TradeLeg) (user_id : ℕ) (transaction : Transaction) (now : ℕ)
    (r : Reply × Tables) : Type 0 where
  pub steps : List CaughtUp
  pub result : TradeLeg
  pub tables : Tables
  pub returned : r ≡ (sold steps result (next_unset_field result), tables)
  pub written : get_owned_leg tables leg.id user_id ≡ ok result
  pub same_id : result.id ≡ leg.id
  pub quantity : result.quantity_scu ≡ transaction.quantity_scu
  pub price : result.price_per_unit ≡ transaction.price_per_unit
  pub fee : result.cargo_transfer_fee ≡ transaction.cargo_transfer_fee
  pub transfer : result.cargo_transfer_type ≡ transaction.cargo_transfer_type
  pub stamped : result.transaction_completed_at ≡ some now
  pub unloaded : is_some result.transferred_at ≡ true
  pub arrived : is_some result.reached_at ≡ true
  pub consistent : Consistent tables

sale-Consistent :
    (tables : Tables) (c : Consistent tables) (leg_id user_id now later : ℕ) (result : TradeLeg)
    (transaction : Transaction) (next : Tables)
    → record_sale leg_id transaction user_id now later tables ≡ ok (result, next)
    → Consistent next
unfolding serve handle
sale-Consistent tables c leg_id user_id now later result transaction next e =
    rw e at (serve-Consistent whole_floats (sell leg_id transaction) user_id now later tables c tt)

unloaded_after : (o : Option ℕ) (later : ℕ) → is_some (if is_none o then some later else o) ≡ true
unloaded_after none later = refl
unloaded_after (some time) later = refl

module _ (user_id now later : ℕ) where
  abbrev sold_leg : TradeLeg → Transaction → TradeLeg
  sold_leg leg transaction =
      apply_transaction leg transaction (is_none leg.transferred_at) now later

  record_sale-ok :
      (tables : Tables) (leg : TradeLeg) (transaction : Transaction)
      → get_owned_leg tables leg.id user_id ≡ ok leg
      → leg.leg_type ≡ sale
      → leg.transaction_completed_at ≡ none
      → fits transaction ≡ true
      → record_sale leg.id transaction user_id now later tables
        ≡ ok (
          sold_leg leg transaction,
          record tables { legs = put_leg (sold_leg leg transaction) tables.legs },
        )
  unfolding record_sale sale_owned
  record_sale-ok tables leg transaction owned type unpaid fit = rw (owned, type, unpaid, fit) refl

  sale_on-Sold :
      (steps : List CaughtUp) (transaction : Transaction) (leg : TradeLeg) (tables : Tables)
      → Consistent tables
      → get_owned_leg tables leg.id user_id ≡ ok leg
      → leg.leg_type ≡ sale
      → leg.transaction_completed_at ≡ none
      → next_unset_field leg ≡ some transaction_completed_at
      → fits transaction ≡ true
      → Sold leg user_id transaction now (sale_on user_id steps transaction now later leg tables)
  unfolding sale_on apply_transaction
  sale_on-Sold steps transaction leg tables c owned type unpaid due fit =
      let e = record_sale-ok tables leg transaction owned type unpaid fit in
      let next = record tables { legs = put_leg (sold_leg leg transaction) tables.legs } in
      let consistent : Consistent next =
        sale-Consistent tables c leg.id user_id now later (sold_leg leg transaction) transaction
          next e in
      let mine = get_owned_leg-Owned tables leg.id user_id leg owned in
      let written : get_owned_leg next leg.id user_id ≡ ok (sold_leg leg transaction) =
        get_owned_leg-put_leg tables leg.id user_id leg (sold_leg leg transaction) owned refl
          mine.user in
      rw (sale_on, due, e)
        (record {
          steps = steps;
          result = sold_leg leg transaction;
          tables = next;
          returned = refl;
          written = written;
          same_id = refl;
          quantity = refl;
          price = refl;
          fee = refl;
          transfer = refl;
          stamped = refl;
          arrived = due-reached leg due;
          unloaded = unloaded_after leg.transferred_at later;
          consistent = consistent;
        })

  Sold-of_same :
      (leg other : TradeLeg) (transaction : Transaction) (r : Reply × Tables)
      → other.id ≡ leg.id
      → Sold other user_id transaction now r
      → Sold leg user_id transaction now r
  Sold-of_same leg other transaction r e h = record {
    steps = h.steps;
    result = h.result;
    tables = h.tables;
    returned = h.returned;
    written = subst (λ i. get_owned_leg h.tables i user_id ≡ ok h.result) e h.written;
    same_id = h.same_id ∙ e;
    quantity = h.quantity;
    price = h.price;
    fee = h.fee;
    transfer = h.transfer;
    stamped = h.stamped;
    arrived = h.arrived;
    unloaded = h.unloaded;
    consistent = h.consistent;
  }

  module _ (times : ℕ → ℕ × ℕ) (stated : Stated) (leg : TradeLeg) (tables : Tables)
      (c : Consistent tables) (owned : get_owned_leg tables leg.id user_id ≡ ok leg)
      (type : leg.leg_type ≡ sale) (unpaid : leg.transaction_completed_at ≡ none) where
    -- The sale of a leg that is caught up first, or that needs no catching up.
    caught_up-Sold :
        (steps : List CaughtUp) (transaction : Transaction)
        → (steps ≡ [] → next_unset_field leg ≡ some transaction_completed_at)
        → fits transaction ≡ true
        → Sold leg user_id transaction now (
            caught_up_or_not user_id steps
              (catch_up_before_transaction user_id enough_fuel times leg tables)
              (sale_on user_id steps transaction now later)
              leg
              tables)
    caught_up-Sold [] transaction due fit =
        sale_on-Sold [] transaction leg tables c owned type unpaid (due refl) fit
    caught_up-Sold (step ∷ steps) transaction due fit =
        let r =
          catch_up_before_transaction-Ready user_id times enough_fuel leg tables c owned unpaid
            (steps_left-le leg) in
        rw r.returned (
          Sold-of_same leg r.caught_up transaction _ r.same_id (
            sale_on-Sold (step ∷ steps) transaction r.caught_up r.tables r.consistent
              (subst (λ i. get_owned_leg r.tables i user_id ≡ ok r.caught_up) (sym r.same_id)
                r.owned)
              (r.same_type ∙ type) r.unpaid r.due fit))

    no_steps-due :
        (transfer : CargoTransferType)
        → caught_up_steps (next_unset_field leg) transfer ≡ []
        → next_unset_field leg ≡ some transaction_completed_at
    no_steps-due transfer e = elim (next-unpaid leg unpaid) [
      | inl h ↦ absurd (arriving transfer (rw h at e))
      | inr (inl h) ↦ absurd (let z : ⊥ = cc (rw h at e) in z)
      | inr (inr h) ↦ h
    ]
      where
        arriving : (t : CargoTransferType) → caught_up_steps (some reached_at) t ≡ [] → ⊥
        arriving manual e = let z : ⊥ = cc (e) in z
        arriving autoload e = let z : ⊥ = cc (e) in z

    mark_cargo_sold_on-Sold :
        fits (transaction_of leg stated) ≡ true
        → Sold leg user_id
            (transaction_of leg stated)
            now
            (mark_cargo_sold_on user_id times now later stated leg tables)
    unfolding mark_cargo_sold_on
    mark_cargo_sold_on-Sold fit =
        caught_up-Sold
          (caught_up_steps (next_unset_field leg) (transaction_of leg stated).cargo_transfer_type)
          (transaction_of leg stated) (no_steps-due (transaction_of leg stated).cargo_transfer_type)
          fit

is_sale : (t : LegType) → leg_type_eqb t sale ≡ true → t ≡ sale
is_sale sale h = refl
is_sale acquisition h = absurd (let z : ⊥ = cc (h) in z)

-- In consistent tables, where what was said leads to one sale leg, its sale is not recorded, and the
-- amounts fit their columns, the tool records it: the leg's row in the tables it leaves has the amounts as stated or else as planned,
-- the time of the sale, an arrival and an unloading, it is the leg that the reply shows, and the tables
-- are consistent.
pub mark_cargo_sold-Sold :
    (libraries : Libraries) (cache : UexReferenceCache) (user_id : ℕ)
    (commodity terminal : Option Text) (times : ℕ → ℕ × ℕ) (now later : ℕ) (stated : Stated)
    (leg : TradeLeg) (tables : Tables)
    → Consistent tables
    → resolve_leg libraries cache user_id tables (some sale) commodity terminal ≡ inr leg
    → leg.transaction_completed_at ≡ none
    → fits (transaction_of leg stated) ≡ true
    → Sold leg user_id
        (transaction_of leg stated)
        now
        (mark_cargo_sold user_id libraries cache commodity terminal times now later stated tables)
unfolding mark_cargo_sold
mark_cargo_sold-Sold libraries cache user_id commodity terminal times now later stated leg tables c
      found unpaid fit =
    let mine : Meant libraries cache user_id tables c (some sale) (inr leg) =
      subst (Meant libraries cache user_id tables c (some sale)) found
        (resolve_leg-Mine libraries cache user_id tables c (some sale) commodity terminal) in
    rw (mark_cargo_sold, found)
      (mark_cargo_sold_on-Sold user_id now later times stated leg tables c mine.owned
        (is_sale leg.leg_type mine.of_type) unpaid fit)
