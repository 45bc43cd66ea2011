-- ===== src/Tools/Acquired.antt =====
-- What mark_cargo_acquired records (app/tools/trade_run/mark_cargo_acquired_tool.py).
use graphling.Prelude.{
  Text, ℕ, ℤ, ◌≡◌, ◌≢◌, refl, sym, ap, subst, is_none, is_some, Bool-cases, ◌∙◌, true, false, ◌⊎◌,
  inl, inr, Option, none, some, Option-cases, List, [], ◌∷◌, whole_floats,
}
use graphling.Ledger.Models.{
  LegType, acquisition, sale, reached_at, transaction_completed_at, TradeLeg, leg_type_eqb,
}
use graphling.Ledger.Milestones.{next_unset_field, milestone_sequence}
use graphling.Ledger.Tables.{Tables, siblings, scalar_one_or_none, put_leg, put_optional, ok}
use graphling.Ledger.Owned.{get_owned_leg}
use graphling.Ledger.OwnedRows.{get_owned_leg-Owned, siblings-Sibling}
use graphling.Ledger.Written.{get_owned_leg-put_leg, get_owned_leg-put_optional}
use graphling.Ledger.Legs.{
  Transaction, fits, carry_forward, record_purchase, purchase_owned, apply_transaction,
}
use graphling.Ledger.Requests.{purchase, serve, handle}
use graphling.Ledger.Consistent.{Consistent}
use graphling.Ledger.Integrity.{serve-Consistent}
use graphling.Ledger.Siblings.{siblings_total}
use graphling.Catalog.Entities.{UexReferenceCache}
use graphling.Catalog.Fuzzy.{Libraries}
use graphling.Tools.Resolver.{resolve_leg}
use graphling.Tools.OwnLeg.{Meant, resolve_leg-Mine}
use graphling.Tools.Updates.{
  mark_cargo_acquired, Reply, Stated, CaughtUp, arrival, transaction_of, bought, enough_fuel,
  purchase_on, mark_cargo_acquired_on,
}
use graphling.Tools.CatchUp.{due-reached, catch_up_before_transaction-Ready, steps_left-le}

-- The sale leg whose plan follows the purchase is another row.
carry_forward-other :
    (quantity_scu : ℤ) (leg_id : ℕ) (sibling : Option TradeLeg)
    → ((row : TradeLeg) → sibling ≡ some row → row.id ≢ leg_id)
    → (row : TradeLeg) → carry_forward quantity_scu sibling ≡ some row
    → row.id ≢ leg_id
carry_forward-other quantity_scu leg_id none apart row e = absurd (let z : ⊥ = cc (e) in z)
carry_forward-other quantity_scu leg_id (some s) apart row e =
    elim (Bool-cases (is_none s.transaction_completed_at)) [
      | inl f ↦
          let e' : some (record s { quantity_scu = quantity_scu }) ≡ some row = rw f at e in
          let same : s.id ≡ row.id = ap (λ o. id_of o) e' in λ k. apart s refl (same ∙ k)
      | inr f ↦ let e' : none ≡ some row = rw f at e in absurd (let z : ⊥ = cc (e') in z)
    ]
  where
    id_of : Option TradeLeg → ℕ
    id_of none = 0
    id_of (some r) = r.id

module _ (tables : Tables) (c : Consistent tables) (leg_id user_id now : ℕ) (leg : TradeLeg)
    (transaction : Transaction) (owned : get_owned_leg tables leg_id user_id ≡ ok leg) where
  abbrev bought_leg : TradeLeg
  bought_leg = apply_transaction leg transaction false now now

  -- The row of the leg after the purchase, whatever becomes of the other one.
  purchase-written :
      (sibling : Option TradeLeg)
      → scalar_one_or_none (siblings leg tables.legs) ≡ ok sibling
      → get_owned_leg
          (record tables {
            legs =
                put_optional
                  (carry_forward transaction.quantity_scu sibling)
                  (put_leg bought_leg tables.legs);
          })
          leg_id
          user_id
        ≡ ok bought_leg
  unfolding apply_transaction
  purchase-written sibling found =
      let mine = get_owned_leg-Owned tables leg_id user_id leg owned in
      get_owned_leg-put_optional (record tables { legs = put_leg bought_leg tables.legs }) leg_id
        user_id bought_leg (carry_forward transaction.quantity_scu sibling)
        (get_owned_leg-put_leg tables leg_id user_id leg bought_leg owned mine.id mine.user)
        (carry_forward-other transaction.quantity_scu leg_id sibling
          (λ row e k. (siblings-Sibling tables leg row (found ∙ ap ok e)).other (k ∙ sym mine.id)))

  -- An owned acquisition leg without a purchase accepts one, and the leg's row has it.
  record_purchase-ok :
      leg.leg_type ≡ acquisition
      → leg.transaction_completed_at ≡ none
      → fits transaction ≡ true
      → (next : Tables) × (record_purchase leg_id transaction user_id now tables
          ≡ ok (bought_leg, next))
        × (get_owned_leg next leg_id user_id ≡ ok bought_leg)
  unfolding record_purchase purchase_owned
  record_purchase-ok type unpaid fit =
      let (sibling, found) =
        siblings_total tables leg c (get_owned_leg-Owned tables leg_id user_id leg owned).row in
      (
        record tables {
          legs =
              put_optional (carry_forward transaction.quantity_scu sibling)
                (put_leg bought_leg tables.legs);
        },
        rw (owned, type, unpaid, fit, found) refl,
        purchase-written sibling found,
      )

acquisition-next :
    (leg : TradeLeg)
    → leg.leg_type ≡ acquisition
    → leg.transaction_completed_at ≡ none
    → (next_unset_field leg ≡ some reached_at)
      ⊎ (next_unset_field leg ≡ some transaction_completed_at)
unfolding next_unset_field milestone_sequence
acquisition-next leg type unpaid = elim (Option-cases leg.reached_at) [
  | inl e ↦ inl (rw (type, e) refl)
  | inr (time, e) ↦ inr (rw (type, e, unpaid) refl)
]

-- The tool has recorded the purchase: the leg's row in the new tables has its amounts, as stated or
-- else as planned, the time of the purchase, and an arrival.
pub record Bought (leg : TradeLeg) (user_id : ℕ) (transaction : Transaction) (now : ℕ)
    (r : Reply × Tables) : Type 0 where
  pub steps : List CaughtUp
  pub result : TradeLeg
  pub tables : Tables
  pub returned : r ≡ (bought steps result, tables)
  pub written : get_owned_leg tables leg.id user_id ≡ ok result
  pub same_id : result.id ≡ leg.id
  pub quantity : result.quantity_scu ≡ transaction.quantity_scu
  pub price : result.price_per_unit ≡ transaction.price_per_unit
  pub fee : result.cargo_transfer_fee ≡ transaction.cargo_transfer_fee
  pub transfer : result.cargo_transfer_type ≡ transaction.cargo_transfer_type
  pub stamped : result.transaction_completed_at ≡ some now
  pub arrived : is_some result.reached_at ≡ true
  pub consistent : Consistent tables

purchase-Consistent :
    (tables : Tables) (c : Consistent tables) (leg_id user_id now : ℕ) (result : TradeLeg)
    (transaction : Transaction) (next : Tables)
    → record_purchase leg_id transaction user_id now tables ≡ ok (result, next)
    → Consistent next
unfolding serve handle
purchase-Consistent tables c leg_id user_id now result transaction next e =
    rw e at
      (serve-Consistent whole_floats (purchase leg_id transaction) user_id now now tables c tt)

purchase_on-Bought :
    (user_id : ℕ) (steps : List CaughtUp) (transaction : Transaction) (now : ℕ) (leg : TradeLeg)
    (tables : Tables)
    → Consistent tables
    → get_owned_leg tables leg.id user_id ≡ ok leg
    → leg.leg_type ≡ acquisition
    → leg.transaction_completed_at ≡ none
    → next_unset_field leg ≡ some transaction_completed_at
    → fits transaction ≡ true
    → Bought leg user_id transaction now (purchase_on user_id steps transaction now leg tables)
unfolding purchase_on apply_transaction
purchase_on-Bought user_id steps transaction now leg tables c owned type unpaid due fit =
    let (next, e, written) =
      record_purchase-ok tables c leg.id user_id now leg transaction owned type unpaid fit in
    let consistent : Consistent next =
      purchase-Consistent tables c leg.id user_id now
        (apply_transaction leg transaction false now now) transaction next e in
    rw (purchase_on, due, e)
      (record {
        steps = steps;
        result = apply_transaction leg transaction false now now;
        tables = next;
        returned = refl;
        written = written;
        same_id = refl;
        quantity = refl;
        price = refl;
        fee = refl;
        transfer = refl;
        stamped = refl;
        arrived = due-reached leg due;
        consistent = consistent;
      })

Bought-of_same :
    (leg other : TradeLeg) (user_id : ℕ) (transaction : Transaction) (now : ℕ) (r : Reply × Tables)
    → other.id ≡ leg.id
    → Bought other user_id transaction now r
    → Bought leg user_id transaction now r
Bought-of_same leg other user_id transaction now r e h = record {
  steps = h.steps;
  result = h.result;
  tables = h.tables;
  returned = h.returned;
  written = subst (λ i. get_owned_leg h.tables i user_id ≡ ok h.result) e h.written;
  same_id = h.same_id ∙ e;
  quantity = h.quantity;
  price = h.price;
  fee = h.fee;
  transfer = h.transfer;
  stamped = h.stamped;
  arrived = h.arrived;
  consistent = h.consistent;
}

-- In consistent tables the tool records the purchase of an acquisition leg of the pilot that has none,
-- whether its arrival was marked before or not, in one call.
pub mark_cargo_acquired_on-Bought :
    (user_id : ℕ) (times : ℕ → ℕ × ℕ) (now : ℕ) (stated : Stated) (leg : TradeLeg) (tables : Tables)
    → Consistent tables
    → get_owned_leg tables leg.id user_id ≡ ok leg
    → leg.leg_type ≡ acquisition
    → leg.transaction_completed_at ≡ none
    → fits (transaction_of leg stated) ≡ true
    → Bought leg user_id
        (transaction_of leg stated)
        now
        (mark_cargo_acquired_on user_id times now stated leg tables)
unfolding mark_cargo_acquired_on
mark_cargo_acquired_on-Bought user_id times now stated leg tables c owned type unpaid fit =
    elim (acquisition-next leg type unpaid) [
      | inr due ↦
          rw (mark_cargo_acquired_on, due)
            (purchase_on-Bought user_id [] (transaction_of leg stated) now leg tables c owned type
              unpaid due fit)
      | inl h ↦
          let r =
            catch_up_before_transaction-Ready user_id times enough_fuel leg tables c owned unpaid
              (steps_left-le leg) in
          rw (mark_cargo_acquired_on, h, r.returned)
            (Bought-of_same leg r.caught_up user_id (transaction_of leg stated) now _ r.same_id (
              purchase_on-Bought user_id (arrival ∷ []) (transaction_of leg stated) now r.caught_up
                r.tables r.consistent
                (subst (λ i. get_owned_leg r.tables i user_id ≡ ok r.caught_up) (sym r.same_id)
                  r.owned)
                (r.same_type ∙ type) r.unpaid r.due fit))
    ]

is_acquisition : (t : LegType) → leg_type_eqb t acquisition ≡ true → t ≡ acquisition
is_acquisition acquisition h = refl
is_acquisition sale h = absurd (let z : ⊥ = cc (h) in z)

-- In consistent tables, where what was said leads to one leg, its purchase is not recorded, and the
-- amounts fit their columns, the tool records it, whether the arrival was marked before or not: the leg's row in the tables it leaves
-- has the amounts as stated or else as planned, the time of the purchase, and an arrival, it is the leg
-- that the reply shows, and the tables are consistent.
pub mark_cargo_acquired-Bought :
    (libraries : Libraries) (cache : UexReferenceCache) (user_id : ℕ)
    (commodity terminal : Option Text) (times : ℕ → ℕ × ℕ) (now : ℕ) (stated : Stated)
    (leg : TradeLeg) (tables : Tables)
    → Consistent tables
    → resolve_leg libraries cache user_id tables (some acquisition) commodity terminal ≡ inr leg
    → leg.transaction_completed_at ≡ none
    → fits (transaction_of leg stated) ≡ true
    → Bought leg user_id
        (transaction_of leg stated)
        now
        (mark_cargo_acquired user_id libraries cache commodity terminal times now stated tables)
unfolding mark_cargo_acquired
mark_cargo_acquired-Bought libraries cache user_id commodity terminal times now stated leg tables c
      found unpaid fit =
    let mine : Meant libraries cache user_id tables c (some acquisition) (inr leg) =
      subst (Meant libraries cache user_id tables c (some acquisition)) found
        (resolve_leg-Mine libraries cache user_id tables c (some acquisition) commodity terminal) in
    rw (mark_cargo_acquired, found)
      (mark_cargo_acquired_on-Bought user_id times now stated leg tables c mine.owned
        (is_acquisition leg.leg_type mine.of_type) unpaid fit)
