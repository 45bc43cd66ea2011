-- ===== src/Ledger/WriteOff.antt =====
-- What a run that is written off comes to (`write_off_run` of app/server/ledger_service.py and
-- `run_profit` of app/db/trade_run_store.py).
use graphling.Prelude.{
  ℕ, ℤ, pos, ◌-ℤ◌, ◌+ℤ◌, ◌*ℤ◌, ◌≡◌, ◌≢◌, refl, sym, subst, ap, ◌∙◌, inl, inr, Bool-cases, true,
  false, none, some, List, [], ◌∷◌, ◌==◌, ==_iff, ==_refl, arith, eq_of_parts, +ℤ_parts,
}
use graphling.Ledger.Models.{acquisition, sale, TradeLeg, TradeRun}
use graphling.Ledger.Totals.{sum_of, amount, run_investment, run_revenue, run_fees, run_profit}
use graphling.Ledger.Tables.{Tables, ok, legs_of, put_leg, put_run}
use graphling.Ledger.Owned.{get_owned_run}
use graphling.Ledger.Runs.{close_leg, sold_nothing, write_off_run, write_off_owned}
use graphling.Ledger.Rows.{OnlyRow, Elem-OnlyRow}
use graphling.Prelude.{Elem, Elem-filter}
use graphling.Ledger.Edits.{put_leg-OnlyRow}
use graphling.Ledger.Consistent.{Consistent}

-- A row that keeps its run is replaced among the legs of the run.
legs_of-put_leg :
    (run_id : ℕ) (old new : TradeLeg) (legs : List TradeLeg)
    → new.id ≡ old.id
    → new.run_id ≡ old.run_id
    → OnlyRow old legs
    → legs_of run_id (put_leg new legs) ≡ put_leg new (legs_of run_id legs)
legs_of-put_leg run_id old new [] id run only = refl
legs_of-put_leg run_id old new (leg ∷ legs) id run (here, only) =
    let rest = legs_of-put_leg run_id old new legs id run only in
    elim (Bool-cases (leg.id == new.id)) [
      | inl e ↦
          let same : leg.run_id ≡ new.run_id =
            ap (λ (r : TradeLeg). r.run_id) (here ((==_iff leg.id new.id).0 e ∙ id)) ∙ sym run in
          elim (Bool-cases (leg.run_id == run_id)) [
            | inl f ↦
                let there : (new.run_id == run_id) ≡ true = ground (arith, same, f) in
                rw (e, there, f, e, rest) refl
            | inr f ↦
                let elsewhere : (new.run_id == run_id) ≡ false = ground (arith, same, f) in
                rw (e, elsewhere, f) rest
          ]
      | inr e ↦ elim (Bool-cases (leg.run_id == run_id)) [
        | inl f ↦ rw (e, f, e, rest) refl
        | inr f ↦ rw (e, f) rest
      ]
    ]

no_revenue : pos 0 *ℤ pos 0 +ℤ pos 0 ≡ pos 0
unfolding ◌+ℤ◌ ◌*ℤ◌
no_revenue = refl

plus_zero : (a : ℤ) → a +ℤ pos 0 ≡ a
plus_zero a = eq_of_parts (a +ℤ pos 0) a (omega (arith, +ℤ_parts a (pos 0)))

loss_of_sums :
    (spent fee : ℤ)
    → pos 0 *ℤ pos 0 +ℤ pos 0 -ℤ (spent +ℤ pos 0) -ℤ (fee +ℤ (pos 0 +ℤ pos 0))
      ≡ pos 0 -ℤ spent -ℤ fee
loss_of_sums spent fee = rw (no_revenue, plus_zero spent, plus_zero (pos 0), plus_zero fee) refl

-- The two legs of a run, closed.
abbrev closed_pair : ℕ → TradeLeg → TradeLeg → List TradeLeg
closed_pair now bought sold = close_leg now bought ∷ close_leg now (sold_nothing sold) ∷ []

closed_pair-loss :
    (now : ℕ) (bought sold : TradeLeg)
    → bought.leg_type ≡ acquisition
    → sold.leg_type ≡ sale
    → run_profit (closed_pair now bought sold) ≡ pos 0 -ℤ amount bought -ℤ bought.cargo_transfer_fee
unfolding run_profit run_investment run_revenue run_fees sum_of close_leg sold_nothing
closed_pair-loss now bought sold b s =
    rw (b, s) (loss_of_sums (amount bought) bought.cargo_transfer_fee)

only_row :
    (row other : TradeLeg) (legs : List TradeLeg)
    → OnlyRow row legs
    → Elem other legs
    → other.id ≡ row.id
    → other ≡ row
only_row row other [] only m e = absurd m
only_row row other (leg ∷ legs) only (inl h) e =
    h ∙ only.0 (sym (ap (λ (r : TradeLeg). r.id) h) ∙ e)
only_row row other (leg ∷ legs) only (inr m) e = only_row row other legs only.1 m e

put_pair :
    (now : ℕ) (bought sold : TradeLeg)
    → bought.id ≢ sold.id
    → put_leg
        (close_leg now (sold_nothing sold))
        (put_leg (close_leg now bought) (bought ∷ sold ∷ []))
      ≡ closed_pair now bought sold
unfolding close_leg sold_nothing
put_pair now bought sold different =
    let away : (bought.id == sold.id) ≡ false = ground arith in
    let back : (sold.id == bought.id) ≡ false = ground arith in
    rw (==_refl bought.id, back, away, ==_refl sold.id) refl

module _ (tables : Tables) (consistent : Consistent tables) (run_id user_id now : ℕ)
    (run : TradeRun) (bought sold : TradeLeg) (paid_at : ℕ) where
  -- A run of the pilot that is open, with a purchase and no sale.
  pub record Lost : Type 0 where
    pub owned : get_owned_run tables run_id user_id ≡ ok run
    pub legs : legs_of run.id tables.legs ≡ bought ∷ sold ∷ []
    pub buys : bought.leg_type ≡ acquisition
    pub sells : sold.leg_type ≡ sale
    pub still_open : run.finalized_at ≡ none
    pub paid : bought.transaction_completed_at ≡ some paid_at
    pub unsold : sold.transaction_completed_at ≡ none

  closed_tables : Tables
  closed_tables = record {
    runs = put_run (record run { finalized_at = some now }) tables.runs;
    legs = put_leg (close_leg now (sold_nothing sold)) (put_leg (close_leg now bought) tables.legs);
  }

  module _ (lost : Lost) where
    write_off_run-Lost :
        write_off_run run_id user_id now tables
        ≡ ok (record run { finalized_at = some now }, closed_tables)
    unfolding write_off_run write_off_owned closed_tables
    write_off_run-Lost =
        rw
          (
            lost.owned, write_off_owned, lost.still_open, lost.legs, lost.buys, lost.sells,
            lost.paid, lost.unsold,
          )
          refl

    bought_row : Elem bought tables.legs
    bought_row =
        (Elem-filter (λ leg. leg.run_id == run.id) tables.legs bought
          (subst (Elem bought) (sym lost.legs) (inl refl))).0

    sold_row : Elem sold tables.legs
    sold_row =
        (Elem-filter (λ leg. leg.run_id == run.id) tables.legs sold
          (subst (Elem sold) (sym lost.legs) (inr (inl refl)))).0

    two_rows : bought.id ≢ sold.id
    two_rows e =
        let only = Elem-OnlyRow sold tables.legs consistent.legs_distinct sold_row in
        let same = only_row sold bought tables.legs only bought_row e in
        let types : acquisition ≡ sale =
          sym lost.buys ∙ ap (λ (r : TradeLeg). r.leg_type) same ∙ lost.sells in
        cc

    closed_tables-legs : legs_of run.id closed_tables.legs ≡ closed_pair now bought sold
    unfolding closed_tables close_leg sold_nothing
    closed_tables-legs =
        legs_of-put_leg run.id sold (close_leg now (sold_nothing sold))
          (put_leg (close_leg now bought) tables.legs) refl refl
          (put_leg-OnlyRow sold (close_leg now bought) tables.legs two_rows
            (Elem-OnlyRow sold tables.legs consistent.legs_distinct sold_row))
        ∙ ap (put_leg (close_leg now (sold_nothing sold))) (
            legs_of-put_leg run.id bought (close_leg now bought) tables.legs refl refl
              (Elem-OnlyRow bought tables.legs consistent.legs_distinct bought_row)
            ∙ ap (put_leg (close_leg now bought)) lost.legs)
        ∙ put_pair now bought sold two_rows

    -- In consistent tables, writing off an open run of the caller, whose legs are one purchase that is
    -- recorded and one sale that is not, in this order, succeeds, stamps the run, and leaves legs whose
    -- profit is the loss of what the purchase cost and its fee.
    pub write_off_run-loss :
        (next : Tables) × (write_off_run run_id user_id now tables
          ≡ ok (record run { finalized_at = some now }, next))
        × (run_profit (legs_of run.id next.legs)
            ≡ pos 0 -ℤ amount bought -ℤ bought.cargo_transfer_fee)
    write_off_run-loss = (
      closed_tables,
      write_off_run-Lost,
      ap run_profit closed_tables-legs ∙ closed_pair-loss now bought sold lost.buys lost.sells,
    )
