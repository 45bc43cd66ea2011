-- ===== src/Ledger/RunOperations.antt =====
-- The operations that close a run edit only rows of the pilot who asked
-- (app/server/ledger_service.py).
use graphling.Prelude.{
  ℕ, ◌≡◌, refl, sym, ap, subst, ◌∙◌, ◌≢◌, inl, inr, Bool, true, false, Option, none, some, List, [],
  ◌∷◌, map, ◌==◌, ==_iff,
}
use graphling.Ledger.Models.{LegType, acquisition, sale, TradeLeg, TradeRun, leg_type_eqb}
use graphling.Ledger.Tables.{
  Tables, Error, Result, ok, err, ◌>>=◌, ◌>>◌, raise_if, legs_of, put_leg, put_run, put_optional,
}
use graphling.Ledger.Owned.{get_owned_run}
use graphling.Ledger.Runs.{
  finalize_owned, write_off_owned, finalize_run, first_of_type, or_now, close_leg, sold_nothing,
  map_leg, write_off_run,
}
use graphling.Ledger.Rows.{LegKey, leg_key, OnlyRow, All-key, Elem-OnlyRow}
use graphling.Prelude.{Elem, Elem-find, Elem-filter}
use graphling.Ledger.Edits.{
  Kept, Grows, Rowwise, Rowwise-refl, Rowwise-trans, put_leg-Rowwise, put_leg-OnlyRow,
}
use graphling.Ledger.LegEdits.{Grows-of_stamps}
use graphling.Ledger.RunEdits.{
  RunRowwise, OwnedRun, get_owned_run-OwnedRun, owner-run_with, put_run-RunRowwise,
}
use graphling.Ledger.Consistent.{run_key, owner, Consistent}

-- Both tables are edited as the pilot may.
pub record Edits (user_id : ℕ) (tables next : Tables) : Type 0 where
  pub legs : Rowwise user_id tables.legs next.legs
  pub runs : RunRowwise user_id tables.runs next.runs

abbrev pub EditsOf {ℓ} : {A : Type ℓ} → ℕ → Tables → Result (A × Tables) → Type 0
EditsOf user_id tables (ok (a, next)) = Edits user_id tables next
EditsOf user_id tables (err e) = Unit

pub record EditsTables {ℓ} {A : Type ℓ} (user_id : ℕ) (tables : Tables) (r : Result (A × Tables))
    : Type 0 where
  pub edits : EditsOf user_id tables r

guard-EditsTables :
    (user_id : ℕ) (tables : Tables) (test : Bool) (e : Error) (r : Result (TradeRun × Tables))
    → (test ≡ false → EditsTables user_id tables r)
    → EditsTables user_id tables (raise_if test e >> r)
guard-EditsTables user_id tables true e r h = record { edits = tt }
guard-EditsTables user_id tables false e r h = h refl

bind-EditsTables :
    {A : Type 0} (user_id : ℕ) (tables : Tables) (m : Result A) (f : A → Result (TradeRun × Tables))
    → ((a : A) → m ≡ ok a → EditsTables user_id tables (f a))
    → EditsTables user_id tables (m >>= f)
bind-EditsTables user_id tables (ok a) f h = h a refl
bind-EditsTables user_id tables (err e) f h = record { edits = tt }

or_now-Kept : (now : ℕ) (old : Option ℕ) → Kept old (or_now now old)
or_now-Kept now none = tt
or_now-Kept now (some time) = refl

close_leg-Grows : (now : ℕ) (leg leg' : TradeLeg) → leg' ≡ close_leg now leg → Grows leg leg'
unfolding close_leg
close_leg-Grows now leg leg' e =
    subst (λ r. Grows leg r) (sym e)
      (Grows-of_stamps _ _ (or_now-Kept now _) (or_now-Kept now _) (or_now-Kept now _)
        (or_now-Kept now _) (or_now-Kept now _))

write_off_leg-Grows : (now : ℕ) (leg : TradeLeg) → Grows leg (close_leg now (sold_nothing leg))
unfolding close_leg sold_nothing
write_off_leg-Grows now leg =
    Grows-of_stamps _ _ (or_now-Kept now _) (or_now-Kept now _) (or_now-Kept now _)
      (or_now-Kept now _) (or_now-Kept now _)

-- A leg of the run, of the given type.
pub record LegOf (tables : Tables) (run_id : ℕ) (leg_type : LegType) (leg : TradeLeg) : Type 0 where
  pub row : Elem leg tables.legs
  pub run : leg.run_id ≡ run_id
  pub type : leg_type_eqb leg.leg_type leg_type ≡ true

pub first_of_type-LegOf :
    (tables : Tables) (run_id : ℕ) (leg_type : LegType) (leg : TradeLeg)
    → first_of_type leg_type (legs_of run_id tables.legs) ≡ some leg
    → LegOf tables run_id leg_type leg
first_of_type-LegOf tables run_id leg_type leg h =
    let (m, t) =
      Elem-find (λ l. leg_type_eqb l.leg_type leg_type) (legs_of run_id tables.legs) leg h in
    let (m', t') = Elem-filter (λ l. l.run_id == run_id) tables.legs leg m in
    record { row = m'; run = (==_iff leg.run_id run_id).0 t'; type = t }

type_ne : (a b : LegType) → leg_type_eqb a acquisition ≡ true → leg_type_eqb b sale ≡ true → b ≢ a
type_ne acquisition acquisition h k e = cc
type_ne acquisition sale h k e = cc
type_ne sale b h k e = cc

module _ (tables : Tables) (consistent : Consistent tables) (user_id run_id : ℕ) (run : TradeRun)
    (owned : OwnedRun tables run_id user_id run) where
  LegOf-user : (t : LegType) (leg : TradeLeg) → LegOf tables run.id t leg → leg.user_id ≡ user_id
  LegOf-user t leg l =
      let P : LegKey → Type 0 = λ k. owner k.run_id (map run_key tables.runs) ≡ some k.user_id in
      let mine = All-key P leg tables.legs consistent.owned l.row in
      let theirs = owner-run_with run_id tables.runs run owned.found in
      cc (mine, theirs, l.run, owned.user, owned.id)

  closed-runs :
      (run' : TradeRun)
      → run_key run' ≡ run_key run
      → RunRowwise user_id tables.runs (put_run run' tables.runs)
  closed-runs run' key =
      put_run-RunRowwise user_id run_id run run' tables.runs consistent.runs_distinct owned.found
        owned.id owned.user key

  leg-edit :
      (t : LegType) (leg leg' : TradeLeg)
      → LegOf tables run.id t leg
      → leg_key leg' ≡ leg_key leg
      → Grows leg leg'
      → Rowwise user_id tables.legs (put_leg leg' tables.legs)
  leg-edit t leg leg' l key grows =
      put_leg-Rowwise user_id leg leg' tables.legs
        (Elem-OnlyRow leg tables.legs consistent.legs_distinct l.row)
        (record { mine = LegOf-user t leg l; key = key; grows = grows })

  -- The purchase and the sale are two rows, so both can be written back.
  both-edit :
      (bought sold bought' sold' : TradeLeg)
      → LegOf tables run.id acquisition bought
      → LegOf tables run.id sale sold
      → leg_key bought' ≡ leg_key bought
      → Grows bought bought'
      → leg_key sold' ≡ leg_key sold
      → Grows sold sold'
      → Rowwise user_id tables.legs (put_leg sold' (put_leg bought' tables.legs))
  both-edit bought sold bought' sold' b s key grows key' grows' =
      Rowwise-trans user_id tables.legs (put_leg bought' tables.legs)
        (put_leg sold' (put_leg bought' tables.legs))
        (leg-edit acquisition bought bought' b key grows)
        (put_leg-Rowwise user_id sold sold' (put_leg bought' tables.legs)
          (put_leg-OnlyRow sold bought' tables.legs different
            (Elem-OnlyRow sold tables.legs consistent.legs_distinct s.row))
          (record { mine = LegOf-user sale sold s; key = key'; grows = grows' }))
    where
      only : OnlyRow bought tables.legs
      only = Elem-OnlyRow bought tables.legs consistent.legs_distinct b.row

      same_row :
          (legs : List TradeLeg)
          → OnlyRow bought legs
          → Elem sold legs
          → sold.id ≡ bought.id
          → sold ≡ bought
      same_row [] o m e = absurd m
      same_row (x ∷ xs) o (inl h) e = h ∙ o.0 (ap (λ (r : TradeLeg). r.id) (sym h) ∙ e)
      same_row (x ∷ xs) o (inr m) e = same_row xs o.1 m e

      different : bought'.id ≢ sold.id
      different e = type_ne bought.leg_type sold.leg_type b.type s.type (
          ap (λ (r : TradeLeg). r.leg_type)
            (same_row tables.legs only s.row (sym e ∙ ap (λ (k : LegKey). k.id) key)))

  closed-legs :
      (now : ℕ) (bought sold : Option TradeLeg)
      → ((leg : TradeLeg) → bought ≡ some leg → LegOf tables run.id acquisition leg)
      → ((leg : TradeLeg) → sold ≡ some leg → LegOf tables run.id sale leg)
      → Rowwise user_id tables.legs (
          put_optional
            (map_leg (λ leg. close_leg now (sold_nothing leg)) sold)
            (put_optional (map_leg (close_leg now) bought) tables.legs))
  unfolding close_leg sold_nothing
  closed-legs now none none b s = Rowwise-refl user_id tables.legs
  closed-legs now none (some sold) b s =
      leg-edit sale sold (close_leg now (sold_nothing sold)) (s sold refl) refl
        (write_off_leg-Grows now sold)
  closed-legs now (some bought) none b s =
      leg-edit acquisition bought (close_leg now bought) (b bought refl) refl
        (close_leg-Grows now bought _ refl)
  closed-legs now (some bought) (some sold) b s =
      both-edit bought sold (close_leg now bought) (close_leg now (sold_nothing sold))
        (b bought refl) (s sold refl) refl (close_leg-Grows now bought _ refl) refl
        (write_off_leg-Grows now sold)

abbrev finish_write_off : Tables → ℕ → TradeRun → Result (TradeRun × Tables)
finish_write_off tables now run = ok (
  record run { finalized_at = some now },
  record {
    runs = put_run (record run { finalized_at = some now }) tables.runs;
    legs =
        put_optional
          (map_leg (λ leg. close_leg now (sold_nothing leg))
            (first_of_type sale (legs_of run.id tables.legs)))
          (put_optional
            (map_leg (close_leg now) (first_of_type acquisition (legs_of run.id tables.legs)))
            tables.legs);
  },
)

module _ (tables : Tables) (consistent : Consistent tables) (user_id run_id : ℕ) where
  finish_write_off-EditsTables :
      (now : ℕ) (run : TradeRun)
      → OwnedRun tables run_id user_id run
      → EditsTables user_id tables (finish_write_off tables now run)
  finish_write_off-EditsTables now run owned = record {
    edits = record {
      legs =
          closed-legs tables consistent user_id run_id run owned now _ _
            (first_of_type-LegOf tables run.id acquisition)
            (first_of_type-LegOf tables run.id sale);
      runs = closed-runs tables consistent user_id run_id run owned _ refl;
    };
  }

  write_off_owned-EditsTables :
      (now : ℕ) (run : TradeRun)
      → OwnedRun tables run_id user_id run
      → EditsTables user_id tables (write_off_owned tables now run)
  unfolding write_off_owned
  write_off_owned-EditsTables now run owned =
      search (guard-EditsTables user_id tables, finish_write_off-EditsTables now run owned)

  pub write_off_run-EditsTables :
      (now : ℕ) → EditsTables user_id tables (write_off_run run_id user_id now tables)
  unfolding write_off_run
  write_off_run-EditsTables now =
      bind-EditsTables user_id tables (get_owned_run tables run_id user_id)
        (write_off_owned tables now)
        λ run h.
          write_off_owned-EditsTables now run (get_owned_run-OwnedRun tables run_id user_id run h)

  finish-EditsTables :
      (now : ℕ) (run : TradeRun)
      → OwnedRun tables run_id user_id run
      → EditsTables user_id tables (
          ok (
            record run { finalized_at = some now },
            record tables { runs = put_run (record run { finalized_at = some now }) tables.runs },
          ))
  finish-EditsTables now run owned = record {
    edits = record {
      legs = Rowwise-refl user_id tables.legs;
      runs = closed-runs tables consistent user_id run_id run owned _ refl;
    };
  }

  finalize_owned-EditsTables :
      (now : ℕ) (run : TradeRun)
      → OwnedRun tables run_id user_id run
      → EditsTables user_id tables (finalize_owned tables now run)
  unfolding finalize_owned
  finalize_owned-EditsTables now run owned =
      search (guard-EditsTables user_id tables, finish-EditsTables now run owned)

  pub finalize_run-EditsTables :
      (now : ℕ) → EditsTables user_id tables (finalize_run run_id user_id now tables)
  unfolding finalize_run
  finalize_run-EditsTables now =
      bind-EditsTables user_id tables (get_owned_run tables run_id user_id)
        (finalize_owned tables now)
        λ run h.
          finalize_owned-EditsTables now run (get_owned_run-OwnedRun tables run_id user_id run h)
