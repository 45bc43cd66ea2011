-- ===== src/Ledger/Stamps.antt =====
-- A stamp of a leg, once set, stays (app/server/ledger_service.py).
use graphling.Prelude.{ℕ, ◌≡◌, refl, sym, subst, ◌∙◌, inl, inr, List, [], ◌∷◌, Floats, ap}
use graphling.Ledger.Models.{TradeLeg}
use graphling.Ledger.Tables.{Tables}
use graphling.Ledger.Create.{created_rows}
use graphling.Ledger.Created.{create-cases}
use graphling.Ledger.Requests.{
  Request, create, advance, purchase, sell, update, finalize, write_off, delete, new_tables, after,
  handle, serve,
}
use graphling.Ledger.Rows.{leg_key}
use graphling.Prelude.{Elem}
use graphling.Ledger.Edits.{Grows, Grows-refl, Rowwise}
use graphling.Ledger.Consistent.{Consistent}
use graphling.Ledger.Integrity.{serve-Edits, IsEdit}

-- The row's next version: the same leg, with every stamp of the row.
abbrev pub Survives : TradeLeg → List TradeLeg → Type 0
Survives row rows =
    (row' : TradeLeg) × Elem row' rows × (leg_key row' ≡ leg_key row) × Grows row row'

abbrev pub Removes : {floats : Floats} → Request floats → Type 0
Removes (delete run_id) = Unit
Removes _ = ⊥

Rowwise-Survives :
    (user_id : ℕ) (rows rows' : List TradeLeg) (row : TradeLeg)
    → Rowwise user_id rows rows'
    → Elem row rows
    → Survives row rows'
Rowwise-Survives user_id [] rows' row h m = absurd m
Rowwise-Survives user_id (r ∷ rows) [] row h m = absurd h
Rowwise-Survives user_id (r ∷ rows) (r' ∷ rows') row (inl e, h) (inl m) =
    (row, inl (m ∙ sym e), refl, Grows-refl row)
Rowwise-Survives user_id (r ∷ rows) (r' ∷ rows') row (inr e, h) (inl m) =
    (r', inl refl, e.key ∙ ap leg_key (sym m), subst (λ x. Grows x r') (sym m) e.grows)
Rowwise-Survives user_id (r ∷ rows) (r' ∷ rows') row (e, h) (inr m) =
    let (row', m', k, g) = Rowwise-Survives user_id rows rows' row h m in (row', inr m', k, g)

Edits-Survives :
    (floats : Floats) (request : Request floats) (user_id now later : ℕ) (tables : Tables)
    (row : TradeLeg)
    → Consistent tables
    → IsEdit request
    → Elem row tables.legs
    → Survives row (serve floats request user_id now later tables).legs
Edits-Survives floats request user_id now later tables row c edit m =
    Rowwise-Survives user_id tables.legs _ row
      (serve-Edits floats request user_id now later tables c edit).legs m

-- In consistent tables, under any request but a delete, every leg row stays in the table, as the same
-- leg, and each stamp that it has stays with the time that it has.
pub serve-Survives :
    (floats : Floats) (request : Request floats) (user_id now later : ℕ) (tables : Tables)
    (row : TradeLeg)
    → Consistent tables
    → ¬ Removes request
    → Elem row tables.legs
    → Survives row (serve floats request user_id now later tables).legs
unfolding serve handle created_rows
serve-Survives floats (create route quantity_scu ship new) user_id now later tables row c n m =
    create-cases floats route quantity_scu ship user_id new now tables
      (λ r. Survives row (after tables (new_tables r)).legs) (row, m, refl, Grows-refl row)
      (row, m, refl, Grows-refl row)
      (λ origin_price destination_price. (row, inr (inr m), refl, Grows-refl row))
serve-Survives floats (delete run_id) user_id now later tables row c n m = absurd (n tt)
serve-Survives floats (advance leg_id) user_id now later tables row c n m =
    Edits-Survives floats (advance leg_id) user_id now later tables row c tt m
serve-Survives floats (purchase leg_id transaction) user_id now later tables row c n m =
    Edits-Survives floats (purchase leg_id transaction) user_id now later tables row c tt m
serve-Survives floats (sell leg_id transaction) user_id now later tables row c n m =
    Edits-Survives floats (sell leg_id transaction) user_id now later tables row c tt m
serve-Survives floats (update leg_id correction) user_id now later tables row c n m =
    Edits-Survives floats (update leg_id correction) user_id now later tables row c tt m
serve-Survives floats (finalize run_id) user_id now later tables row c n m =
    Edits-Survives floats (finalize run_id) user_id now later tables row c tt m
serve-Survives floats (write_off run_id) user_id now later tables row c n m =
    Edits-Survives floats (write_off run_id) user_id now later tables row c tt m
