-- ===== src/Ledger/Isolation.antt =====
-- The tenancy boundary of app/server/ledger_service.py: a request touches no row of another pilot.
use graphling.Prelude.{
  ℕ, ◌≡◌, refl, sym, ap, subst, ◌∙◌, ◌≢◌, inl, inr, false, Bool-cases, not, some, List, [], ◌∷◌,
  map, filter, All, ◌==◌, ==_iff, arith, Floats,
}
use graphling.Ledger.Models.{TradeLeg, TradeRun}
use graphling.Ledger.Tables.{Tables, Result, ok, err, ◌>>=◌}
use graphling.Ledger.Owned.{get_owned_run}
use graphling.Ledger.Create.{created_rows}
use graphling.Ledger.Created.{create-cases}
use graphling.Ledger.Runs.{delete_run}
use graphling.Ledger.Requests.{
  Request, create, advance, purchase, sell, update, finalize, write_off, delete, new_tables, after,
  handle, serve,
}
use graphling.Ledger.Rows.{LegKey, leg_key}
use graphling.Ledger.Edits.{Rowwise}
use graphling.Ledger.RunEdits.{RunRowwise, OwnedRun, get_owned_run-OwnedRun, owner-run_with}
use graphling.Ledger.RunOperations.{Edits}
use graphling.Ledger.Consistent.{RunKey, run_key, DistinctRuns, owner, Consistent}
use graphling.Ledger.Integrity.{serve-Edits}

-- What one pilot has in the tables.
abbrev pub legs_of_pilot : ℕ → Tables → List TradeLeg
legs_of_pilot user_id tables = filter (λ leg. leg.user_id == user_id) tables.legs

abbrev pub runs_of_pilot : ℕ → Tables → List TradeRun
runs_of_pilot user_id tables = filter (λ run. run.user_id == user_id) tables.runs

abbrev pub SameForPilot : ℕ → Tables → Tables → Type 0
SameForPilot v tables next =
    (legs_of_pilot v next ≡ legs_of_pilot v tables)
    × (runs_of_pilot v next ≡ runs_of_pilot v tables)

module _ (user_id v : ℕ) (other : v ≢ user_id) where
  Rowwise-others :
      (rows rows' : List TradeLeg)
      → Rowwise user_id rows rows'
      → filter (λ leg. leg.user_id == v) rows' ≡ filter (λ leg. leg.user_id == v) rows
  Rowwise-others [] [] h = refl
  Rowwise-others [] (r ∷ rs) h = absurd h
  Rowwise-others (r ∷ rs) [] h = absurd h
  Rowwise-others (row ∷ rows) (row' ∷ rows') (inl e, h) = rw (e, Rowwise-others rows rows' h)
  Rowwise-others (row ∷ rows) (row' ∷ rows') (inr e, h) =
      let theirs : row'.user_id ≡ row.user_id = ap (λ (k : LegKey). k.user_id) e.key in
      let mine : row.user_id ≡ user_id = e.mine in
      ground (arith, Rowwise-others rows rows' h, theirs, mine)

  RunRowwise-others :
      (rows rows' : List TradeRun)
      → RunRowwise user_id rows rows'
      → filter (λ run. run.user_id == v) rows' ≡ filter (λ run. run.user_id == v) rows
  RunRowwise-others [] [] h = refl
  RunRowwise-others [] (r ∷ rs) h = absurd h
  RunRowwise-others (r ∷ rs) [] h = absurd h
  RunRowwise-others (row ∷ rows) (row' ∷ rows') (inl e, h) = rw (e, RunRowwise-others rows rows' h)
  RunRowwise-others (row ∷ rows) (row' ∷ rows') (inr (mine, key), h) =
      let theirs : row'.user_id ≡ row.user_id = ap (λ (k : RunKey). k.user_id) key in
      ground (arith, RunRowwise-others rows rows' h, theirs, mine)

  Edits-others : (tables next : Tables) → Edits user_id tables next → SameForPilot v tables next
  Edits-others tables next e =
      (Rowwise-others tables.legs next.legs e.legs, RunRowwise-others tables.runs next.runs e.runs)

  -- The legs that the cascade removes are the run's pilot's.
  cascade-others :
      (run_id : ℕ) (runs : List RunKey) (legs : List TradeLeg)
      → owner run_id runs ≡ some user_id
      → All (λ (k : LegKey). owner k.run_id runs ≡ some k.user_id) (map leg_key legs)
      → filter (λ leg. leg.user_id == v) (filter (λ leg. not (leg.run_id == run_id)) legs)
        ≡ filter (λ leg. leg.user_id == v) legs
  cascade-others run_id runs [] h owned = refl
  cascade-others run_id runs (leg ∷ legs) h owned = elim (Bool-cases (leg.run_id == run_id)) [
    | inl e ↦
        let same : owner leg.run_id runs ≡ some user_id =
          subst (λ n. owner n runs ≡ some user_id) (sym ((==_iff leg.run_id run_id).0 e)) h in
        let mine : leg.user_id ≡ user_id = cc (same, owned.0) in
        let rest = cascade-others run_id runs legs h owned.1 in ground (arith, e, mine, rest)
    | inr e ↦ ground (arith, e, cascade-others run_id runs legs h owned.1)
  ]

  removed-others :
      (run_id : ℕ) (runs : List TradeRun)
      → DistinctRuns (map run_key runs)
      → owner run_id (map run_key runs) ≡ some user_id
      → filter (λ run. run.user_id == v) (filter (λ run. not (run.id == run_id)) runs)
        ≡ filter (λ run. run.user_id == v) runs
  removed-others run_id [] d h = refl
  removed-others run_id (run ∷ runs) d h = elim (Bool-cases (run.id == run_id)) [
    | inl e ↦
        let mine : run.user_id ≡ user_id = ground (arith, e) in
        let rest = removed_absent run_id runs (
          subst (λ n. All (λ (k : RunKey). k.id ≢ n) (map run_key runs))
            ((==_iff run.id run_id).0 e) d.0) in
        ground (arith, e, mine, rest)
    | inr e ↦ let rest = removed-others run_id runs d.1 (rw e at h) in ground (arith, e, rest)
  ]
    where
      removed_absent :
          (run_id : ℕ) (runs : List TradeRun)
          → All (λ (k : RunKey). k.id ≢ run_id) (map run_key runs)
          → filter (λ run. run.user_id == v) (filter (λ run. not (run.id == run_id)) runs)
            ≡ filter (λ run. run.user_id == v) runs
      removed_absent run_id [] h = refl
      removed_absent run_id (run ∷ runs) h = elim (Bool-cases (run.id == run_id)) [
        | inl e ↦ absurd (h.0 ((==_iff run.id run_id).0 e))
        | inr e ↦ let rest = removed_absent run_id runs h.1 in ground (arith, e, rest)
      ]

  delete-others :
      (run_id : ℕ) (tables : Tables) (r : Result TradeRun)
      → ((run : TradeRun) → r ≡ ok run → OwnedRun tables run_id user_id run)
      → Consistent tables
      → SameForPilot v tables (
          after tables (
            r >>= λ run. ok (record {
              runs = filter (λ other. not (other.id == run.id)) tables.runs;
              legs = filter (λ leg. not (leg.run_id == run.id)) tables.legs;
            })))
  delete-others run_id tables (err e) h c = (refl, refl)
  delete-others run_id tables (ok run) h c =
      let o = h run refl in
      let owns : owner run.id (map run_key tables.runs) ≡ some user_id =
        subst (λ n. owner n (map run_key tables.runs) ≡ some user_id) (sym o.id)
          (owner-run_with run_id tables.runs run o.found ∙ ap some o.user) in
      (
        cascade-others run.id (map run_key tables.runs) tables.legs owns c.owned,
        removed-others run.id tables.runs c.runs_distinct owns,
      )

  -- In consistent tables a request of one pilot, refused or not, leaves every run and every leg of
  -- another pilot as it was.
  pub serve-SameForPilot :
      (floats : Floats) (request : Request floats) (now later : ℕ) (tables : Tables)
      → Consistent tables
      → SameForPilot v tables (serve floats request user_id now later tables)
  unfolding serve handle created_rows delete_run
  serve-SameForPilot floats (create route quantity_scu ship new) now later tables c =
      let stranger : (user_id == v) ≡ false = ground arith in
      create-cases floats route quantity_scu ship user_id new now tables
        (λ r. SameForPilot v tables (after tables (new_tables r))) (refl, refl) (refl, refl)
        (λ origin_price destination_price. (rw stranger refl, rw stranger refl))
  serve-SameForPilot floats (delete run_id) now later tables c =
      delete-others run_id tables (get_owned_run tables run_id user_id)
        (get_owned_run-OwnedRun tables run_id user_id) c
  serve-SameForPilot floats (advance leg_id) now later tables c =
      Edits-others tables _ (serve-Edits floats (advance leg_id) user_id now later tables c tt)
  serve-SameForPilot floats (purchase leg_id transaction) now later tables c =
      Edits-others tables _
        (serve-Edits floats (purchase leg_id transaction) user_id now later tables c tt)
  serve-SameForPilot floats (sell leg_id transaction) now later tables c =
      Edits-others tables _
        (serve-Edits floats (sell leg_id transaction) user_id now later tables c tt)
  serve-SameForPilot floats (update leg_id correction) now later tables c =
      Edits-others tables _
        (serve-Edits floats (update leg_id correction) user_id now later tables c tt)
  serve-SameForPilot floats (finalize run_id) now later tables c =
      Edits-others tables _ (serve-Edits floats (finalize run_id) user_id now later tables c tt)
  serve-SameForPilot floats (write_off run_id) now later tables c =
      Edits-others tables _ (serve-Edits floats (write_off run_id) user_id now later tables c tt)
