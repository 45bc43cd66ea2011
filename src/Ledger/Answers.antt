-- ===== src/Ledger/Answers.antt =====
-- How a refused request is answered (app/server/routes/ledger.py): which errors the operations of
-- app/server/ledger_service.py end in.
use graphling.Prelude.{
  ℤ, Bool, true, false, not, ℕ, ◌≡◌, refl, ◌≢◌, ◌⊎◌, inl, inr, Option, none, some, arith, Floats,
}
use graphling.Ledger.Models.{TradeRun}
use graphling.Ledger.Tables.{
  Tables, Error, not_found, multiple_results, out_of_range, not_finite, already_finalized,
  needs_transaction, not_an_acquisition, purchase_recorded, not_a_sale, sale_recorded,
  run_finalized, negative_amount, unfinished_legs, no_recorded_purchase, Result, ok, err, ◌>>=◌,
  ◌>>◌, raise_if,
}
use graphling.Ledger.Owned.{get_owned_leg, get_owned_run}
use graphling.Ledger.Legs.{
  Transaction, Correction, fits, fits_corrected, advance_leg, advance_owned, advance_to,
  record_purchase, purchase_owned, record_sale, sale_owned, update_transaction, update_owned,
}
use graphling.Ledger.Runs.{finalize_run, finalize_owned, write_off_run, write_off_owned, delete_run}
use graphling.Ledger.Requests.{
  Request, create, advance, purchase, sell, update, finalize, write_off, delete, new_tables, handle,
  status_code,
}
use graphling.Ledger.Create.{created_rows, rounded, columns_fit, create_run_from_route}
use graphling.Ledger.OwnedRows.{get_owned_leg-Owned}
use graphling.Ledger.Consistent.{Consistent}
use graphling.Ledger.Siblings.{siblings_total}

get_owned_leg-errors :
    (tables : Tables) (leg_id user_id : ℕ) (e : Error)
    → get_owned_leg tables leg_id user_id ≡ err e
    → e ≡ not_found
unfolding get_owned_leg
get_owned_leg-errors tables leg_id user_id e h = ground arith

get_owned_run-errors :
    (tables : Tables) (run_id user_id : ℕ) (e : Error)
    → get_owned_run tables run_id user_id ≡ err e
    → e ≡ not_found
unfolding get_owned_run
get_owned_run-errors tables run_id user_id e h = ground arith

Result-cases {ℓ} :
    {A : Type ℓ} (r : Result A) → ((a : A) × (r ≡ ok a)) ⊎ ((e : Error) × (r ≡ err e))
Result-cases (ok a) = inl (a, refl)
Result-cases (err e) = inr (e, refl)

-- The errors that are answered 500.
abbrev pub is_server_error : Error → Bool
is_server_error multiple_results = true
is_server_error out_of_range = true
is_server_error not_finite = true
is_server_error _ = false

abbrev created_fits : ℕ → ℕ → ℤ → Option ℤ → Option ℤ → Bool
created_fits origin_id destination_id quantity_scu (some a) (some b) =
    columns_fit origin_id destination_id quantity_scu a b
created_fits origin_id destination_id quantity_scu _ _ = false

-- Are the prices finite, and the amounts within their columns?
unfoldable pub amounts_fit : (floats : Floats) → Request floats → Bool
amounts_fit floats (create route quantity_scu ship new) =
    created_fits route.origin_terminal_id route.destination_terminal_id quantity_scu
      (floats.round route.price_origin) (floats.round route.price_destination)
amounts_fit floats (purchase leg_id transaction) = fits transaction
amounts_fit floats (sell leg_id transaction) = fits transaction
amounts_fit floats (update leg_id correction) = fits_corrected correction
amounts_fit floats _ = true

module _ (tables : Tables) (c : Consistent tables) (x : Error)
    (server : is_server_error x ≡ true) where
  advance_leg-errors :
      (leg_id user_id now later : ℕ) → advance_leg leg_id user_id now later tables ≢ err x
  unfolding advance_leg advance_owned advance_to
  advance_leg-errors leg_id user_id now later h =
      elim (Result-cases (get_owned_leg tables leg_id user_id)) [
        | inl (leg, e) ↦
            let o = get_owned_leg-Owned tables leg_id user_id leg e in
            let (s, found) = siblings_total tables leg c o.row in ground (arith, e, found)
        | inr (y, e) ↦ ground (arith, e, get_owned_leg-errors tables leg_id user_id y e)
      ]

  record_purchase-errors :
      (leg_id user_id now : ℕ) (transaction : Transaction)
      → fits transaction ≡ true
      → record_purchase leg_id transaction user_id now tables ≢ err x
  unfolding record_purchase purchase_owned
  record_purchase-errors leg_id user_id now transaction fit h =
      elim (Result-cases (get_owned_leg tables leg_id user_id)) [
        | inl (leg, e) ↦
            let o = get_owned_leg-Owned tables leg_id user_id leg e in
            let (s, found) = siblings_total tables leg c o.row in ground (arith, e, found)
        | inr (y, e) ↦ ground (arith, e, get_owned_leg-errors tables leg_id user_id y e)
      ]

  record_sale-errors :
      (leg_id user_id now later : ℕ) (transaction : Transaction)
      → fits transaction ≡ true
      → record_sale leg_id transaction user_id now later tables ≢ err x
  unfolding record_sale sale_owned
  record_sale-errors leg_id user_id now later transaction fit h =
      elim (Result-cases (get_owned_leg tables leg_id user_id)) [
        | inl (leg, e) ↦ ground (arith, e)
        | inr (y, e) ↦ ground (arith, e, get_owned_leg-errors tables leg_id user_id y e)
      ]

  update_transaction-errors :
      (leg_id user_id : ℕ) (correction : Correction)
      → fits_corrected correction ≡ true
      → update_transaction leg_id correction user_id tables ≢ err x
  unfolding update_transaction update_owned
  update_transaction-errors leg_id user_id correction fit h =
      elim (Result-cases (get_owned_leg tables leg_id user_id)) [
        | inl (leg, e) ↦ ground (arith, e)
        | inr (y, e) ↦ ground (arith, e, get_owned_leg-errors tables leg_id user_id y e)
      ]

  finalize_run-errors : (run_id user_id now : ℕ) → finalize_run run_id user_id now tables ≢ err x
  unfolding finalize_run finalize_owned
  finalize_run-errors run_id user_id now h =
      elim (Result-cases (get_owned_run tables run_id user_id)) [
        | inl (run, e) ↦ ground (arith, e)
        | inr (y, e) ↦ ground (arith, e, get_owned_run-errors tables run_id user_id y e)
      ]

  write_off_run-errors : (run_id user_id now : ℕ) → write_off_run run_id user_id now tables ≢ err x
  unfolding write_off_run write_off_owned
  write_off_run-errors run_id user_id now h =
      elim (Result-cases (get_owned_run tables run_id user_id)) [
        | inl (run, e) ↦ ground (arith, e)
        | inr (y, e) ↦ ground (arith, e, get_owned_run-errors tables run_id user_id y e)
      ]

  delete_run-errors : (run_id user_id : ℕ) → delete_run run_id user_id tables ≢ err x
  unfolding delete_run
  delete_run-errors run_id user_id h = elim (Result-cases (get_owned_run tables run_id user_id)) [
    | inl (run, e) ↦ ground (arith, e)
    | inr (y, e) ↦ ground (arith, e, get_owned_run-errors tables run_id user_id y e)
  ]

  new_tables-errors : {A : Type 0} (r : Result (A × Tables)) → r ≢ err x → new_tables r ≢ err x
  new_tables-errors (ok (a, next)) h e = cc
  new_tables-errors (err y) h e = h (cc)

  created-errors :
      (origin_id destination_id : ℕ) (quantity_scu : ℤ) (a b : Option ℤ)
      (rows : ℤ → ℤ → TradeRun × Tables)
      → created_fits origin_id destination_id quantity_scu a b ≡ true
      → new_tables (
          rounded a >>= λ origin_price. rounded b >>= λ destination_price.
          raise_if
            (not (columns_fit origin_id destination_id quantity_scu origin_price destination_price))
            out_of_range
          >> ok (rows origin_price destination_price))
        ≢ err x
  created-errors o d q none b rows fit h = let z : ⊥ = cc (fit) in z
  created-errors o d q (some a) none rows fit h = let z : ⊥ = cc (fit) in z
  created-errors o d q (some a) (some b) rows fit h =
      let h' = rw fit at h in let z : ⊥ = cc (h') in z

  handle-errors :
      (floats : Floats) (request : Request floats) (user_id now later : ℕ)
      → amounts_fit floats request ≡ true
      → handle floats request user_id now later tables ≢ err x
  unfolding handle amounts_fit create_run_from_route
  handle-errors floats (create route quantity_scu ship new) user_id now later fit =
      created-errors route.origin_terminal_id route.destination_terminal_id quantity_scu
        (floats.round route.price_origin) (floats.round route.price_destination)
        (λ origin_price destination_price.
          created_rows floats route quantity_scu ship user_id new now origin_price destination_price
            tables)
        fit
  handle-errors floats (advance leg_id) user_id now later fit =
      new_tables-errors _ (advance_leg-errors leg_id user_id now later)
  handle-errors floats (purchase leg_id transaction) user_id now later fit =
      new_tables-errors _ (record_purchase-errors leg_id user_id now transaction fit)
  handle-errors floats (sell leg_id transaction) user_id now later fit =
      new_tables-errors _ (record_sale-errors leg_id user_id now later transaction fit)
  handle-errors floats (update leg_id correction) user_id now later fit =
      new_tables-errors _ (update_transaction-errors leg_id user_id correction fit)
  handle-errors floats (finalize run_id) user_id now later fit =
      new_tables-errors _ (finalize_run-errors run_id user_id now)
  handle-errors floats (write_off run_id) user_id now later fit =
      new_tables-errors _ (write_off_run-errors run_id user_id now)
  handle-errors floats (delete run_id) user_id now later fit = delete_run-errors run_id user_id

-- In consistent tables a request that is refused is answered 404 or 400, and never 500, where its
-- amounts fit their columns and the prices of its route are finite.
pub handle-status_code :
    (tables : Tables)
    → Consistent tables
    → (floats : Floats) (request : Request floats) (user_id now later : ℕ) (e : Error)
    → amounts_fit floats request ≡ true
    → handle floats request user_id now later tables ≡ err e
    → (status_code e ≡ 404) ⊎ (status_code e ≡ 400)
unfolding status_code
handle-status_code tables c floats request user_id now later e fit h = go e h
  where
    go :
        (e : Error)
        → handle floats request user_id now later tables ≡ err e
        → (status_code e ≡ 404) ⊎ (status_code e ≡ 400)
    go multiple_results h =
        absurd (handle-errors tables c multiple_results refl floats request user_id now later fit h)
    go out_of_range h =
        absurd (handle-errors tables c out_of_range refl floats request user_id now later fit h)
    go not_finite h =
        absurd (handle-errors tables c not_finite refl floats request user_id now later fit h)
    go not_found h = inl refl
    go already_finalized h = inr refl
    go needs_transaction h = inr refl
    go not_an_acquisition h = inr refl
    go purchase_recorded h = inr refl
    go not_a_sale h = inr refl
    go sale_recorded h = inr refl
    go run_finalized h = inr refl
    go negative_amount h = inr refl
    go unfinished_legs h = inr refl
    go no_recorded_purchase h = inr refl
