-- ===== src/Ledger/LegOperations.antt =====
-- Each operation on one leg edits only rows of the pilot who asked (app/server/ledger_service.py).
use graphling.Prelude.{
  ℤ, ℕ, ◌≡◌, refl, subst, inl, inr, Bool, true, false, Option-cases, Option, none, some, is_none,
  is_some, if◌then◌else◌, arith,
}
use graphling.Ledger.Models.{finalized_at, TradeLeg, stamp, milestone_eqb}
use graphling.Ledger.Milestones.{next_unset_field}
use graphling.Ledger.Tables.{
  Tables, Error, Result, ok, ◌>>=◌, ◌>>◌, raise_if, siblings, scalar_one_or_none, put_leg,
  put_optional,
}
use graphling.Ledger.Owned.{get_owned_leg}
use graphling.Ledger.Legs.{
  advance_owned, advance_to, purchase_owned, sale_owned, update_owned, Transaction, Correction,
  advanceable, start_sibling, advance_leg, apply_transaction, carry_forward, record_purchase,
  record_sale, correct, update_transaction,
}
use graphling.Ledger.OwnedRows.{
  Owned, get_owned_leg-Owned, Sibling, siblings-Sibling, own-Rowwise, pair-Rowwise,
}
use graphling.Ledger.Rows.{leg_key}
use graphling.Ledger.LegEdits.{
  EditsLegs, bind-EditsLegs, Kept_if_none, Grows-of_stamps, stamp-Grows, stamp-key,
  advanceable-unset, if_sibling,
}
use graphling.Ledger.Edits.{Kept, Kept-refl, Grows, Rowwise}
use graphling.Ledger.Consistent.{Consistent}

module _ (tables : Tables) (consistent : Consistent tables) (user_id : ℕ) where
  put-Sibling-EditsLegs :
      (leg_id : ℕ) (leg leg' : TradeLeg) (sibling : Option TradeLeg)
      (f : Option TradeLeg → Option TradeLeg)
      → Owned tables leg_id user_id leg
      → leg_key leg' ≡ leg_key leg
      → Grows leg leg'
      → ((s : TradeLeg) → sibling ≡ some s → Sibling tables leg s)
      → f none ≡ none
      → ((s s' : TradeLeg) → f (some s) ≡ some s' → (leg_key s' ≡ leg_key s) × Grows s s')
      → Rowwise user_id tables.legs (put_optional (f sibling) (put_leg leg' tables.legs))
  put-Sibling-EditsLegs leg_id leg leg' none f found key grows sib at_none at_some =
      rw at_none (own-Rowwise tables consistent leg_id user_id leg found leg' key grows)
  put-Sibling-EditsLegs leg_id leg leg' (some s) f found key grows sib at_none at_some =
      elim (Option-cases (f (some s))) [
        | inl e ↦ rw e (own-Rowwise tables consistent leg_id user_id leg found leg' key grows)
        | inr (s', e) ↦
            let (key', grows') = at_some s s' e in
            rw e (
              pair-Rowwise tables consistent leg_id user_id leg found leg' s s' key grows
                (sib s refl) key' grows')
      ]

  start_sibling-edits :
      (later : ℕ) (s s' : TradeLeg)
      → start_sibling later (some s) ≡ some s'
      → (leg_key s' ≡ leg_key s) × Grows s s'
  start_sibling-edits later s s' h = elim (Option-cases s.started_at) [
    | inl e ↦
        let same : record s { started_at = some later } ≡ s' = ground (arith, e) in
        subst (λ r. (leg_key r ≡ leg_key s) × Grows s r) same
          (
            refl,
            Grows-of_stamps _ _ (Kept_if_none _ _ e) (Kept-refl _) (Kept-refl _) (Kept-refl _)
                (Kept-refl _),
          )
    | inr (t, e) ↦ absurd (let z : ⊥ = ground (arith, e) in z)
  ]

  advance_owned-EditsLegs :
      (leg_id now later : ℕ) (leg : TradeLeg)
      → Owned tables leg_id user_id leg
      → EditsLegs user_id tables (advance_owned tables now later leg)
  unfolding advance_owned
  advance_owned-EditsLegs leg_id now later leg found =
      bind-EditsLegs user_id tables (advanceable (next_unset_field leg))
        (advance_to tables now later leg)
        λ field a.
          bind-EditsLegs user_id tables
            (if milestone_eqb field finalized_at
              then scalar_one_or_none (siblings leg tables.legs)
              else ok none)
            (λ sibling. ok (
              stamp field now leg,
              record tables {
                legs =
                    put_optional (start_sibling later sibling)
                      (put_leg (stamp field now leg) tables.legs);
              },
            ))
            λ sibling e. record {
              rows = (
                put-Sibling-EditsLegs leg_id leg (stamp field now leg) sibling (start_sibling later)
                    found (stamp-key field now leg)
                    (stamp-Grows field now leg (advanceable-unset leg field a))
                    (λ s same.
                      siblings-Sibling tables leg s
                        (if_sibling (milestone_eqb field finalized_at) _ s (rw same at e)))
                    refl (start_sibling-edits later),
                refl,
              );
            }

  -- `advance_leg` edits only the caller's rows.
  pub advance_leg-EditsLegs :
      (leg_id now later : ℕ)
      → EditsLegs user_id tables (advance_leg leg_id user_id now later tables)
  unfolding advance_leg
  advance_leg-EditsLegs leg_id now later =
      bind-EditsLegs user_id tables (get_owned_leg tables leg_id user_id)
        (advance_owned tables now later)
        λ leg h.
          advance_owned-EditsLegs leg_id now later leg
            (get_owned_leg-Owned tables leg_id user_id leg h)

  carry_forward-edits :
      (quantity_scu : ℤ) (s s' : TradeLeg)
      → carry_forward quantity_scu (some s) ≡ some s'
      → (leg_key s' ≡ leg_key s) × Grows s s'
  carry_forward-edits quantity_scu s s' h = elim (Option-cases s.transaction_completed_at) [
    | inl e ↦
        let same : record s { quantity_scu = quantity_scu } ≡ s' = ground (arith, e) in
        subst (λ r. (leg_key r ≡ leg_key s) × Grows s r) same
          (
            refl,
            Grows-of_stamps _ _ (Kept-refl _) (Kept-refl _) (Kept-refl _) (Kept-refl _)
                (Kept-refl _),
          )
    | inr (t, e) ↦ absurd (let z : ⊥ = ground (arith, e) in z)
  ]

  apply_transaction-Grows :
      (leg : TradeLeg) (transaction : Transaction) (also : Bool) (now later : ℕ)
      → is_some leg.transaction_completed_at ≡ false
      → (also ≡ true → is_none leg.transferred_at ≡ true)
      → Grows leg (apply_transaction leg transaction also now later)
  unfolding apply_transaction
  apply_transaction-Grows leg transaction also now later pending blank =
      Grows-of_stamps _ _ (Kept-refl _) (Kept-refl _) (Kept_if_none _ _ (none_of _ pending))
        (transferred also blank) (Kept-refl _)
    where
      none_of : (o : Option ℕ) → is_some o ≡ false → o ≡ none
      none_of none h = refl
      none_of (some time) h = absurd (let z : ⊥ = cc in z)

      blank_of : (o : Option ℕ) → is_none o ≡ true → o ≡ none
      blank_of none h = refl
      blank_of (some time) h = absurd (let z : ⊥ = cc in z)

      transferred :
          (b : Bool)
          → (b ≡ true → is_none leg.transferred_at ≡ true)
          → Kept leg.transferred_at (if b then some later else leg.transferred_at)
      transferred true h = Kept_if_none _ _ (blank_of _ (h refl))
      transferred false h = Kept-refl _

  guard-EditsLegs :
      (test : Bool) (e : Error) (r : Result (TradeLeg × Tables))
      → (test ≡ false → EditsLegs user_id tables r)
      → EditsLegs user_id tables (raise_if test e >> r)
  guard-EditsLegs true e r h = record { rows = tt }
  guard-EditsLegs false e r h = h refl

  purchase-EditsLegs :
      (leg_id now : ℕ) (transaction : Transaction) (leg : TradeLeg)
      → Owned tables leg_id user_id leg
      → is_some leg.transaction_completed_at ≡ false
      → EditsLegs user_id tables (
          scalar_one_or_none (siblings leg tables.legs) >>= λ sale_leg. ok (
            apply_transaction leg transaction false now now,
            record tables {
              legs =
                  put_optional
                    (carry_forward transaction.quantity_scu sale_leg)
                    (put_leg (apply_transaction leg transaction false now now) tables.legs);
            },
          ))
  unfolding apply_transaction
  purchase-EditsLegs leg_id now transaction leg found pending =
      bind-EditsLegs user_id tables (scalar_one_or_none (siblings leg tables.legs)) _ λ sale_leg e.
        record {
          rows = (
            put-Sibling-EditsLegs leg_id leg (apply_transaction leg transaction false now now)
                sale_leg (carry_forward transaction.quantity_scu) found refl
                (apply_transaction-Grows leg transaction false now now pending (λ t. cc))
                (λ s same. siblings-Sibling tables leg s (rw same at e)) refl
                (carry_forward-edits transaction.quantity_scu),
            refl,
          );
        }

  purchase_owned-EditsLegs :
      (leg_id now : ℕ) (transaction : Transaction) (leg : TradeLeg)
      → Owned tables leg_id user_id leg
      → EditsLegs user_id tables (purchase_owned tables transaction now leg)
  unfolding purchase_owned
  purchase_owned-EditsLegs leg_id now transaction leg found =
      search (guard-EditsLegs, purchase-EditsLegs leg_id now transaction leg found)

  put_own-EditsLegs :
      (leg_id : ℕ) (leg leg' : TradeLeg)
      → Owned tables leg_id user_id leg
      → leg_key leg' ≡ leg_key leg
      → Grows leg leg'
      → EditsLegs user_id tables (ok (leg', record tables { legs = put_leg leg' tables.legs }))
  put_own-EditsLegs leg_id leg leg' found key grows = record {
    rows = (own-Rowwise tables consistent leg_id user_id leg found leg' key grows, refl);
  }

  sale_owned-EditsLegs :
      (leg_id now later : ℕ) (transaction : Transaction) (leg : TradeLeg)
      → Owned tables leg_id user_id leg
      → EditsLegs user_id tables (sale_owned tables transaction now later leg)
  unfolding sale_owned
  sale_owned-EditsLegs leg_id now later transaction leg found =
      let also = is_none leg.transferred_at in
      search (
        guard-EditsLegs,
        λ (pending : is_some leg.transaction_completed_at ≡ false).
            put_own-EditsLegs leg_id leg (apply_transaction leg transaction also now later) found
              refl (apply_transaction-Grows leg transaction also now later pending (λ t. t)),
      )

  update_owned-EditsLegs :
      (leg_id : ℕ) (c : Correction) (leg : TradeLeg)
      → Owned tables leg_id user_id leg
      → EditsLegs user_id tables (update_owned tables c leg)
  unfolding update_owned
  update_owned-EditsLegs leg_id c leg found = search (
    guard-EditsLegs,
    put_own-EditsLegs leg_id leg (correct c leg) found refl
        (Grows-of_stamps _ _ (Kept-refl _) (Kept-refl _) (Kept-refl _) (Kept-refl _) (Kept-refl _)),
  )

  pub record_purchase-EditsLegs :
      (leg_id now : ℕ) (transaction : Transaction)
      → EditsLegs user_id tables (record_purchase leg_id transaction user_id now tables)
  unfolding record_purchase
  record_purchase-EditsLegs leg_id now transaction =
      bind-EditsLegs user_id tables (get_owned_leg tables leg_id user_id)
        (purchase_owned tables transaction now)
        λ leg h.
          purchase_owned-EditsLegs leg_id now transaction leg
            (get_owned_leg-Owned tables leg_id user_id leg h)

  pub record_sale-EditsLegs :
      (leg_id now later : ℕ) (transaction : Transaction)
      → EditsLegs user_id tables (record_sale leg_id transaction user_id now later tables)
  unfolding record_sale
  record_sale-EditsLegs leg_id now later transaction =
      bind-EditsLegs user_id tables (get_owned_leg tables leg_id user_id)
        (sale_owned tables transaction now later)
        λ leg h.
          sale_owned-EditsLegs leg_id now later transaction leg
            (get_owned_leg-Owned tables leg_id user_id leg h)

  pub update_transaction-EditsLegs :
      (leg_id : ℕ) (c : Correction)
      → EditsLegs user_id tables (update_transaction leg_id c user_id tables)
  unfolding update_transaction
  update_transaction-EditsLegs leg_id c =
      bind-EditsLegs user_id tables (get_owned_leg tables leg_id user_id) (update_owned tables c)
        λ leg h.
          update_owned-EditsLegs leg_id c leg (get_owned_leg-Owned tables leg_id user_id leg h)
