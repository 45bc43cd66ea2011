-- ===== src/Tools/CatchUp.antt =====
-- The loop that brings a leg up to its transaction (`catch_up_before_transaction` of
-- app/ledger_client.py), and the purchase that follows it.
use graphling.Prelude.{
  ℕ, zero, suc, ◌≤◌, ◌≡◌, refl, subst, ◌∙◌, true, false, ◌⊎◌, inl, inr, Option, none, some, is_some,
  arith, whole_floats,
}
use graphling.Ledger.Models.{
  LegType, acquisition, sale, CargoTransferType, manual, autoload, LegMilestone, reached_at,
  transaction_completed_at, transferred_at, TradeLeg, stamp,
}
use graphling.Ledger.Milestones.{next_unset_field, milestone_sequence}
use graphling.Ledger.Tables.{Tables, Result, ok}
use graphling.Ledger.Owned.{get_owned_leg}
use graphling.Ledger.Written.{get_owned_leg-put_leg}
use graphling.Ledger.OwnedRows.{get_owned_leg-Owned}
use graphling.Ledger.Legs.{advance_leg}
use graphling.Ledger.Requests.{advance, serve, handle}
use graphling.Ledger.Consistent.{Consistent}
use graphling.Ledger.Integrity.{serve-Consistent}
use graphling.Ledger.Progress.{steps_left, steps_left-stamp, advanced, plain}
use graphling.Tools.Updates.{catch_up_before_transaction, is_due}

-- The next milestone of a leg without its transaction.
pub next-unpaid :
    (leg : TradeLeg)
    → leg.transaction_completed_at ≡ none
    → (next_unset_field leg ≡ some reached_at)
      ⊎ ((next_unset_field leg ≡ some transferred_at)
          ⊎ (next_unset_field leg ≡ some transaction_completed_at))
unfolding next_unset_field milestone_sequence
next-unpaid leg h =
    go leg.leg_type leg.cargo_transfer_type leg.reached_at leg.transferred_at refl refl refl refl
  where
    go :
        (t : LegType) (c : CargoTransferType) (r u : Option ℕ)
        → leg.leg_type ≡ t
        → leg.cargo_transfer_type ≡ c
        → leg.reached_at ≡ r
        → leg.transferred_at ≡ u
        → (next_unset_field leg ≡ some reached_at)
          ⊎ ((next_unset_field leg ≡ some transferred_at)
              ⊎ (next_unset_field leg ≡ some transaction_completed_at))
    go t c none u et ec er eu = inl (ground (arith, et, ec, er))
    go acquisition c (some r) u et ec er eu = inr (inr (rw (et, er, h) refl))
    go sale autoload (some r) u et ec er eu = inr (inr (rw (et, ec, er, h) refl))
    go sale manual (some r) none et ec er eu = inr (inl (rw (et, ec, er, eu) refl))
    go sale manual (some r) (some u) et ec er eu = inr (inr (rw (et, ec, er, eu, h) refl))

pub steps_left-le : (leg : TradeLeg) → steps_left leg ≤ 4
unfolding steps_left milestone_sequence
steps_left-le leg = ground arith

-- A leg that is due for its transaction has arrived.
pub due-reached :
    (leg : TradeLeg)
    → next_unset_field leg ≡ some transaction_completed_at
    → is_some leg.reached_at ≡ true
unfolding next_unset_field milestone_sequence
due-reached leg due = go leg.leg_type leg.cargo_transfer_type leg.reached_at refl refl refl
  where
    go :
        (t : LegType) (c : CargoTransferType) (r : Option ℕ)
        → leg.leg_type ≡ t
        → leg.cargo_transfer_type ≡ c
        → leg.reached_at ≡ r
        → is_some leg.reached_at ≡ true
    go t c (some r) et ec er = rw er refl
    go t c none et ec er = absurd (let z : ⊥ = ground (arith, et, ec, er, due) in z)

-- The loop has returned the leg of the pilot, due for its transaction.
pub record Ready (leg : TradeLeg) (user_id : ℕ) (r : Result TradeLeg × Tables) : Type 0 where
  pub tables : Tables
  pub caught_up : TradeLeg
  pub returned : r ≡ (ok caught_up, tables)
  pub due : next_unset_field caught_up ≡ some transaction_completed_at
  pub owned : get_owned_leg tables leg.id user_id ≡ ok caught_up
  pub consistent : Consistent tables
  pub unpaid : caught_up.transaction_completed_at ≡ none
  pub same_id : caught_up.id ≡ leg.id
  pub same_type : caught_up.leg_type ≡ leg.leg_type

module _ (user_id : ℕ) (times : ℕ → ℕ × ℕ) where
  advanced-Consistent :
      (tables : Tables) (consistent : Consistent tables) (leg_id now later : ℕ) (leg : TradeLeg)
      (owned : get_owned_leg tables leg_id user_id ≡ ok leg) (field : LegMilestone)
      → advance_leg leg_id user_id now later tables
        ≡ ok (
          stamp field now leg,
          advanced tables consistent leg_id user_id now later leg owned field none,
        )
      → Consistent (advanced tables consistent leg_id user_id now later leg owned field none)
  unfolding serve handle
  advanced-Consistent tables consistent leg_id now later leg owned field e =
      rw e at
        (serve-Consistent whole_floats (advance leg_id) user_id now later tables consistent tt)

  Ready-of_same :
      (leg other : TradeLeg) (r : Result TradeLeg × Tables)
      → other.id ≡ leg.id
      → other.leg_type ≡ leg.leg_type
      → Ready other user_id r
      → Ready leg user_id r
  Ready-of_same leg other r e f h = record {
    tables = h.tables;
    caught_up = h.caught_up;
    returned = h.returned;
    due = h.due;
    owned = subst (λ i. get_owned_leg h.tables i user_id ≡ ok h.caught_up) e h.owned;
    consistent = h.consistent;
    unpaid = h.unpaid;
    same_id = h.same_id ∙ e;
    same_type = h.same_type ∙ f;
  }

  no_steps :
      (leg : TradeLeg) (field : LegMilestone)
      → next_unset_field leg ≡ some field
      → steps_left leg ≤ 0
      → ⊥
  no_steps leg field h e = omega (arith, steps_left-stamp leg field 0 h, e)

  -- A round of the loop, for what follows it.
  round :
      (fuel : ℕ) (leg : TradeLeg) (tables : Tables) (c : Consistent tables)
      (owned : get_owned_leg tables leg.id user_id ≡ ok leg) (field : LegMilestone)
      → next_unset_field leg ≡ some field
      → is_due (some field) ≡ false
      → (stamp field (times fuel).0 leg).id ≡ leg.id
      → (stamp field (times fuel).0 leg).leg_type ≡ leg.leg_type
      → advance_leg leg.id user_id (times fuel).0 (times fuel).1 tables
        ≡ ok (
          stamp field (times fuel).0 leg,
          advanced tables c leg.id user_id (times fuel).0 (times fuel).1 leg owned field none,
        )
      → Ready (stamp field (times fuel).0 leg) user_id (
          catch_up_before_transaction user_id fuel times
            (stamp field (times fuel).0 leg)
            (advanced tables c leg.id user_id (times fuel).0 (times fuel).1 leg owned field none))
      → Ready leg user_id (catch_up_before_transaction user_id (suc fuel) times leg tables)
  unfolding catch_up_before_transaction
  round fuel leg tables c owned field h due id type e r =
      rw (h, due, e)
        (Ready-of_same leg (stamp field (times fuel).0 leg)
          (catch_up_before_transaction user_id fuel times (stamp field (times fuel).0 leg)
            (advanced tables c leg.id user_id (times fuel).0 (times fuel).1 leg owned field none))
          id type r)

  -- In consistent tables a leg of the pilot that has no transaction yet is brought up to it: with fuel
  -- for the milestones it lacks, the loop ends with the next one being the transaction.
  pub catch_up_before_transaction-Ready :
      (fuel : ℕ) (leg : TradeLeg) (tables : Tables)
      → Consistent tables
      → get_owned_leg tables leg.id user_id ≡ ok leg
      → leg.transaction_completed_at ≡ none
      → steps_left leg ≤ fuel
      → Ready leg user_id (catch_up_before_transaction user_id fuel times leg tables)
  unfolding catch_up_before_transaction
  catch_up_before_transaction-Ready zero leg tables c owned unpaid enough =
      elim (next-unpaid leg unpaid) [
        | inl h ↦ absurd (no_steps leg reached_at h enough)
        | inr (inl h) ↦ absurd (no_steps leg transferred_at h enough)
        | inr (inr h) ↦ absurd (no_steps leg transaction_completed_at h enough)
      ]
  catch_up_before_transaction-Ready (suc fuel) leg tables c owned unpaid enough =
      let now = (times fuel).0 in
      let later = (times fuel).1 in
      let mine = (get_owned_leg-Owned tables leg.id user_id leg owned).user in
      elim (next-unpaid leg unpaid) [
        | inl h ↦
            let e = plain tables c leg.id user_id now later leg owned reached_at refl h refl in
            round fuel leg tables c owned reached_at h refl refl refl e (
              catch_up_before_transaction-Ready fuel (stamp reached_at now leg)
                (advanced tables c leg.id user_id now later leg owned reached_at none)
                (advanced-Consistent tables c leg.id now later leg owned reached_at e)
                (get_owned_leg-put_leg tables leg.id user_id leg (stamp reached_at now leg) owned
                  refl mine)
                unpaid (omega (arith, steps_left-stamp leg reached_at now h, enough)))
        | inr (inl h) ↦
            let e = plain tables c leg.id user_id now later leg owned transferred_at refl h refl in
            round fuel leg tables c owned transferred_at h refl refl refl e (
              catch_up_before_transaction-Ready fuel (stamp transferred_at now leg)
                (advanced tables c leg.id user_id now later leg owned transferred_at none)
                (advanced-Consistent tables c leg.id now later leg owned transferred_at e)
                (get_owned_leg-put_leg tables leg.id user_id leg (stamp transferred_at now leg)
                  owned refl mine)
                unpaid (omega (arith, steps_left-stamp leg transferred_at now h, enough)))
        | inr (inr h) ↦ rw h (record {
          tables = tables;
          caught_up = leg;
          returned = refl;
          due = h;
          owned = owned;
          consistent = c;
          unpaid = unpaid;
          same_id = refl;
          same_type = refl;
        })
      ]
