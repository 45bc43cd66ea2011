-- ===== src/Ledger/ProgressRows.antt =====
-- The leg rows after a step of `advance_leg` (app/server/ledger_service.py), row by row.
use graphling.Prelude.{
  ℕ, ◌≡◌, refl, sym, ap, ◌∙◌, ◌≢◌, Bool, true, false, Bool-cases, ◌&&◌, not, inl, inr, Option, none,
  some, List, [], ◌∷◌, map, ◌==◌, ==_iff, is_none, if◌then◌else◌, arith,
}
use graphling.Prelude.{Elem, filter-Elem}
use graphling.Ledger.Models.{
  LegMilestone, reached_at, transaction_completed_at, transferred_at, finalized_at, TradeLeg, stamp,
  milestone_eqb,
}
use graphling.Ledger.Tables.{ok, siblings, scalar_one_or_none, put_leg, put_optional}
use graphling.Ledger.Rows.{OnlyRow}
use graphling.Ledger.Legs.{start_sibling}

-- Does a row start when the leg is stamped: it is the finalized leg's other row, without a start?
abbrev pub starts : LegMilestone → TradeLeg → TradeLeg → Bool
starts field leg row =
    milestone_eqb field finalized_at && row.run_id == leg.run_id && is_none row.started_at

-- What becomes of each row: the leg has the stamp, and the other row of its run starts.
abbrev pub after_step : LegMilestone → ℕ → ℕ → TradeLeg → TradeLeg → TradeLeg
after_step field now later leg row =
    if row.id == leg.id
    then stamp field now row
    else if starts field leg row
    then record row { started_at = some later }
    else row

module _ (g : TradeLeg → TradeLeg) where
  put_leg-map :
      (new : TradeLeg) (legs : List TradeLeg)
      → ((row : TradeLeg) → Elem row legs → (if row.id == new.id then new else row) ≡ g row)
      → put_leg new legs ≡ map g legs
  put_leg-map new [] h = refl
  put_leg-map new (row ∷ legs) h =
      rw (h row (inl refl), put_leg-map new legs (λ r m. h r (inr m))) refl

  put_legs-map :
      (last new : TradeLeg) (legs : List TradeLeg)
      → ((row : TradeLeg)
          → Elem row legs
          → (let first = (if row.id == new.id then new else row) in
              if first.id == last.id then last else first)
            ≡ g row)
      → put_leg last (put_leg new legs) ≡ map g legs
  put_legs-map last new [] h = refl
  put_legs-map last new (row ∷ legs) h =
      rw (h row (inl refl), put_legs-map last new legs (λ r m. h r (inr m))) refl

Elem-only :
    (rows : List TradeLeg) (row : TradeLeg) (o : Option TradeLeg)
    → Elem row rows
    → scalar_one_or_none rows ≡ ok o
    → o ≡ some row
Elem-only [] row o m h = absurd m
Elem-only (a ∷ []) row o (inl e) h = cc (h, e)
Elem-only (a ∷ []) row o (inr m) h = absurd m
Elem-only (a ∷ b ∷ rows) row o m h = absurd (let z : ⊥ = cc (h) in z)

stamp-id : (field : LegMilestone) (now : ℕ) (leg : TradeLeg) → (stamp field now leg).id ≡ leg.id
stamp-id reached_at now leg = refl
stamp-id transaction_completed_at now leg = refl
stamp-id transferred_at now leg = refl
stamp-id finalized_at now leg = refl

only_row :
    (leg row : TradeLeg) (legs : List TradeLeg)
    → OnlyRow leg legs
    → Elem row legs
    → (row.id == leg.id) ≡ true
    → row ≡ leg
only_row leg row [] h m e = absurd m
only_row leg row (other ∷ legs) (h, hs) (inl same) e =
    same ∙ h (ap (λ (r : TradeLeg). r.id) (sym same) ∙ (==_iff row.id leg.id).0 e)
only_row leg row (other ∷ legs) (h, hs) (inr m) e = only_row leg row legs hs m e

module _ (now later : ℕ) (leg : TradeLeg) (legs : List TradeLeg) (only : OnlyRow leg legs) where
  -- No row starts.
  pub quiet-rows :
      (field : LegMilestone)
      → ((row : TradeLeg)
          → Elem row legs
          → (row.id == leg.id) ≡ false
          → starts field leg row ≡ false)
      → put_leg (stamp field now leg) legs ≡ map (after_step field now later leg) legs
  quiet-rows field quiet =
      put_leg-map (after_step field now later leg) (stamp field now leg) legs (λ row m.
        elim (Bool-cases (row.id == leg.id)) [
          | inl e ↦
              rw (stamp-id field now leg, e)
                (ap (stamp field now) (sym (only_row leg row legs only m e)))
          | inr e ↦ rw (stamp-id field now leg, e, quiet row m e) refl
        ])

  -- The other row of the run, where there is one.
  other_row :
      (sibling : Option TradeLeg)
      → scalar_one_or_none (siblings leg legs) ≡ ok sibling
      → (row : TradeLeg) → Elem row legs
      → (row.id == leg.id) ≡ false
      → (row.run_id == leg.run_id) ≡ true
      → sibling ≡ some row
  other_row sibling found row m e f =
      Elem-only (siblings leg legs) row sibling
        (filter-Elem (λ other. other.run_id == leg.run_id && not (other.id == leg.id)) legs row m
          (ground (arith, e, f)))
        found

  finalized_quiet :
      (sibling : Option TradeLeg)
      → scalar_one_or_none (siblings leg legs) ≡ ok sibling
      → start_sibling later sibling ≡ none
      → put_leg (stamp finalized_at now leg) legs ≡ map (after_step finalized_at now later leg) legs
  finalized_quiet sibling found none_starts = quiet-rows finalized_at (λ row m e.
      elim (Bool-cases (row.run_id == leg.run_id)) [
        | inr f ↦ rw f refl
        | inl f ↦
            let same = other_row sibling found row m e f in
            let started : start_sibling later (some row) ≡ none = rw same at none_starts in
            elim (Bool-cases (is_none row.started_at)) [
              | inr g ↦ rw (f, g) refl
              | inl g ↦ absurd (let z : ⊥ = cc (rw g at started) in z)
            ]
      ])

  module _ (sibling : TradeLeg) (alone : OnlyRow sibling legs)
      (found : scalar_one_or_none (siblings leg legs) ≡ ok (some sibling))
      (run : sibling.run_id ≡ leg.run_id) (apart : sibling.id ≢ leg.id)
      (waiting : is_none sibling.started_at ≡ true) where
    finalized_row :
        (row : TradeLeg)
        → Elem row legs
        → (let first = (if row.id == leg.id then stamp finalized_at now leg else row) in
            if first.id == sibling.id then record sibling { started_at = some later } else first)
          ≡ after_step finalized_at now later leg row
    finalized_row row m = elim (Bool-cases (row.id == leg.id)) [
      | inl e ↦
          let same = only_row leg row legs only m e in
          let other : (leg.id == sibling.id) ≡ false = ground (arith, apart) in
          rw (e, other) (ap (stamp finalized_at now) (sym same))
      | inr e ↦ elim (Bool-cases (row.id == sibling.id)) [
        | inl f ↦
            let same = only_row sibling row legs alone m f in
            let together : (row.run_id == leg.run_id) ≡ true =
              (==_iff row.run_id leg.run_id).1 (ap (λ (r : TradeLeg). r.run_id) same ∙ run) in
            let still : is_none row.started_at ≡ true =
              ap (λ (r : TradeLeg). is_none r.started_at) same ∙ waiting in
            rw (e, f, together, still)
              (ap (λ (r : TradeLeg). record r { started_at = some later }) (sym same))
        | inr f ↦ elim (Bool-cases (row.run_id == leg.run_id)) [
          | inr g ↦ rw (e, f, g) refl
          | inl g ↦
              let same : some sibling ≡ some row = other_row (some sibling) found row m e g in
              absurd (let z : ⊥ = ground (arith, same, f) in z)
        ]
      ]
    ]

    finalized_starts :
        put_leg
          (record sibling { started_at = some later })
          (put_leg (stamp finalized_at now leg) legs)
        ≡ map (after_step finalized_at now later leg) legs
    finalized_starts =
        put_legs-map (after_step finalized_at now later leg)
          (record sibling { started_at = some later }) (stamp finalized_at now leg) legs
          finalized_row

  -- The rows after the last milestone.
  pub finalized_rows :
      (sibling : Option TradeLeg)
      → scalar_one_or_none (siblings leg legs) ≡ ok sibling
      → ((row : TradeLeg)
          → sibling ≡ some row
          → OnlyRow row legs × (row.run_id ≡ leg.run_id) × (row.id ≢ leg.id))
      → put_optional (start_sibling later sibling) (put_leg (stamp finalized_at now leg) legs)
        ≡ map (after_step finalized_at now later leg) legs
  finalized_rows none found known = finalized_quiet none found refl
  finalized_rows (some row) found known = elim (Bool-cases (is_none row.started_at)) [
    | inl e ↦
        let (alone, run, apart) = known row refl in
        rw e (finalized_starts row alone found run apart e)
    | inr e ↦
        let none_starts : start_sibling later (some row) ≡ none = rw e refl in
        rw e (finalized_quiet (some row) found none_starts)
  ]
