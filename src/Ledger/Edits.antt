-- ===== src/Ledger/Edits.antt =====
-- How an operation may edit the leg rows: a row of the pilot keeps its key and every stamp that it
-- has, and any other row stays as it is.
use graphling.Prelude.{
  ℕ, ◌≡◌, refl, sym, subst, ◌∙◌, ap, ◌≢◌, ◌⊎◌, inl, inr, Bool-cases, Option, none, some, List, [],
  ◌∷◌, map, ◌==◌, ==_iff, if◌then◌else◌,
}
use graphling.Ledger.Models.{LegMilestone, TradeLeg, milestone}
use graphling.Ledger.Tables.{put_leg}
use graphling.Ledger.Rows.{LegKey, leg_key, OnlyRow}

abbrev pub Kept : Option ℕ → Option ℕ → Type 0
Kept none new = Unit
Kept (some time) new = new ≡ some time

pub Kept-refl : (t : Option ℕ) → Kept t t
Kept-refl none = tt
Kept-refl (some time) = refl

Kept-trans : (a b c : Option ℕ) → Kept a b → Kept b c → Kept a c
Kept-trans none b c h k = tt
Kept-trans (some time) b c h k = subst (λ o. Kept o c) h k

-- Every stamp of the first row stands in the second.
pub record Grows (row row' : TradeLeg) : Type 0 where
  pub started : Kept row.started_at row'.started_at
  pub stamps : (field : LegMilestone) → Kept (milestone field row) (milestone field row')

pub Grows-refl : (row : TradeLeg) → Grows row row
Grows-refl row = record { started = Kept-refl _; stamps = λ field. Kept-refl _ }

Grows-trans : (a b c : TradeLeg) → Grows a b → Grows b c → Grows a c
Grows-trans a b c g h = record {
  started = Kept-trans a.started_at b.started_at c.started_at g.started h.started;
  stamps = λ field.
      Kept-trans (milestone field a) (milestone field b) (milestone field c) (g.stamps field)
        (h.stamps field);
}

pub record Edit (user_id : ℕ) (row row' : TradeLeg) : Type 0 where
  pub mine : row.user_id ≡ user_id
  pub key : leg_key row' ≡ leg_key row
  pub grows : Grows row row'

abbrev pub Edited : ℕ → TradeLeg → TradeLeg → Type 0
Edited user_id row row' = (row' ≡ row) ⊎ Edit user_id row row'

-- The rows of the two tables stand side by side, each pair as `Edited` says.
abbrev pub Rowwise : ℕ → List TradeLeg → List TradeLeg → Type 0
Rowwise user_id [] [] = Unit
Rowwise user_id [] (row' ∷ rows') = ⊥
Rowwise user_id (row ∷ rows) [] = ⊥
Rowwise user_id (row ∷ rows) (row' ∷ rows') = Edited user_id row row' × Rowwise user_id rows rows'

module _ (user_id : ℕ) where
  Edited-trans : (a b c : TradeLeg) → Edited user_id a b → Edited user_id b c → Edited user_id a c
  Edited-trans a b c (inl e) (inl f) = inl (f ∙ e)
  Edited-trans a b c (inl e) (inr g) = inr (subst (λ r. Edit user_id r c) e g)
  Edited-trans a b c (inr g) (inl f) = inr (subst (λ r. Edit user_id a r) (sym f) g)
  Edited-trans a b c (inr g) (inr h) =
      inr (record { mine = g.mine; key = h.key ∙ g.key; grows = Grows-trans a b c g.grows h.grows })

  pub Rowwise-refl : (rows : List TradeLeg) → Rowwise user_id rows rows
  Rowwise-refl [] = tt
  Rowwise-refl (row ∷ rows) = (inl refl, Rowwise-refl rows)

  pub Rowwise-trans :
      (xs ys zs : List TradeLeg)
      → Rowwise user_id xs ys
      → Rowwise user_id ys zs
      → Rowwise user_id xs zs
  Rowwise-trans [] [] zs h k = k
  Rowwise-trans [] (b ∷ ys) zs h k = absurd h
  Rowwise-trans (a ∷ xs) [] zs h k = absurd h
  Rowwise-trans (a ∷ xs) (b ∷ ys) [] h k = absurd k
  Rowwise-trans (a ∷ xs) (b ∷ ys) (c ∷ zs) h k =
      (Edited-trans a b c h.0 k.0, Rowwise-trans xs ys zs h.1 k.1)

  -- Writing back an edit of the only row with its id.
  pub put_leg-Rowwise :
      (row row' : TradeLeg) (rows : List TradeLeg)
      → OnlyRow row rows
      → Edit user_id row row'
      → Rowwise user_id rows (put_leg row' rows)
  put_leg-Rowwise row row' [] only e = tt
  put_leg-Rowwise row row' (other ∷ rows) only e = (head, put_leg-Rowwise row row' rows only.1 e)
    where
      same_id : row'.id ≡ row.id
      same_id = ap (λ (k : LegKey). k.id) e.key

      head : Edited user_id other (if other.id == row'.id then row' else other)
      head = elim (Bool-cases (other.id == row'.id)) [
        | inl hit ↦
            let same : other ≡ row = only.0 ((==_iff other.id row'.id).0 hit ∙ same_id) in
            rw hit (inr (subst (λ r. Edit user_id r row') (sym same) e))
        | inr miss ↦ rw miss (inl refl)
      ]

  pub Rowwise-keys :
      (rows rows' : List TradeLeg)
      → Rowwise user_id rows rows'
      → map leg_key rows' ≡ map leg_key rows
  Rowwise-keys [] [] h = refl
  Rowwise-keys [] (r ∷ rs) h = absurd h
  Rowwise-keys (r ∷ rs) [] h = absurd h
  Rowwise-keys (row ∷ rows) (row' ∷ rows') (inl e, h) = cc (ap leg_key e, Rowwise-keys rows rows' h)
  Rowwise-keys (row ∷ rows) (row' ∷ rows') (inr e, h) = cc (e.key, Rowwise-keys rows rows' h)

-- A row that is the only one with its id still is after another row is written back.
pub put_leg-OnlyRow :
    (row other : TradeLeg) (rows : List TradeLeg)
    → other.id ≢ row.id
    → OnlyRow row rows
    → OnlyRow row (put_leg other rows)
put_leg-OnlyRow row other [] d only = tt
put_leg-OnlyRow row other (r ∷ rows) d only = (head, put_leg-OnlyRow row other rows d only.1)
  where
    head :
        (if r.id == other.id then other else r).id ≡ row.id
        → (if r.id == other.id then other else r) ≡ row
    head = elim (Bool-cases (r.id == other.id)) [
      | inl hit ↦ rw hit (λ e. absurd (d e))
      | inr miss ↦ rw miss only.0
    ]
