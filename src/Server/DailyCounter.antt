-- ===== src/Server/DailyCounter.antt =====
-- `DailyCounter` of app/server/limits.py. Days, keys and amounts are natural numbers; the day that the
-- clock reads is an argument.
use graphling.Prelude.{
  ℕ, ◌+◌, ◌≤◌, ◌≡◌, refl, Bool, false, ◌&&◌, Option, none, some, List, [], ◌∷◌, ◌==◌, if◌then◌else◌,
  arith, Bool-cases, inl, inr, sym, ap, ◌∙◌, ==_iff,
}

pub record DailyCounter : Type 0 where
  pub day : Option ℕ
  pub totals : ℕ → ℕ

abbrev pub new_counter : DailyCounter
new_counter = record { day = none; totals = λ key. 0 }

abbrev same_day : ℕ → Option ℕ → Bool
same_day today none = false
same_day today (some day) = today == day

unfoldable pub roll_over : ℕ → DailyCounter → DailyCounter
roll_over today counter =
    if same_day today counter.day then counter else record { day = some today; totals = λ key. 0 }

unfoldable pub total : ℕ → ℕ → DailyCounter → DailyCounter × ℕ
unfolding roll_over
total key today counter = let rolled = roll_over today counter in (rolled, rolled.totals key)

unfoldable pub add : ℕ → ℕ → ℕ → DailyCounter → DailyCounter
unfolding roll_over
add key amount today counter =
    let rolled = roll_over today counter in
    record rolled { totals = λ k. if k == key then rolled.totals k + amount else rolled.totals k }

-- One call of `add`.
pub record Added : Type 0 where
  pub key : ℕ
  pub amount : ℕ
  pub today : ℕ

unfoldable pub add_all : List Added → DailyCounter → DailyCounter
unfolding add
add_all [] counter = counter
add_all (call ∷ calls) counter = add_all calls (add call.key call.amount call.today counter)

-- What the calls add for a key on a day.
unfoldable pub added_on : ℕ → ℕ → List Added → ℕ
added_on key today [] = 0
added_on key today (call ∷ calls) =
    (if call.today == today && call.key == key then call.amount else 0) + added_on key today calls

-- The days do not go back, from `day` on and up to `last`.
abbrev pub InDays : ℕ → List Added → ℕ → Type 0
InDays day [] last = day ≤ last
InDays day (call ∷ calls) last = (day ≤ call.today) × InDays call.today calls last

InDays-le : (day : ℕ) (calls : List Added) (last : ℕ) → InDays day calls last → day ≤ last
InDays-le day [] last h = h
InDays-le day (call ∷ calls) last (h, hs) = omega (arith, h, InDays-le call.today calls last hs)

-- A counter that is on `day`.
abbrev on_day : ℕ → (ℕ → ℕ) → DailyCounter
on_day day totals = record { day = some day; totals = totals }

-- What the roll over to `today` leaves of the totals of `day`.
abbrev carried : ℕ → (ℕ → ℕ) → ℕ → ℕ → ℕ
carried day totals today k = if today == day then totals k else 0

roll_over-on_day :
    (day today : ℕ) (totals : ℕ → ℕ)
    → roll_over today (on_day day totals) ≡ on_day today (carried day totals today)
unfolding roll_over
roll_over-on_day day today totals = elim (Bool-cases (today == day)) [
  | inl e ↦ rw e (
      ap (λ d. on_day d totals) (sym ((==_iff today day).0 e))
      ∙ ap (λ b. on_day today (λ k. if b then totals k else 0)) (sym e))
  | inr e ↦ rw e (ap (λ b. on_day today (λ k. if b then totals k else 0)) (sym e))
]

-- The totals after one call.
abbrev next_totals : ℕ → (ℕ → ℕ) → Added → ℕ → ℕ
next_totals day totals call k =
    if k == call.key
    then carried day totals call.today k + call.amount
    else carried day totals call.today k

add-on_day :
    (day : ℕ) (totals : ℕ → ℕ) (call : Added)
    → add call.key call.amount call.today (on_day day totals)
      ≡ on_day call.today (next_totals day totals call)
unfolding add
add-on_day day totals call = rw (roll_over-on_day day call.today totals) refl

total-on_day :
    (key day today : ℕ) (totals : ℕ → ℕ)
    → (total key today (on_day day totals)).1 ≡ carried day totals today key
unfolding total
total-on_day key day today totals = rw (roll_over-on_day day today totals) refl

total-add_all_from :
    (key last : ℕ) (calls : List Added) (day : ℕ) (totals : ℕ → ℕ)
    → InDays day calls last
    → (total key last (add_all calls (on_day day totals))).1
      ≡ carried day totals last key + added_on key last calls
unfolding add_all added_on
total-add_all_from key last [] day totals h = total-on_day key day last totals ∙ ground arith
total-add_all_from key last (call ∷ calls) day totals (h, hs) =
    let up : call.today ≤ last = InDays-le call.today calls last hs in
    rw (add-on_day day totals call) (
      total-add_all_from key last calls call.today (next_totals day totals call) hs
      ∙ ground (arith, h, up))

-- A new counter after one call.
add-new_counter :
    (call : Added)
    → add call.key call.amount call.today new_counter
      ≡ on_day call.today (λ k. if k == call.key then 0 + call.amount else 0)
unfolding add roll_over
add-new_counter call = refl

total-new_counter : (key today : ℕ) → (total key today new_counter).1 ≡ 0
unfolding total roll_over
total-new_counter key today = refl

-- In calls whose days never go back, the total of a key on the last day is what the calls of that day
-- added for that key: nothing of an earlier day and nothing of another key.
pub total-add_all :
    (key last : ℕ) (calls : List Added)
    → InDays 0 calls last
    → (total key last (add_all calls new_counter)).1 ≡ added_on key last calls
unfolding add_all added_on
total-add_all key last [] h = total-new_counter key last
total-add_all key last (call ∷ calls) (h, hs) =
    let up : call.today ≤ last = InDays-le call.today calls last hs in
    rw (add-new_counter call) (
      total-add_all_from key last calls call.today
        (λ k. if k == call.key then 0 + call.amount else 0) hs
      ∙ ground (arith, up))
