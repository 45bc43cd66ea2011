-- ===== src/Server/UexBudget.antt =====
-- app/server/uex_budget.py: UEX's daily request limit, over the table of calls per day. Days are
-- numbers, and the upsert is one atomic step.
use mathlib.Core.Option
use graphling.Prelude.{
  ℕ, ◌+◌, ◌-◌, ◌≡◌, ◌≢◌, refl, Bool, true, false, Option, none, some, List, [], ◌∷◌, leb, ◌==◌,
  if◌then◌else◌, arith, ==_refl, Bool-cases, inl, inr,
}

pub record Limits : Type 0 where
  pub uex_daily_call_limit : ℕ
  pub uex_call_margin : ℕ

-- calls <= cap, where the cap is the limit less the margin and may be negative
abbrev pub fits_cap : Limits → ℕ → Bool
fits_cap limits calls = leb (calls + limits.uex_call_margin) limits.uex_daily_call_limit

-- The rows (day, calls); `none` where a day has no row.
unfoldable pub calls_on : ℕ → List (ℕ × ℕ) → Option ℕ
calls_on day [] = none
calls_on day ((d, calls) ∷ rows) = if d == day then some calls else calls_on day rows

abbrev pub or_zero : Option ℕ → ℕ
or_zero none = 0
or_zero (some calls) = calls

unfoldable pub calls_today : ℕ → List (ℕ × ℕ) → ℕ
unfolding calls_on
calls_today day rows = or_zero (calls_on day rows)

-- max(0, cap - calls_today())
unfoldable pub remaining_today : Limits → ℕ → List (ℕ × ℕ) → ℕ
unfolding calls_today
remaining_today limits day rows =
    limits.uex_daily_call_limit - (limits.uex_call_margin + calls_today day rows)

-- insert … on conflict do update … where calls + n <= cap returning calls
unfoldable pub upsert : Limits → ℕ → ℕ → List (ℕ × ℕ) → Option (List (ℕ × ℕ))
upsert limits day calls [] = some ((day, calls) ∷ [])
upsert limits day calls ((d, n) ∷ rows) =
    let later = Option.map (λ next. (d, n) ∷ next) (upsert limits day calls rows) in
    if d == day
    then (if fits_cap limits (n + calls) then some ((d, n + calls) ∷ rows) else none)
    else later

-- `none` is UexCallBudgetExhausted; nothing is counted then.
unfoldable pub spend : Limits → ℕ → ℕ → List (ℕ × ℕ) → Option (List (ℕ × ℕ))
unfolding upsert
spend limits day calls rows = if fits_cap limits calls then upsert limits day calls rows else none

-- What a spend of `calls` on `day` comes to: a refusal, exactly where the day's calls would pass the
-- cap, or new rows with the day's calls grown by `calls`, within the cap, and other days' untouched.
pub data Counted (limits : Limits) (day calls : ℕ) (rows : List (ℕ × ℕ))
    : Option (List (ℕ × ℕ)) → Type 0 where
  refused :
      fits_cap limits (calls_today day rows + calls) ≡ false → Counted limits day calls rows none
  counted :
      {next : List (ℕ × ℕ)}
      → fits_cap limits (calls_today day rows + calls) ≡ true
      → calls_today day next ≡ calls_today day rows + calls
      → ((other : ℕ) → other ≢ day → calls_today other next ≡ calls_today other rows)
      → Counted limits day calls rows (some next)

calls_today-same : (day n : ℕ) (rows : List (ℕ × ℕ)) → calls_today day ((day, n) ∷ rows) ≡ n
unfolding calls_today
calls_today-same day n rows = rw (==_refl day)

calls_today-other :
    (day other n : ℕ) (rows : List (ℕ × ℕ))
    → (day == other) ≡ false
    → calls_today other ((day, n) ∷ rows) ≡ calls_today other rows
unfolding calls_today
calls_today-other day other n rows e = rw e

upsert_later :
    (limits : Limits) (day calls d n : ℕ) (rows : List (ℕ × ℕ)) (e : (d == day) ≡ false)
    (result : Option (List (ℕ × ℕ)))
    → Counted limits day calls rows result
    → Counted limits day calls ((d, n) ∷ rows) (Option.map (λ next. (d, n) ∷ next) result)
unfolding calls_today
upsert_later limits day calls d n rows e _ (refused f) = refused (rw e f)
upsert_later limits day calls d n rows e _ (counted {next} f same others) =
    counted (rw e f) (rw e same) (λ other differs. elim (Bool-cases (d == other)) [
      | inl h ↦ rw h refl
      | inr h ↦ rw h (others other differs)
    ])

upsert-Counted :
    (limits : Limits) (day calls : ℕ) (rows : List (ℕ × ℕ))
    → fits_cap limits calls ≡ true
    → Counted limits day calls rows (upsert limits day calls rows)
unfolding upsert calls_today
upsert-Counted limits day calls [] fits =
    counted (ground (arith, fits)) (ground arith) (λ other differs. ground arith)
upsert-Counted limits day calls ((d, n) ∷ rows) fits = elim (Bool-cases (d == day)) [
  | inl e ↦ elim (Bool-cases (fits_cap limits (n + calls))) [
    | inl f ↦
        rw (e, f)
          (counted (rw e f) (rw e refl) (λ other differs.
            rw (let z : (d == other) ≡ false = ground (arith, e, differs) in z) refl))
    | inr f ↦ rw (e, f) (refused (rw e f))
  ]
  | inr e ↦
      rw e (upsert_later limits day calls d n rows e _ (upsert-Counted limits day calls rows fits))
]

-- A spend is refused exactly when the day's calls would pass the cap by it, and then counts nothing;
-- else it grows the day's count by `calls`, which stays within the cap, and leaves every other day's.
pub spend-Counted :
    (limits : Limits) (day calls : ℕ) (rows : List (ℕ × ℕ))
    → Counted limits day calls rows (spend limits day calls rows)
unfolding spend
spend-Counted limits day calls rows = elim (Bool-cases (fits_cap limits calls)) [
  | inl fits ↦ rw fits (upsert-Counted limits day calls rows fits)
  | inr over ↦ rw over (refused (ground (arith, over)))
]
