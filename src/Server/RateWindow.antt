-- ===== src/Server/RateWindow.antt =====
-- Queues of event times, by what a sliding window shows of them (`RateLimiter` of
-- app/server/limits.py).
use graphling.Prelude.{
  ℕ, ◌+◌, ◌≤◌, ◌≡◌, refl, true, Bool-cases, inl, inr, ◌&&◌, List, [], ◌∷◌, ◌++◌, filter, All,
  length, leb, ltb, arith,
}
use graphling.Server.RateLimiter.{pop_expired}

-- The events of the window that ends at `t`.
abbrev pub in_window : ℕ → ℕ → List ℕ → List ℕ
in_window window t = filter (λ e. leb e t && ltb t (e + window))

-- The events that have not expired.
abbrev pub recent : ℕ → ℕ → List ℕ → List ℕ
recent window now = filter (λ e. ltb now (e + window))

abbrev pub UpTo : ℕ → List ℕ → Type 0
UpTo now = All (λ e. e ≤ now)

-- Oldest first.
abbrev pub Ascending : List ℕ → Type 0
Ascending [] = Unit
Ascending (e ∷ events) = All (λ f. e ≤ f) events × Ascending events

pub All-recent :
    (P : ℕ → Type 0) (window now : ℕ) (xs : List ℕ) → All P xs → All P (recent window now xs)
All-recent P window now [] h = tt
All-recent P window now (e ∷ xs) h = elim (Bool-cases (ltb now (e + window))) [
  | inl t ↦ rw t (h.0, All-recent P window now xs h.1)
  | inr t ↦ rw t (All-recent P window now xs h.1)
]

pub Ascending-recent :
    (window now : ℕ) (xs : List ℕ) → Ascending xs → Ascending (recent window now xs)
Ascending-recent window now [] h = tt
Ascending-recent window now (e ∷ xs) h = elim (Bool-cases (ltb now (e + window))) [
  | inl t ↦ rw t (All-recent (λ f. e ≤ f) window now xs h.0, Ascending-recent window now xs h.1)
  | inr t ↦ rw t (Ascending-recent window now xs h.1)
]

pub recent-All :
    (window now e : ℕ) (xs : List ℕ)
    → All (λ f. e ≤ f) xs
    → ltb now (e + window) ≡ true
    → recent window now xs ≡ xs
recent-All window now e [] h t = refl
recent-All window now e (x ∷ xs) h t = ground (arith, recent-All window now e xs h.1 t, h.0)

-- In an ascending queue, dropping from the front drops exactly what has expired.
pub pop_expired-eq-recent :
    (window now : ℕ) (xs : List ℕ) → Ascending xs → pop_expired window now xs ≡ recent window now xs
unfolding pop_expired
pop_expired-eq-recent window now [] h = refl
pop_expired-eq-recent window now (e ∷ xs) h = elim (Bool-cases (ltb now (e + window))) [
  | inl t ↦ ground (arith, t, recent-All window now e xs h.0 t)
  | inr t ↦ ground (arith, t, pop_expired-eq-recent window now xs h.1)
]

pub recent-recent :
    (window now later : ℕ) (xs : List ℕ)
    → now ≤ later
    → recent window later (recent window now xs) ≡ recent window later xs
recent-recent window now later [] h = refl
recent-recent window now later (e ∷ xs) h = ground (arith, recent-recent window now later xs h)

pub recent-append :
    (window now : ℕ) (xs ys : List ℕ)
    → recent window now (xs ++ ys) ≡ recent window now xs ++ recent window now ys
recent-append window now [] ys = refl
recent-append window now (x ∷ xs) ys = ground (arith, recent-append window now xs ys)

pub in_window-append :
    (window t : ℕ) (xs ys : List ℕ)
    → in_window window t (xs ++ ys) ≡ in_window window t xs ++ in_window window t ys
in_window-append window t [] ys = refl
in_window-append window t (x ∷ xs) ys = ground (arith, in_window-append window t xs ys)

pub length-in_window-le :
    (window t now : ℕ) (xs : List ℕ)
    → now ≤ t
    → length (in_window window t xs) ≤ length (recent window now xs)
length-in_window-le window t now [] h = omega arith
length-in_window-le window t now (x ∷ xs) h = ground (arith, length-in_window-le window t now xs h)

pub Ascending-snoc :
    (xs : List ℕ) (now : ℕ) → Ascending xs → UpTo now xs → Ascending (xs ++ now ∷ [])
Ascending-snoc [] now a u = (tt, tt)
Ascending-snoc (x ∷ xs) now a u = (all_snoc x xs a.0 u.0, Ascending-snoc xs now a.1 u.1)
  where
    all_snoc :
        (x : ℕ) (xs : List ℕ) → All (λ f. x ≤ f) xs → x ≤ now → All (λ f. x ≤ f) (xs ++ now ∷ [])
    all_snoc x [] h k = (k, tt)
    all_snoc x (y ∷ ys) h k = (h.0, all_snoc x ys h.1 k)

pub UpTo-snoc :
    (xs : List ℕ) (now later : ℕ) → UpTo now xs → now ≤ later → UpTo later (xs ++ later ∷ [])
UpTo-snoc [] now later u h = (omega arith, tt)
UpTo-snoc (x ∷ xs) now later u h = (omega arith, UpTo-snoc xs now later u.1 h)

pub UpTo-later : (xs : List ℕ) (now later : ℕ) → UpTo now xs → now ≤ later → UpTo later xs
UpTo-later [] now later u h = tt
UpTo-later (x ∷ xs) now later u h = (omega arith, UpTo-later xs now later u.1 h)
