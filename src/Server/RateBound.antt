-- ===== src/Server/RateBound.antt =====
-- The guarantee of `RateLimiter` (app/server/limits.py): a bound in every sliding window.
use graphling.Prelude.{
  ℕ, ◌+◌, ◌≤◌, ◌<◌, ◌≡◌, refl, sym, subst, ap, ◌∙◌, true, false, Bool-cases, inl, inr, List, [],
  ◌∷◌, ◌++◌, length, length-append, leb, ltb, ◌==◌, ==_iff, arith,
}
use mathlib.Core.List.{append_assoc, append-nil}
use graphling.Server.RateLimiter.{
  RateLimiter, new_limiter, pop_expired, put_events, retry_after_s, accepted,
}
use graphling.Server.RateWindow.{
  recent, UpTo, Ascending, Ascending-recent, pop_expired-eq-recent, recent-recent, recent-append,
  in_window-append, length-in_window-le, Ascending-snoc, UpTo-snoc, UpTo-later, in_window,
}

-- What the queue of a key is, after calls up to `now` that let `acc` through.
record Queue (max_events window now : ℕ) (events acc : List ℕ) : Type 0 where
  queue : events ≡ recent window now acc
  ascending : Ascending acc
  up_to : UpTo now acc
  bounded : (t : ℕ) → length (in_window window t acc) ≤ max_events

module _ (max_events window now later : ℕ) (events acc : List ℕ) (h : now ≤ later)
    (q : Queue max_events window now events acc) where
  popped : pop_expired window later events ≡ recent window later acc
  popped =
      let step : pop_expired window later events
          ≡ pop_expired window later (recent window now acc) =
        ap (λ es. pop_expired window later es) q.queue in
      step
      ∙ pop_expired-eq-recent window later (recent window now acc)
          (Ascending-recent window now acc q.ascending)
      ∙ recent-recent window now later acc h

  refused-Queue : Queue max_events window later (pop_expired window later events) acc
  refused-Queue = record {
    queue = popped;
    ascending = q.ascending;
    up_to = UpTo-later acc now later q.up_to h;
    bounded = q.bounded;
  }

  module _ (positive : 0 < window)
      (room : leb max_events (length (pop_expired window later events)) ≡ false) where
    accepted-bounded : (t : ℕ) → length (in_window window t (acc ++ later ∷ [])) ≤ max_events
    accepted-bounded t = elim (Bool-cases (leb later t)) [
      | inl e ↦
          let now_room : length (recent window later acc) < max_events =
            ground (arith, room, popped) in
          rw (in_window-append window t acc (later ∷ [])) (
            rw (length-append (in_window window t acc) (in_window window t (later ∷ []))) (
              ground
                (arith, now_room, e, length-in_window-le window t later acc (ground (arith, e)))))
      | inr e ↦ rw (in_window-append window t acc (later ∷ [])) (rw (e, append-nil) (q.bounded t))
    ]

    accepted-Queue :
        Queue max_events window later
          (pop_expired window later events ++ later ∷ [])
          (acc ++ later ∷ [])
    accepted-Queue = record {
      queue =
          let kept : ltb later (later + window) ≡ true = ground arith in
          rw (recent-append window later acc (later ∷ [])) (rw (popped, kept) refl);
      ascending = Ascending-snoc acc later q.ascending (UpTo-later acc now later q.up_to h);
      up_to = UpTo-snoc acc now later q.up_to h;
      bounded = accepted-bounded;
    }

-- The calls come in the order of their times.
abbrev pub InOrder : ℕ → List (ℕ × ℕ) → Type 0
InOrder now [] = Unit
InOrder now ((key, later) ∷ calls) = (now ≤ later) × InOrder later calls

abbrev Bounded : ℕ → ℕ → List ℕ → Type 0
Bounded max_events window xs = (t : ℕ) → length (in_window window t xs) ≤ max_events

InOrder-weaken :
    (now later : ℕ) (calls : List (ℕ × ℕ)) → now ≤ later → InOrder later calls → InOrder now calls
InOrder-weaken now later [] h o = tt
InOrder-weaken now later ((key, next) ∷ calls) h o = (omega (arith, o.0), o.1)

module _ (k : ℕ) where
  -- A call of another key does not touch the queue of `k`.
  other_call :
      (key now : ℕ) (limiter : RateLimiter) (calls : List (ℕ × ℕ))
      → (key == k) ≡ false
      → (accepted k limiter ((key, now) ∷ calls)
          ≡ accepted k (retry_after_s key now limiter).0 calls)
        × ((retry_after_s key now limiter).0.events k ≡ limiter.events k)
        × ((retry_after_s key now limiter).0.max_events ≡ limiter.max_events)
        × ((retry_after_s key now limiter).0.window_s ≡ limiter.window_s)
  unfolding accepted retry_after_s
  other_call key now limiter calls h =
      (ground (arith, h), ground (arith, h), ground arith, ground arith)

  refused_call :
      (key now : ℕ) (limiter : RateLimiter) (calls : List (ℕ × ℕ))
      → leb limiter.max_events (length (pop_expired limiter.window_s now (limiter.events key)))
        ≡ true
      → accepted k limiter ((key, now) ∷ calls)
        ≡ accepted k
            (put_events key (pop_expired limiter.window_s now (limiter.events key)) limiter)
            calls
  unfolding accepted retry_after_s
  refused_call key now limiter calls h = ground (arith, h)

  accepted_call :
      (key now : ℕ) (limiter : RateLimiter) (calls : List (ℕ × ℕ))
      → leb limiter.max_events (length (pop_expired limiter.window_s now (limiter.events key)))
        ≡ false
      → (key == k) ≡ true
      → accepted k limiter ((key, now) ∷ calls)
        ≡ now
          ∷ accepted k
              (put_events key
                (pop_expired limiter.window_s now (limiter.events key) ++ now ∷ [])
                limiter)
              calls
  unfolding accepted retry_after_s
  accepted_call key now limiter calls h e = ground (arith, h, e)

  put_events_self :
      (key : ℕ) (events : List ℕ) (limiter : RateLimiter)
      → (key == k) ≡ true
      → (put_events key events limiter).events k ≡ events
  put_events_self key events limiter e = ground (arith, e)

  -- The bound on what `calls` and an earlier history let through.
  abbrev Claim : List (ℕ × ℕ) → Type 0
  Claim calls =
      (limiter : RateLimiter) (now : ℕ) (events acc : List ℕ)
      → 0 < limiter.window_s
      → limiter.events k ≡ events
      → Queue limiter.max_events limiter.window_s now events acc
      → InOrder now calls
      → Bounded limiter.max_events limiter.window_s (acc ++ accepted k limiter calls)

  module _ (calls : List (ℕ × ℕ)) (ih : Claim calls) (key later : ℕ) (limiter : RateLimiter)
      (now : ℕ) (acc : List ℕ) (positive : 0 < limiter.window_s)
      (q : Queue limiter.max_events limiter.window_s now (limiter.events k) acc) (h : now ≤ later)
      (o : InOrder later calls) where
    skip :
        (key == k) ≡ false
        → Bounded limiter.max_events limiter.window_s
            (acc ++ accepted k limiter ((key, later) ∷ calls))
    skip e =
        let (same, events, max_events, window) = other_call key later limiter calls e in
        let next : RateLimiter = (retry_after_s key later limiter).0 in
        rw same (
          subst (λ m. Bounded m limiter.window_s (acc ++ accepted k next calls)) max_events
            (subst (λ w. Bounded next.max_events w (acc ++ accepted k next calls)) window
              (ih next now (limiter.events k) acc (subst (λ w. 0 < w) (sym window) positive) events
                (subst (λ w. Queue next.max_events w now (limiter.events k) acc) (sym window)
                  (subst (λ m. Queue m limiter.window_s now (limiter.events k) acc) (sym max_events)
                    q))
                (InOrder-weaken now later calls h o))))

    module _ (e : key ≡ k) where
      Queue-of_key : Queue limiter.max_events limiter.window_s now (limiter.events key) acc
      Queue-of_key =
          subst (λ n. Queue limiter.max_events limiter.window_s now (limiter.events n) acc) (sym e)
            q

      refuse :
          leb limiter.max_events (length (pop_expired limiter.window_s later (limiter.events key)))
            ≡ true
          → Bounded limiter.max_events limiter.window_s
              (acc ++ accepted k limiter ((key, later) ∷ calls))
      refuse full = rw (refused_call key later limiter calls full) (
          ih (put_events key (pop_expired limiter.window_s later (limiter.events key)) limiter)
            later (pop_expired limiter.window_s later (limiter.events key)) acc positive
            (put_events_self key _ limiter ((==_iff key k).1 e))
            (refused-Queue limiter.max_events limiter.window_s now later (limiter.events key) acc h
              Queue-of_key)
            o)

      admit :
          leb limiter.max_events (length (pop_expired limiter.window_s later (limiter.events key)))
            ≡ false
          → Bounded limiter.max_events limiter.window_s
              (acc ++ accepted k limiter ((key, later) ∷ calls))
      admit room =
          let events = pop_expired limiter.window_s later (limiter.events key) ++ later ∷ [] in
          rw (accepted_call key later limiter calls room ((==_iff key k).1 e)) (
            subst (λ xs. Bounded limiter.max_events limiter.window_s xs)
              (append_assoc acc (later ∷ []) _)
              (ih (put_events key events limiter) later events (acc ++ later ∷ []) positive
                (put_events_self key _ limiter ((==_iff key k).1 e))
                (accepted-Queue limiter.max_events limiter.window_s now later (limiter.events key)
                  acc h Queue-of_key positive room)
                o))

    one_call :
        Bounded limiter.max_events limiter.window_s
          (acc ++ accepted k limiter ((key, later) ∷ calls))
    one_call = elim (Bool-cases (key == k)) [
      | inr e ↦ skip e
      | inl e ↦
          elim (Bool-cases (
            leb limiter.max_events
              (length (pop_expired limiter.window_s later (limiter.events key))))) [
                | inl full ↦ refuse ((==_iff key k).0 e) full
                | inr room ↦ admit ((==_iff key k).0 e) room
              ]
    ]

  calls_bounded : (calls : List (ℕ × ℕ)) → Claim calls
  unfolding accepted
  calls_bounded [] limiter now events acc positive same q o t = rw append-nil (q.bounded t)
  calls_bounded ((key, later) ∷ calls) limiter now events acc positive same q o t =
      one_call calls (calls_bounded calls) key later limiter now acc positive
        (subst (λ es. Queue limiter.max_events limiter.window_s now es acc) (sym same) q) o.0 o.1 t

-- With a window that is not empty, and calls in the order of their times, a new limiter lets at most
-- `max_events` events of a key through in any window of `window_s`, whatever the other keys do.
pub length-accepted-le :
    (max_events window_s k : ℕ) (calls : List (ℕ × ℕ)) (t : ℕ)
    → 0 < window_s
    → InOrder 0 calls
    → length (in_window window_s t (accepted k (new_limiter max_events window_s) calls))
      ≤ max_events
length-accepted-le max_events window_s k calls t positive o =
    calls_bounded k calls (new_limiter max_events window_s) 0 [] [] positive refl
      (record { queue = refl; ascending = tt; up_to = tt; bounded = λ u. omega arith }) o t
