-- ===== src/Server/RateLimiter.antt =====
-- `RateLimiter` of app/server/limits.py. Times and the window are whole numbers of some unit of the
-- clock, and keys are numbers.
use graphling.Prelude.{
  ℕ, ◌+◌, ◌-◌, ◌&&◌, Option, none, some, List, [], ◌∷◌, ◌++◌, length, leb, ◌==◌, is_none,
  if◌then◌else◌,
}

pub record RateLimiter : Type 0 where
  pub max_events : ℕ
  pub window_s : ℕ
  pub events : ℕ → List ℕ

-- RateLimiter(max_events, window_s)
abbrev pub new_limiter : ℕ → ℕ → RateLimiter
new_limiter max_events window_s = record {
  max_events = max_events;
  window_s = window_s;
  events = λ key. [];
}

-- while events and now - events[0] >= self.window_s: events.popleft()
unfoldable pub pop_expired : ℕ → ℕ → List ℕ → List ℕ
pop_expired window now [] = []
pop_expired window now (e ∷ events) =
    let rest = pop_expired window now events in if leb (e + window) now then rest else e ∷ events

abbrev pub put_events : ℕ → List ℕ → RateLimiter → RateLimiter
put_events key events limiter = record limiter {
  events = λ k. if k == key then events else limiter.events k;
}

-- window_s - (now - events[0]), or the whole window of an empty queue
abbrev wait : ℕ → ℕ → List ℕ → ℕ
wait window now [] = window
wait window now (e ∷ events) = e + window - now

unfoldable pub retry_after_s : ℕ → ℕ → RateLimiter → RateLimiter × Option ℕ
unfolding pop_expired
retry_after_s key now limiter =
    let events = pop_expired limiter.window_s now (limiter.events key) in
    if leb limiter.max_events (length events)
    then (put_events key events limiter, some (wait limiter.window_s now events))
    else (put_events key (events ++ now ∷ []) limiter, none)

-- The times of the events of key `k` that a sequence of calls lets through.
unfoldable pub accepted : ℕ → RateLimiter → List (ℕ × ℕ) → List ℕ
unfolding retry_after_s
accepted k limiter [] = []
accepted k limiter ((key, now) ∷ calls) =
    let (limiter', refused) = retry_after_s key now limiter in
    let rest = accepted k limiter' calls in if key == k && is_none refused then now ∷ rest else rest
