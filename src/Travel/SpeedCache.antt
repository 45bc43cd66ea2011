-- ===== src/Travel/SpeedCache.antt =====
-- `get_ship_speed` of app/tools/starcitizenwiki/client.py: a cache in front of the server, which any
-- number of calls use at once. A step is what one call does between two of its awaits; the lock is
-- asyncio's, which one call holds at a time. `V` is what the server answers.
use graphling.Prelude.{Text, text_eqb, ◌≡◌, Option, none, some, List, [], ◌∷◌, ◌++◌, if◌then◌else◌}

-- The cache of the client; the names that calls ask for and that wait for the lock; the name that the
-- holder of the lock asks the server for; what calls were answered, by key; the keys that the server
-- answered.
pub record SpeedClient (V : Type 0) : Type 0 where
  pub cache : List (Text × V)
  pub asking : List Text
  pub waiting : List Text
  pub lock : Option Text
  pub answers : List (Text × V)
  pub fetched : List Text

module _ {V : Type 0} where
  -- cache.get(key)
  abbrev pub cache_get : Text → List (Text × V) → Option V
  cache_get key [] = none
  cache_get key ((k, v) ∷ cache) = if text_eqb k key then some v else cache_get key cache

  abbrev pub new_client : SpeedClient V
  new_client = record {
    cache = [];
    asking = [];
    waiting = [];
    lock = none;
    answers = [];
    fetched = [];
  }

  module _ (lower : Text → Text) where
    pub data Step : SpeedClient V → SpeedClient V → Type 0 where
      called : (c : SpeedClient V) (name : Text) → Step c (record c { asking = name ∷ c.asking })
      -- The first test of the cache.
      hit :
          (c : SpeedClient V) (before after : List Text) (name : Text) (v : V)
          → c.asking ≡ before ++ (name ∷ after)
          → cache_get (lower name) c.cache ≡ some v
          → Step c (record c { asking = before ++ after; answers = (lower name, v) ∷ c.answers })
      missed :
          (c : SpeedClient V) (before after : List Text) (name : Text)
          → c.asking ≡ before ++ (name ∷ after)
          → cache_get (lower name) c.cache ≡ none
          → Step c (record c { asking = before ++ after; waiting = name ∷ c.waiting })
      -- The second test, once the lock is taken.
      found :
          (c : SpeedClient V) (before after : List Text) (name : Text) (v : V)
          → c.waiting ≡ before ++ (name ∷ after)
          → c.lock ≡ none
          → cache_get (lower name) c.cache ≡ some v
          → Step c (record c { waiting = before ++ after; answers = (lower name, v) ∷ c.answers })
      fetching :
          (c : SpeedClient V) (before after : List Text) (name : Text)
          → c.waiting ≡ before ++ (name ∷ after)
          → c.lock ≡ none
          → cache_get (lower name) c.cache ≡ none
          → Step c (record c { waiting = before ++ after; lock = some name })
      -- The server's answer, or an exception of the request.
      replied :
          (c : SpeedClient V) (name : Text) (v : V)
          → c.lock ≡ some name
          → Step c (record c {
            cache = (lower name, v) ∷ c.cache;
            lock = none;
            answers = (lower name, v) ∷ c.answers;
            fetched = lower name ∷ c.fetched;
          })
      failed :
          (c : SpeedClient V) (name : Text) → c.lock ≡ some name → Step c (record c { lock = none })

    pub data Reachable : SpeedClient V → Type 0 where
      start : Reachable new_client
      next : {c d : SpeedClient V} → Reachable c → Step c d → Reachable d
