-- ===== src/Travel/SpeedOnce.antt =====
-- The interleavings of the calls of `get_ship_speed` (app/tools/starcitizenwiki/client.py).
use graphling.Prelude.{
  Text, text_eqb, text_eqb_eq, text_eqb_refl, ◌≡◌, refl, sym, ap, ◌∙◌, Bool-cases, inl, inr, Option,
  none, some, List, [], ◌∷◌, All, Elem,
}
use graphling.Travel.Names.{NoRepeats}
use graphling.Travel.SpeedCache.{
  SpeedClient, cache_get, Step, called, hit, missed, found, fetching, replied, failed, Reachable,
  start, next,
}

module _ {V : Type 0} (lower : Text → Text) where
  -- The name that is being fetched is not in the cache.
  Unknown : List (Text × V) → Option Text → Type 0
  Unknown cache none = Unit
  Unknown cache (some name) = cache_get (lower name) cache ≡ none

  -- A key is in the cache.
  HasKey : List (Text × V) → Text → Type 0
  HasKey cache key = cache_get key cache ≡ none → ⊥

  -- An answer is the value in the cache.
  IsCached : List (Text × V) → Text × V → Type 0
  IsCached cache (key, v) = cache_get key cache ≡ some v

  record Coherent (c : SpeedClient V) : Type 0 where
    once : NoRepeats c.fetched
    has_fetched : All (HasKey c.cache) c.fetched
    unknown : Unknown c.cache c.lock
    cached : All (IsCached c.cache) c.answers

  none-some : (v : V) → none ≡ some v → ⊥
  none-some v e = let z : ⊥ = cc (e) in z

  -- A new key hides no other.
  cache_get-new :
      (cache : List (Text × V)) (key k : Text) (v w : V)
      → cache_get key cache ≡ none
      → cache_get k cache ≡ some w
      → cache_get k ((key, v) ∷ cache) ≡ some w
  cache_get-new cache key k v w e f = elim (Bool-cases (text_eqb key k)) [
    | inr g ↦ rw g f
    | inl g ↦
        let same : cache_get key cache ≡ cache_get k cache =
          ap (λ t. cache_get t cache) (text_eqb_eq key k g) in
        absurd (none-some w (sym e ∙ same ∙ f))
  ]

  IsCached-new :
      (cache : List (Text × V)) (key : Text) (v : V) (answers : List (Text × V))
      → cache_get key cache ≡ none
      → All (IsCached cache) answers
      → All (IsCached ((key, v) ∷ cache)) answers
  unfolding IsCached
  IsCached-new cache key v [] e h = tt
  IsCached-new cache key v ((k, w) ∷ answers) e (h, hs) =
      (cache_get-new cache key k v w e h, IsCached-new cache key v answers e hs)

  HasKey-new :
      (cache : List (Text × V)) (key : Text) (v : V) (fetched : List Text)
      → All (HasKey cache) fetched
      → All (HasKey ((key, v) ∷ cache)) fetched
  unfolding HasKey
  HasKey-new cache key v [] h = tt
  HasKey-new cache key v (k ∷ fetched) (h, hs) = (
    elim (Bool-cases (text_eqb key k)) [ inl e ↦ rw e (λ z. none-some v (sym z)) | inr e ↦ rw e h ],
    HasKey-new cache key v fetched hs,
  )

  not_fetched :
      (cache : List (Text × V)) (key : Text) (fetched : List Text)
      → cache_get key cache ≡ none
      → All (HasKey cache) fetched
      → Elem key fetched
      → ⊥
  unfolding HasKey
  not_fetched cache key [] e h m = m
  not_fetched cache key (k ∷ fetched) e (h, hs) (inl same) =
      h (ap (λ t. cache_get t cache) (sym same) ∙ e)
  not_fetched cache key (k ∷ fetched) e (h, hs) (inr m) = not_fetched cache key fetched e hs m

  Unknown-some :
      (cache : List (Text × V)) (lock : Option Text) (name : Text)
      → lock ≡ some name
      → Unknown cache lock
      → cache_get (lower name) cache ≡ none
  unfolding Unknown
  Unknown-some cache none name e h = absurd (let z : ⊥ = cc (e) in z)
  Unknown-some cache (some n) name e h =
      let same : n ≡ name = cc (e) in ap (λ t. cache_get (lower t) cache) (sym same) ∙ h

  Step-Coherent : {c d : SpeedClient V} → Step lower c d → Coherent c → Coherent d
  unfolding Unknown IsCached HasKey NoRepeats
  Step-Coherent (called c name) h = record {
    once = h.once;
    has_fetched = h.has_fetched;
    unknown = h.unknown;
    cached = h.cached;
  }
  Step-Coherent (hit c before after name v e f) h = record {
    once = h.once;
    has_fetched = h.has_fetched;
    unknown = h.unknown;
    cached = (f, h.cached);
  }
  Step-Coherent (missed c before after name e f) h = record {
    once = h.once;
    has_fetched = h.has_fetched;
    unknown = h.unknown;
    cached = h.cached;
  }
  Step-Coherent (found c before after name v e l f) h = record {
    once = h.once;
    has_fetched = h.has_fetched;
    unknown = h.unknown;
    cached = (f, h.cached);
  }
  Step-Coherent (fetching c before after name e l f) h = record {
    once = h.once;
    has_fetched = h.has_fetched;
    unknown = f;
    cached = h.cached;
  }
  Step-Coherent (failed c name l) h = record {
    once = h.once;
    has_fetched = h.has_fetched;
    unknown = tt;
    cached = h.cached;
  }
  Step-Coherent (replied c name v l) h =
      let e = Unknown-some c.cache c.lock name l h.unknown in
      record {
        once = (not_fetched c.cache (lower name) c.fetched e h.has_fetched, h.once);
        has_fetched = (
          (λ z. none-some v (sym z ∙ rw (text_eqb_refl (lower name)) refl)),
          HasKey-new c.cache (lower name) v c.fetched h.has_fetched,
        );
        unknown = tt;
        cached = (
          rw (text_eqb_refl (lower name)) refl,
          IsCached-new c.cache (lower name) v c.answers e h.cached,
        );
      }

  Reachable-Coherent : {c : SpeedClient V} → Reachable lower c → Coherent c
  unfolding NoRepeats Unknown
  Reachable-Coherent start = record { once = tt; has_fetched = tt; unknown = tt; cached = tt }
  Reachable-Coherent (next r s) = Step-Coherent s (Reachable-Coherent r)

  answer-IsCached :
      (cache answers : List (Text × V)) (key : Text) (v : V)
      → All (IsCached cache) answers
      → Elem (key, v) answers
      → cache_get key cache ≡ some v
  unfolding IsCached
  answer-IsCached cache [] key v h m = absurd m
  answer-IsCached cache ((k, w) ∷ answers) key v (h, hs) (inl e) =
      ap (λ (a : Text × V). cache_get (a.0) cache) e ∙ h ∙ sym (ap (λ (a : Text × V). some (a.1)) e)
  answer-IsCached cache (a ∷ answers) key v (h, hs) (inr m) =
      answer-IsCached cache answers key v hs m

  -- However the calls interleave, the server answers each ship once at most, a failed request aside,
  -- and any two calls for one name, in any case, have the same answer.
  pub Reachable-once :
      {c : SpeedClient V}
      → Reachable lower c
      → NoRepeats c.fetched
        × ((key : Text) (v w : V) → Elem (key, v) c.answers → Elem (key, w) c.answers → v ≡ w)
  Reachable-once {c} r =
      let h = Reachable-Coherent r in
      (
        h.once,
        λ key v w m n.
            let e = answer-IsCached c.cache c.answers key v h.cached m in
            let f = answer-IsCached c.cache c.answers key w h.cached n in cc (sym e ∙ f),
      )
