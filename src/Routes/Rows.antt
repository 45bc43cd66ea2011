-- ===== src/Routes/Rows.antt =====
-- `_route_rows_for` of app/tools/route_ranking.py: the rows of cached origins, and live fetches for at
-- most `max_live` of the others. The cache's answer and each fetch's are arguments.
use graphling.Prelude.{
  ℕ, zero, suc, ◌+◌, ◌-◌, ◌≡◌, ◌≢◌, refl, sym, ap, ◌∙◌, Option, none, some, ◌⊎◌, inl, inr, List, [],
  ◌∷◌, ◌++◌, filter, length, take, is_none, if◌then◌else◌, arith,
}

append_nil : {A : Type 0} (xs : List A) → xs ++ [] ≡ xs
append_nil [] = refl
append_nil (x ∷ xs) = ap (λ ys. x ∷ ys) (append_nil xs)

append_assoc : {A : Type 0} (xs ys zs : List A) → (xs ++ ys) ++ zs ≡ xs ++ (ys ++ zs)
append_assoc [] ys zs = refl
append_assoc (x ∷ xs) ys zs = ap (λ ws. x ∷ ws) (append_assoc xs ys zs)

module _ {Row Failure : Type 0} (cached : ℕ → Option (List Row))
    (fetch : ℕ → Failure ⊎ List Row) where
  unfoldable pub uncached : List ℕ → List ℕ
  uncached origins = filter (λ origin. is_none (cached origin)) origins

  abbrev rows_or_none : Option (List Row) → List Row
  rows_or_none none = []
  rows_or_none (some rows) = rows

  unfoldable pub cached_rows : List ℕ → List Row
  cached_rows [] = []
  cached_rows (origin ∷ origins) = rows_or_none (cached origin) ++ cached_rows origins

  -- The state of the loop over the fetches.
  pub record Gathered : Type 0 where
    pub rows : List Row
    pub searched : ℕ
    pub failures : List Failure

  abbrev pub gather_one : Gathered → Failure ⊎ List Row → Gathered
  gather_one g (inl failure) = record g { failures = g.failures ++ failure ∷ [] }
  gather_one g (inr rows) = record g { rows = g.rows ++ rows; searched = suc g.searched }

  unfoldable pub gather : Gathered → List ℕ → Gathered
  gather g [] = g
  gather g (origin ∷ to_fetch) = gather (gather_one g (fetch origin)) to_fetch

  -- if failures and not cached_rows: raise failures[0]
  abbrev pub answer : List Failure → List Row → ℕ → Failure ⊎ (List Row × ℕ)
  answer (failure ∷ failures) [] searched = inl failure
  answer failures rows searched = inr (rows, searched)

  unfoldable pub gather_all : ℕ → List ℕ → Gathered
  unfolding uncached cached_rows gather
  gather_all max_live origins =
      gather
        (record {
          rows = cached_rows origins;
          searched = length origins - length (uncached origins);
          failures = [];
        })
        (take max_live (uncached origins))

  unfoldable pub route_rows_for : ℕ → List ℕ → Failure ⊎ (List Row × ℕ)
  unfolding gather_all
  route_rows_for max_live origins =
      let g = gather_all max_live origins in answer g.failures g.rows g.searched

  abbrev rows_of : Failure ⊎ List Row → List Row
  rows_of (inl failure) = []
  rows_of (inr rows) = rows

  abbrev failure_of : Failure ⊎ List Row → List Failure
  failure_of (inl failure) = failure ∷ []
  failure_of (inr rows) = []

  abbrev succeeded : Failure ⊎ List Row → ℕ
  succeeded (inl failure) = 0
  succeeded (inr rows) = 1

  abbrev hit : Option (List Row) → ℕ
  hit none = 0
  hit (some rows) = 1

  -- The rows of the fetches that succeed, in order.
  unfoldable pub fetched_rows : List ℕ → List Row
  fetched_rows [] = []
  fetched_rows (origin ∷ to_fetch) = rows_of (fetch origin) ++ fetched_rows to_fetch

  -- What the other fetches raise, in order.
  unfoldable pub failures_of : List ℕ → List Failure
  failures_of [] = []
  failures_of (origin ∷ to_fetch) = failure_of (fetch origin) ++ failures_of to_fetch

  -- How many fetches succeed.
  unfoldable pub count_fetched : List ℕ → ℕ
  count_fetched [] = 0
  count_fetched (origin ∷ to_fetch) = succeeded (fetch origin) + count_fetched to_fetch

  unfoldable pub count_cached : List ℕ → ℕ
  count_cached [] = 0
  count_cached (origin ∷ origins) = hit (cached origin) + count_cached origins

  count_cached-uncached :
      (origins : List ℕ) → count_cached origins + length (uncached origins) ≡ length origins
  unfolding count_cached uncached
  count_cached-uncached [] = omega arith
  count_cached-uncached (origin ∷ origins) = one (cached origin) (count_cached-uncached origins)
    where
      one :
          (rows : Option (List Row))
          → count_cached origins + length (uncached origins) ≡ length origins
          → hit rows
              + count_cached origins
              + length (if is_none rows then origin ∷ uncached origins else uncached origins)
            ≡ suc (length origins)
      one none h = omega (arith, h)
      one (some rows) h = omega (arith, h)

  count_fetched-failures :
      (to_fetch : List ℕ) → count_fetched to_fetch + length (failures_of to_fetch) ≡ length to_fetch
  unfolding count_fetched failures_of
  count_fetched-failures [] = omega arith
  count_fetched-failures (origin ∷ to_fetch) = one (fetch origin) (count_fetched-failures to_fetch)
    where
      one :
          (result : Failure ⊎ List Row)
          → count_fetched to_fetch + length (failures_of to_fetch) ≡ length to_fetch
          → succeeded result
              + count_fetched to_fetch
              + length (failure_of result ++ failures_of to_fetch)
            ≡ suc (length to_fetch)
      one (inl failure) h = omega (arith, h)
      one (inr rows) h = omega (arith, h)

  length-take : (n : ℕ) (xs : List ℕ) → length (take n xs) + (length xs - n) ≡ length xs
  length-take zero xs = omega arith
  length-take (suc n) [] = omega arith
  length-take (suc n) (x ∷ xs) = omega (arith, length-take n xs)

  -- The loop adds the fetches to what it starts with.
  record Gathers (g : Gathered) (to_fetch : List ℕ) (after : Gathered) : Type 0 where
    rows_are : after.rows ≡ g.rows ++ fetched_rows to_fetch
    searched_is : after.searched ≡ g.searched + count_fetched to_fetch
    failures_are : after.failures ≡ g.failures ++ failures_of to_fetch

  gather_one-rows :
      (g : Gathered) (result : Failure ⊎ List Row)
      → (gather_one g result).rows ≡ g.rows ++ rows_of result
  gather_one-rows g (inl failure) = sym (append_nil g.rows)
  gather_one-rows g (inr rows) = refl

  gather_one-searched :
      (g : Gathered) (result : Failure ⊎ List Row)
      → (gather_one g result).searched ≡ g.searched + succeeded result
  gather_one-searched g (inl failure) = omega arith
  gather_one-searched g (inr rows) = omega arith

  gather_one-failures :
      (g : Gathered) (result : Failure ⊎ List Row)
      → (gather_one g result).failures ≡ g.failures ++ failure_of result
  gather_one-failures g (inl failure) = refl
  gather_one-failures g (inr rows) = sym (append_nil g.failures)

  gather-Gathers : (g : Gathered) (to_fetch : List ℕ) → Gathers g to_fetch (gather g to_fetch)
  unfolding gather fetched_rows failures_of count_fetched
  gather-Gathers g [] = record {
    rows_are = sym (append_nil g.rows);
    searched_is = omega arith;
    failures_are = sym (append_nil g.failures);
  }
  gather-Gathers g (origin ∷ to_fetch) =
      let result = fetch origin in
      let h : Gathers (gather_one g result) to_fetch (gather (gather_one g result) to_fetch) =
        gather-Gathers (gather_one g result) to_fetch in
      record {
        rows_are =
            h.rows_are
            ∙ ap (λ rows. rows ++ fetched_rows to_fetch) (gather_one-rows g result)
            ∙ append_assoc g.rows (rows_of result) (fetched_rows to_fetch);
        searched_is = omega (arith, h.searched_is, gather_one-searched g result);
        failures_are =
            h.failures_are
            ∙ ap (λ failures. failures ++ failures_of to_fetch) (gather_one-failures g result)
            ∙ append_assoc g.failures (failure_of result) (failures_of to_fetch);
      }

  -- What the result says of the origins that are cached, and of the fetches.
  abbrev pub Accounts : ℕ → List ℕ → Failure ⊎ (List Row × ℕ) → Type 0
  Accounts max_live origins (inl failure) =
      (cached_rows origins ++ fetched_rows (take max_live (uncached origins)) ≡ [])
      × ((others : List Failure) × (failures_of (take max_live (uncached origins))
            ≡ failure ∷ others))
  Accounts max_live origins (inr (rows, searched)) =
      (rows ≡ cached_rows origins ++ fetched_rows (take max_live (uncached origins)))
      × (searched ≡ count_cached origins + count_fetched (take max_live (uncached origins)))
      × (searched
            + length (failures_of (take max_live (uncached origins)))
            + (length (uncached origins) - max_live)
          ≡ length origins)
      × ((failures_of (take max_live (uncached origins)) ≡ []) ⊎ (rows ≢ []))

  answer-Accounts :
      (max_live : ℕ) (origins : List ℕ) (failures : List Failure) (rows : List Row) (searched : ℕ)
      → failures ≡ failures_of (take max_live (uncached origins))
      → rows ≡ cached_rows origins ++ fetched_rows (take max_live (uncached origins))
      → searched ≡ count_cached origins + count_fetched (take max_live (uncached origins))
      → searched
          + length (failures_of (take max_live (uncached origins)))
          + (length (uncached origins) - max_live)
        ≡ length origins
      → Accounts max_live origins (answer failures rows searched)
  answer-Accounts max_live origins [] rows searched f r n e = (r, n, e, inl (sym f))
  answer-Accounts max_live origins (failure ∷ others) [] searched f r n e = (sym r, (others, sym f))
  answer-Accounts max_live origins (failure ∷ others) (row ∷ rows) searched f r n e =
      (r, n, e, inr (λ k. let z : ⊥ = cc (k) in z))

  -- The search uses the rows of every cached origin and of the fetches that succeed, of the first
  -- `max_live` origins that are not cached, in that order, and counts each of these origins as searched.
  -- With the fetches that fail and the origins beyond `max_live` they are all the origins. It raises the
  -- first failure exactly where there is one and no row at all.
  pub route_rows_for-Accounts :
      (max_live : ℕ) (origins : List ℕ)
      → Accounts max_live origins (route_rows_for max_live origins)
  unfolding route_rows_for gather_all
  route_rows_for-Accounts max_live origins =
      let start : Gathered = record {
        rows = cached_rows origins;
        searched = length origins - length (uncached origins);
        failures = [];
      } in
      let live : List ℕ = take max_live (uncached origins) in
      let g : Gathered = gather start live in
      let h : Gathers start live g = gather-Gathers start live in
      let hits = count_cached-uncached origins in
      answer-Accounts max_live origins g.failures g.rows g.searched h.failures_are h.rows_are
        (omega (arith, h.searched_is, hits))
        (omega (
          arith,
          h.searched_is,
          hits,
          count_fetched-failures live,
          length-take max_live (uncached origins),
        ))
