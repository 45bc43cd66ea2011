-- ===== src/Catalog/Chosen.antt =====
-- What `resolve` of app/tools/uexcorp/catalog_resolution.py settles on.
use graphling.Prelude.{
  Text, ◌+◌, ◌≤◌, ◌≡◌, refl, ap, subst, Bool, true, false, not, ◌&&◌, Bool-cases, Option, none,
  some, ◌≢◌, inl, inr, List, [], ◌∷◌, ◌++◌, map, filter, length, take, ltb, All, arith,
  if◌then◌else◌,
}
use graphling.Catalog.Entities.{UexReferenceCache}
use graphling.Catalog.Fuzzy.{Libraries, points}
use graphling.Catalog.Matching.{low_confidence_max}
use graphling.Catalog.Resolution.{
  Action, Entity, PriceRow, Candidate, Patterns, confident_margin, max_options, spoken_kind, Spoken,
  max_checked, Resolution, nothing_matching, no_terminal, which_one, chosen, of_action, candidates,
  is_available, leads, first_available, is_sure_candidate, pick, settle, fetched, resolve_checked,
  resolve,
}
use graphling.Catalog.Ranked.{
  Allowed, Descending, sorted-All, sorted-Descending, checked-All, checked-Descending,
  of_action-Allowed,
}

module _ (libraries : Libraries) (patterns : Patterns) (action : Action) where
  -- The first available candidate and what is around it.
  record Around (checked before : List Candidate) (top : Candidate) (after : List Candidate)
      : Type 0 where
    whole : checked ≡ before ++ (top ∷ after)
    skipped : All (λ c. is_available libraries patterns action c ≡ false) before
    available : is_available libraries patterns action top ≡ true

  AroundOption : List Candidate → Option (List Candidate × Candidate × List Candidate) → Type 0
  AroundOption checked none = Unit
  AroundOption checked (some (before, top, after)) = Around checked before top after

  first_available-Around :
      (checked : List Candidate)
      → AroundOption checked (first_available libraries patterns action checked)
  unfolding first_available AroundOption
  first_available-Around [] = tt
  first_available-Around (c ∷ checked) =
      elim (Bool-cases (is_available libraries patterns action c)) [
        | inl e ↦ rw e (record { whole = refl; skipped = tt; available = e })
        | inr e ↦ rw e (
            go e (first_available libraries patterns action checked)
              (first_available-Around checked))
      ]
    where
      go :
          is_available libraries patterns action c ≡ false
          → (o : Option (List Candidate × Candidate × List Candidate)) → AroundOption checked o
          → AroundOption
              (c ∷ checked)
              (elim o [ none ↦ none | some (before, top, after) ↦ some (c ∷ before, top, after) ])
      go e none h = tt
      go e (some (before, top, after)) h = record {
        whole = ap (λ cs. c ∷ cs) h.whole;
        skipped = (e, h.skipped);
        available = h.available;
      }

  -- The chosen candidate is one that the action allows and that a terminal offers; the checked
  -- candidates before it have no offer, and those after it that have one score lower by the margin.
  pub record Clear (checked : List Candidate) (c : Candidate) : Type 0 where
    pub before : List Candidate
    pub after : List Candidate
    pub whole : checked ≡ before ++ (c ∷ after)
    pub allowed : Allowed action c.entity
    pub available : is_available libraries patterns action c ≡ true
    pub skipped : All (λ d. is_available libraries patterns action d ≡ false) before
    pub leads_by :
        All
          (λ d.
            is_available libraries patterns action d ≡ true
            → points libraries confident_margin + d.score ≤ c.score)
          after

  abbrev pub Settled : List Candidate → Resolution → Type 0
  Settled checked (chosen c understood_as judgement) = Clear checked c
  Settled checked (which_one query options) = (2 ≤ length options) × (length options ≤ max_options)
  Settled checked _ = Unit

  append-All : (P : Candidate → Type 0) (xs ys : List Candidate) → All P (xs ++ ys) → All P ys
  append-All P [] ys p = p
  append-All P (x ∷ xs) ys (h, p) = append-All P xs ys p

  append-Descending : (xs ys : List Candidate) → Descending (xs ++ ys) → Descending ys
  append-Descending [] ys d = d
  append-Descending (x ∷ xs) ys (h, d) = append-Descending xs ys d

  -- The available ones of a list score no more than the first of them.
  Bound : List Candidate → List Candidate → Type 0
  Bound [] after = All (λ d. is_available libraries patterns action d ≢ true) after
  Bound (next ∷ others) after =
      All (λ d. is_available libraries patterns action d ≡ true → d.score ≤ next.score) after

  skip-Bound :
      (a : Candidate) (others after : List Candidate)
      → is_available libraries patterns action a ≢ true
      → Bound others after
      → Bound others (a ∷ after)
  unfolding Bound
  skip-Bound a [] after n h = (n, h)
  skip-Bound a (next ∷ others) after n h = ((λ t. absurd (n t)), h)

  first-bound :
      (a : Candidate) (cs : List Candidate)
      → All (λ d. d.score ≤ a.score) cs
      → All (λ d. is_available libraries patterns action d ≡ true → d.score ≤ a.score) cs
  first-bound a [] h = tt
  first-bound a (c ∷ cs) (h, hs) = ((λ t. h), first-bound a cs hs)

  filter-Bound :
      (after : List Candidate)
      → Descending after
      → Bound (filter (is_available libraries patterns action) after) after
  unfolding Bound
  filter-Bound [] d = tt
  filter-Bound (a ∷ after) (top, d) = elim (Bool-cases (is_available libraries patterns action a)) [
    | inl e ↦ rw e ((λ t. omega arith), first-bound a after top)
    | inr e ↦
        let n : is_available libraries patterns action a ≢ true = λ t. let z : ⊥ = cc (t, e) in z in
        rw e (
          skip-Bound a (filter (is_available libraries patterns action) after) after n
            (filter-Bound after d))
  ]

  module _ (query : Text) (checked before after : List Candidate) (top : Candidate)
      (around : Around checked before top after) (allowed : Allowed action top.entity) where
    clear :
        All
          (λ d.
            is_available libraries patterns action d ≡ true
            → points libraries confident_margin + d.score ≤ top.score)
          after
        → Clear checked top
    clear h = record {
      before = before;
      after = after;
      whole = around.whole;
      allowed = allowed;
      available = around.available;
      skipped = around.skipped;
      leads_by = h;
    }

    none_available :
        (cs : List Candidate)
        → All (λ d. is_available libraries patterns action d ≢ true) cs
        → All
            (λ d.
              is_available libraries patterns action d ≡ true
              → points libraries confident_margin + d.score ≤ top.score)
            cs
    none_available [] h = tt
    none_available (c ∷ cs) (h, hs) = ((λ t. absurd (h t)), none_available cs hs)

    next_below :
        (next : Candidate) (cs : List Candidate)
        → points libraries confident_margin + next.score ≤ top.score
        → All (λ d. is_available libraries patterns action d ≡ true → d.score ≤ next.score) cs
        → All
            (λ d.
              is_available libraries patterns action d ≡ true
              → points libraries confident_margin + d.score ≤ top.score)
            cs
    next_below next [] l h = tt
    next_below next (c ∷ cs) l (h, hs) = ((λ t. omega (arith, l, h t)), next_below next cs l hs)

    pick-Settled :
        (rivals others : List Candidate)
        → Bound others after
        → Settled checked (pick libraries patterns query action checked rivals top others)
    unfolding pick Bound
    pick-Settled rivals [] h =
        elim (Bool-cases (ltb top.score (points libraries low_confidence_max))) [
          | inl e ↦ rw e tt
          | inr e ↦ rw e (clear (none_available after h))
        ]
    pick-Settled rivals (next ∷ others) h =
        elim (Bool-cases (leads libraries patterns top (some next) confident_margin)) [
          | inl e ↦ rw e (clear (next_below next after (ground (arith, e)) h))
          | inr e ↦ rw e (omega arith, length-options others)
        ]
      where
        length-options :
            (cs : List Candidate)
            → length
                (map (λ (c : Candidate). spoken_kind c.entity) (take max_options (top ∷ next ∷ cs)))
              ≤ max_options
        length-options [] = omega arith
        length-options (c ∷ cs) = omega arith

  settle-Settled :
      (query : Text) (best_named : Candidate) (checked : List Candidate)
      → Descending checked
      → All (λ c. Allowed action c.entity) checked
      → Settled checked (settle libraries patterns query action best_named checked)
  unfolding settle AroundOption
  settle-Settled query best_named checked d allowed =
      go (first_available libraries patterns action checked) (first_available-Around checked)
    where
      done :
          (r : Resolution) (b : Bool) (x : Spoken)
          → Settled checked r
          → Settled checked (if b then no_terminal action x else r)
      done r true x h = tt
      done r false x h = h

      go :
          (o : Option (List Candidate × Candidate × List Candidate))
          → AroundOption checked o
          → Settled checked (elim o [
            | none ↦
                if is_sure_candidate libraries patterns best_named
                then no_terminal action (spoken_kind best_named.entity)
                else nothing_matching query action
            | some (before, top, after) ↦
                if not (is_available libraries patterns action best_named)
                  && is_sure_candidate libraries patterns best_named
                  && leads libraries patterns best_named (some top) confident_margin
                then no_terminal action (spoken_kind best_named.entity)
                else pick libraries patterns query action checked
                    (filter (is_sure_candidate libraries patterns) (before ++ after))
                    top
                    (filter (is_available libraries patterns action) after)
          ])
      go none h =
          done (nothing_matching query action) (is_sure_candidate libraries patterns best_named)
            (spoken_kind best_named.entity) tt
      go (some (before, top, after)) h =
          let here =
            append-All (λ c. Allowed action c.entity) before (top ∷ after)
              (subst (All (λ c. Allowed action c.entity)) h.whole allowed) in
          let falls = append-Descending before (top ∷ after) (subst Descending h.whole d) in
          done
            (pick libraries patterns query action checked
              (filter (is_sure_candidate libraries patterns) (before ++ after)) top
              (filter (is_available libraries patterns action) after))
            (not (is_available libraries patterns action best_named)
              && is_sure_candidate libraries patterns best_named
              && leads libraries patterns best_named (some top) confident_margin)
            (spoken_kind best_named.entity)
            (pick-Settled query checked before after top h (here.0)
              (filter (is_sure_candidate libraries patterns) (before ++ after))
              (filter (is_available libraries patterns action) after)
              (filter-Bound after (falls.1)))

-- A choice that `resolve` makes is a candidate the action allows and that a terminal offers; the
-- checked candidates before it, which score at least as high, have no offer, and those after it
-- that have one score lower by the margin; where it asks, it names two or three candidates.
pub resolve-Settled :
    (libraries : Libraries) (patterns : Patterns) (query : Text) (action : Action)
    (cache : UexReferenceCache) (fetch_rows : Entity → List PriceRow)
    → let checked =
        map
          (fetched libraries patterns fetch_rows)
          (take max_checked (candidates libraries patterns query action cache)) in
      Descending checked
      × Settled libraries patterns action checked
          (resolve libraries patterns query action cache fetch_rows)
unfolding resolve candidates
resolve-Settled libraries patterns query action cache fetch_rows = (falls, go checked falls allowed)
  where
    checked : List Candidate
    checked =
        map (fetched libraries patterns fetch_rows)
          (take max_checked (candidates libraries patterns query action cache))

    falls : Descending checked
    falls =
        checked-Descending libraries patterns action fetch_rows max_checked
          (candidates libraries patterns query action cache)
          (sorted-Descending libraries patterns action
            (of_action libraries patterns query action cache))

    allowed : All (λ (c : Candidate). Allowed action c.entity) checked
    allowed =
        checked-All libraries patterns action fetch_rows (λ c. Allowed action c.entity) (λ c k. k)
          max_checked (candidates libraries patterns query action cache)
          (sorted-All libraries patterns action (λ c. Allowed action c.entity)
            (of_action libraries patterns query action cache)
            (of_action-Allowed libraries patterns query action cache))

    go :
        (cs : List Candidate)
        → Descending cs
        → All (λ (c : Candidate). Allowed action c.entity) cs
        → Settled libraries patterns action cs (resolve_checked libraries patterns query action cs)
    go [] d a = tt
    go (c ∷ cs) d a = settle-Settled libraries patterns action query c (c ∷ cs) d a
