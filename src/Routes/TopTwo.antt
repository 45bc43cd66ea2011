-- ===== src/Routes/TopTwo.antt =====
-- The two best candidates of the search (`find_best_route` of app/tools/route_ranking.py).
use mathlib.Core.List.{Perm}
use mathlib.Core.List.Perm
use graphling.Prelude.{
  ◌≡◌, refl, sym, ap, subst, true, false, Bool-cases, inl, inr, Option, none, some, Option-cases,
  List, [], ◌∷◌, All, Floats,
}
use graphling.Ledger.Models.{UexTradeRoute}
use graphling.Routes.Ranking.{Search, Found, Standing, candidate, beats, place, rank}

-- What the comparison of floats does where none of them is a NaN.
pub record Ordered (floats : Floats) : Type 0 where
  pub lt_asym : (a b : floats.Float) → floats.lt a b ≡ true → floats.lt b a ≡ false
  pub ge_trans :
      (a b c : floats.Float) → floats.lt a b ≡ false → floats.lt b c ≡ false → floats.lt a c ≡ false

module _ (floats : Floats) where
  -- None of the candidates scores higher.
  abbrev pub Unbeaten : Found floats → List (Found floats) → Type 0
  Unbeaten f = All (λ g. floats.lt f.score g.score ≡ false)

  -- The two that stand are the first two of the candidates in an order in which none of the others
  -- scores higher than the second, and the second not higher than the first; there is one that stands
  -- where there is one candidate, and none where there is none.
  abbrev pub Ranked : Option (Found floats) → Option (Found floats) → List (Found floats) → Type 0
  Ranked none none seen = seen ≡ []
  Ranked none (some r) seen = ⊥
  Ranked (some b) none seen = seen ≡ b ∷ []
  Ranked (some b) (some r) seen =
      (others : List (Found floats)) × Perm seen (b ∷ r ∷ others)
      × Unbeaten b (r ∷ others)
      × Unbeaten r others

  pub record TopTwo (standing : Standing floats) (seen : List (Found floats)) : Type 0 where
    pub ranked : Ranked standing.best standing.runner_up seen

  -- The candidates of the routes before those of `seen`, the last first.
  unfoldable pub qualifying :
      Search floats → List (Found floats) → List (UexTradeRoute floats) → List (Found floats)
  unfolding candidate
  qualifying search seen [] = seen
  qualifying search seen (route ∷ routes) =
      qualifying search (elim (candidate floats search route) [ none ↦ seen | some f ↦ f ∷ seen ])
        routes

  module _ (ordered : Ordered floats) where
    -- What beats a candidate that none of the others beats is not beaten by them either.
    higher-Unbeaten :
        (f b : Found floats) (seen : List (Found floats))
        → floats.lt b.score f.score ≡ true
        → Unbeaten b seen
        → Unbeaten f seen
    higher-Unbeaten f b [] h tops = tt
    higher-Unbeaten f b (g ∷ seen) h (t, ts) = (
      ordered.ge_trans f.score b.score g.score (ordered.lt_asym b.score f.score h) t,
      higher-Unbeaten f b seen h ts,
    )

    place-first :
        (b f : Found floats) (r : Option (Found floats)) (seen : List (Found floats))
        → Ranked (some b) r seen
        → floats.lt b.score f.score ≡ true
        → Ranked (some f) (some b) (f ∷ seen)
    place-first b f none seen h e =
        subst (λ xs. Ranked (some f) (some b) (f ∷ xs)) (sym h)
          ([], Perm.refl _, (ordered.lt_asym b.score f.score e, tt), tt)
    place-first b f (some r) seen (others, p, best, second) e = (
      r ∷ others,
      Perm.cons f p,
      (ordered.lt_asym b.score f.score e, higher-Unbeaten f b (r ∷ others) e best),
      best,
    )

    place-second :
        (b f : Found floats) (r : Option (Found floats)) (seen : List (Found floats))
        → Ranked (some b) r seen
        → floats.lt b.score f.score ≡ false
        → beats floats f r ≡ true
        → Ranked (some b) (some f) (f ∷ seen)
    place-second b f none seen h e k =
        subst (λ xs. Ranked (some b) (some f) (f ∷ xs)) (sym h) ([], Perm.swap b f [], (e, tt), tt)
    place-second b f (some r) seen (others, p, best, second) e k = (
      r ∷ others,
      Perm.trans (Perm.cons f p) (Perm.swap b f (r ∷ others)),
      (e, best),
      (ordered.lt_asym r.score f.score k, higher-Unbeaten f r others k second),
    )

    place-neither :
        (b f : Found floats) (r : Option (Found floats)) (seen : List (Found floats))
        → Ranked (some b) r seen
        → floats.lt b.score f.score ≡ false
        → beats floats f r ≡ false
        → Ranked (some b) r (f ∷ seen)
    place-neither b f none seen h e k = absurd (let z : ⊥ = cc (k) in z)
    place-neither b f (some r) seen (others, p, (t, best), second) e k = (
      f ∷ others,
      Perm.trans (Perm.cons f p)
          (Perm.trans (Perm.swap b f (r ∷ others)) (Perm.cons b (Perm.swap r f others))),
      (t, (e, best)),
      (k, second),
    )

    place-TopTwo :
        (b r : Option (Found floats)) (f : Found floats) (seen : List (Found floats))
        → Ranked b r seen
        → TopTwo (place floats (record { best = b; runner_up = r }) f) (f ∷ seen)
    unfolding place
    place-TopTwo none none f seen h = record { ranked = ap (λ xs. f ∷ xs) h }
    place-TopTwo none (some r) f seen h = absurd h
    place-TopTwo (some b) r f seen h = elim (Bool-cases (floats.lt b.score f.score)) [
      | inl e ↦ rw e (record { ranked = place-first b f r seen h e })
      | inr e ↦ elim (Bool-cases (beats floats f r)) [
        | inl k ↦ rw (e, k) (record { ranked = place-second b f r seen h e k })
        | inr k ↦ rw (e, k) (record { ranked = place-neither b f r seen h e k })
      ]
    ]

    rank-TopTwo_from :
        (search : Search floats) (standing : Standing floats) (routes : List (UexTradeRoute floats))
        (seen : List (Found floats))
        → TopTwo standing seen
        → TopTwo (rank floats search standing routes) (qualifying search seen routes)
    unfolding rank qualifying
    rank-TopTwo_from search standing [] seen h = h
    rank-TopTwo_from search standing (route ∷ routes) seen h =
        elim (Option-cases (candidate floats search route)) [
          | inl e ↦ rw e (rank-TopTwo_from search standing routes seen h)
          | inr (f, e) ↦ rw e (
              rank-TopTwo_from search (place floats standing f) routes (f ∷ seen)
                (place-TopTwo standing.best standing.runner_up f seen h.ranked))
        ]

    -- Where the comparison of the scores is asymmetric and its negation transitive, as it is without a
    -- NaN, the candidates of the search are, in some order, the best, the runner-up and the others: none
    -- scores higher than the best, and none of the others higher than the runner-up. Of one candidate
    -- there is a best alone, and of none neither.
    pub rank-TopTwo :
        (search : Search floats) (routes : List (UexTradeRoute floats))
        → TopTwo
            (rank floats search (record { best = none; runner_up = none }) routes)
            (qualifying search [] routes)
    rank-TopTwo search routes =
        rank-TopTwo_from search (record { best = none; runner_up = none }) routes []
          (record { ranked = refl })
