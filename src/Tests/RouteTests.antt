-- ===== src/Tests/RouteTests.antt =====
-- A search over two routes (app/tools/route_ranking.py).
use graphling.Prelude.{
  ℕ, List, Option, ◌⊎◌, inl, inr, ◌==◌, if◌then◌else◌, ◌+ℤ◌, ◌-ℤ◌, ◌*ℤ◌, pos, ◌≡◌, refl, Bool, none,
  some, [], ◌∷◌, arith, whole_floats,
}
use graphling.Cargo.Sizes.{usable_container_sizes, sorted, distinct}
use graphling.Cargo.Packing.{
  reachable_scu, estimate_transfer_time, best_container_mix, estimated_profit,
}
use graphling.Ledger.Models.{UexTradeRoute}
use graphling.Routes.Rows.{route_rows_for, Accounts, route_rows_for-Accounts}
use graphling.Routes.Ranking.{Search, Standing, rank}
use graphling.Routes.TopTwo.{Ordered, TopTwo, qualifying, rank-TopTwo}

abbrev near_route : UexTradeRoute whole_floats
near_route = record {
  commodity_id = 5;
  commodity_name = "Gold";
  origin_terminal_id = 1;
  origin_terminal_name = "Area 18";
  destination_terminal_id = 2;
  destination_terminal_name = "Lorville";
  price_origin = pos 10;
  price_destination = pos 14;
  scu_origin = pos 64;
  scu_destination = pos 64;
  is_on_ground_destination = Bool.false;
  is_auto_load_origin = Bool.false;
  is_auto_load_destination = Bool.false;
  container_sizes_origin = [];
  container_sizes_destination = [];
}

abbrev far_route : UexTradeRoute whole_floats
far_route = record near_route { destination_terminal_id = 3; price_destination = pos 19 }

abbrev search_all : Search whole_floats
search_all = record {
  ship_scu = pos 64;
  terminals = [];
  commodity_id = none;
  excluded_name = λ route. Bool.false;
  exclude_ground = Bool.true;
  require_autoload = Bool.false;
  require_nqa = Bool.false;
  destination_terminal_ids = none;
  excluded_destination_terminal_ids = [];
  per_hour = Bool.false;
  seconds_per_crate = pos 4;
  modifier = λ size. pos 1;
  travel = λ route. some (pos 60);
}

abbrev nothing_yet : Standing whole_floats
nothing_yet = record { best = none; runner_up = none }

best_test :
    (rank whole_floats search_all nothing_yet (near_route ∷ far_route ∷ [])).best
    ≡ some (record {
      route = far_route;
      score = pos 576;
      profit = pos 576;
      rate = pos 576;
      scu = pos 64;
    })
unfolding rank reachable_scu usable_container_sizes sorted distinct ◌+ℤ◌ ◌*ℤ◌ estimate_transfer_time
    best_container_mix estimated_profit ◌-ℤ◌
best_test = refl

whole_floats-Ordered : Ordered whole_floats
whole_floats-Ordered = record {
  lt_asym = λ a b h. ground (arith, h);
  ge_trans = λ a b c h k. ground (arith, h, k);
}

rank-TopTwo_example :
    TopTwo whole_floats
      (rank whole_floats search_all nothing_yet (near_route ∷ far_route ∷ []))
      (qualifying whole_floats search_all [] (near_route ∷ far_route ∷ []))
rank-TopTwo_example =
    rank-TopTwo whole_floats whole_floats-Ordered search_all (near_route ∷ far_route ∷ [])

-- Origin 1 is cached, the fetch of 2 fails, and 3 has two rows.
abbrev some_cached : ℕ → Option (List ℕ)
some_cached origin = if origin == 1 then some (10 ∷ []) else none

abbrev some_fetched : ℕ → ℕ ⊎ List ℕ
some_fetched origin = if origin == 2 then inl 503 else inr (30 ∷ 31 ∷ [])

rows_test :
    route_rows_for some_cached some_fetched 2 (1 ∷ 2 ∷ 3 ∷ 4 ∷ []) ≡ inr (10 ∷ 30 ∷ 31 ∷ [], 2)
unfolding route_rows_for
rows_test = refl

route_rows_for-Accounts_example :
    Accounts some_cached some_fetched 2
      (1 ∷ 2 ∷ 3 ∷ 4 ∷ [])
      (route_rows_for some_cached some_fetched 2 (1 ∷ 2 ∷ 3 ∷ 4 ∷ []))
route_rows_for-Accounts_example =
    route_rows_for-Accounts some_cached some_fetched 2 (1 ∷ 2 ∷ 3 ∷ 4 ∷ [])
