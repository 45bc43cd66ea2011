-- ===== src/Lib.antt =====
-- A model of the core of Graphling, a voice assistant for traders: the ledger of trade runs and
-- the tools that update it, the packing of cargo, the ranking of routes, the names of the catalog, the
-- travel time, and the guards of the server.
--
-- The parts:
-- Ledger: the pilots' trade runs. A run has a leg that buys and a leg that sells, and each leg goes
--   through a sequence of milestones. Ledger.Models has the rows (app/db/models.py) and the route of a
--   new run (app/tools/uexcorp/trade_data.py), Ledger.Milestones and Ledger.Totals the functions of
--   app/db/trade_run_store.py, Ledger.Tables the two tables of the database and its queries,
--   Ledger.Owned, Create, Queries, Legs and Runs the operations of app/server/ledger_service.py under
--   their own names, and Ledger.Requests the routes of app/server/routes/ledger.py. Ledger.Consistent
--   is the invariant of the tables. Ledger.Rows, Edits, OwnedRows, LegEdits, LegOperations, RunEdits,
--   RunOperations, Deletion, Written and ProgressRows and Created say which rows an operation touches; Ledger.Integrity, Isolation,
--   Stamps, Siblings, Answers, Progress and WriteOff are about what an operation keeps and does.
-- Cargo: app/tools/cargo_packing.py. Cargo.Sizes has the container sizes and their texts,
--   Cargo.Packing the tables and sums; Cargo.Relax and Best are about the table of best totals,
--   Cargo.Mix and MixTotal about the container mix.
-- Server: Server.RateLimiter is `RateLimiter` of app/server/limits.py (RateWindow and RateBound are
--   about its queue), Server.DailyCounter is the class of that name there, Server.UexBudget is
--   app/server/uex_budget.py, Server.ToolCallIds is app/server/tool_call_ids.py, Server.Gateway is the
--   routing of app/server/llm_gateway_service.py (Server.Routing is about who answers), and Server.Probe
--   its health probe (Verdict and ProbeGate are about what it finds and lets through).
-- Routes: Routes.Ranking is the loop of `find_best_route` in app/tools/route_ranking.py, Routes.Rows
--   its rows (`_route_rows_for`), and Routes.TopTwo is about the two candidates it keeps.
-- Catalog: what a spoken name means. Catalog.Entities is app/tools/uexcorp/reference_cache.py,
--   Catalog.Vocabulary is app/vocabulary/aliases.py, Catalog.Matching has `resolve_or_hedge` of
--   app/tools/uexcorp/matching.py and its layers, Catalog.Regions the places and anchors there and
--   Catalog.Filters its filters of rows; Catalog.Resolution is app/tools/uexcorp/catalog_resolution.py.
--   Catalog.Fuzzy has the libraries they call. Pooled, FromPool, OwnName, PlaceTerminals, Reached,
--   Nearest, Ranked and Chosen are about what they find.
-- Travel: the time and fuel of a trip. Travel.Places has the ship data and positions of
--   app/tools/starcitizenwiki/ and the lookups in them, Travel.Flight, Builder, Terminals and Trip are
--   app/tools/travel_time.py from the jumps to `estimate_trip`, and Travel.SpeedCache is the shared
--   cache of `get_ship_speed` as a step relation. SamePlace, Names, Nearby, Explained,
--   Reasons, Outcome and SpeedOnce are about what they answer.
-- Tools: what a pilot's words do to a trade run. Tools.Resolver is
--   app/tools/trade_run/resolver.py, and Tools.Updates has the tools beside it that update a leg, with
--   `catch_up_before_transaction` of app/ledger_client.py and the failures of app/tools/uplink_tool.py.
--   CatchUp, OwnLeg, Acquired and Sold are about them.
-- Tests: runs on small inputs. Prelude: what the parts share.
-- They meet here: a run is made from a route with the container sizes of Cargo, a route is scored by
-- the load and the mix of Cargo, and the ledger's operations are called by its requests only.
-- A trip is between terminals that the catalog resolves. The tools resolve a leg by the names in the
-- catalog and update it by the ledger's operations.
--
-- How the code is modelled:
-- - The two tables are a record, and an operation takes them and returns the new ones, or an error. A
--   session of the code is one transaction, so an operation that raises changes nothing. The ids, the
--   creation times and the readings of the clock are arguments. Two requests do not interleave within
--   a transaction.
-- - Quantities and prices are integers; where an operation writes one that its column, of 32 bits, does
--   not hold, or rounds a price that is not finite, it ends in the error of the database or of `round`.
--   Ids and times are natural numbers, and texts that the code
--   reads character by character are lists of code points. Floats are a parameter (Prelude.Numbers).
-- - The loops of the packing are recursion on the rounds that `range` gives. The loop that reads the
--   mix off is on fuel: the capacity, since each round takes at least one from what remains. No round
--   is cut short by it, or the mix would not have its total.
-- - The loop that brings a leg up to its transaction is on fuel: a leg has at most four milestones, and
--   each round sets one.
-- - The limiter's clock and window are natural numbers; the sum of calls per day is a list of rows.
-- - A chat of the gateway is one step: what the box answers, the clock after it and the database's
--   answers on the day's spend are arguments, and no other chat changes the bench meanwhile.
-- - The scores of the string library are natural numbers in a unit of their own, and the library, the
--   phonetic code and the case tables are one record that the matching takes. An item's identity is its
--   fields. A message of the matching is a value with what it names.
--
-- Not modelled: the conversation graph, speech, the overlay and the launcher, which call a language
-- model, audio devices and windows; the refresh of the caches; the calls of the wiki's API; the streams
-- and translations of the gateway; accounts and migrations. In the ranking the travel time is an
-- argument. A call of the server always arrives and answers. A division by zero, which raises in the code, is whatever the parameter makes it.
pub mod Prelude
pub mod Cargo
pub mod Catalog
pub mod Travel
pub mod Tools
pub mod Ledger
pub mod Server
pub mod Routes
pub mod Tests
