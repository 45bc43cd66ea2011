-- ===== src/Tools.antt =====
-- The tools that a pilot's words call to update a trade run (app/tools/trade_run/).
pub mod Resolver
pub mod Updates
pub mod CatchUp
pub mod OwnLeg
pub mod Acquired
pub mod Sold
