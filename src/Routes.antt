-- ===== src/Routes.antt =====
-- The search for a trade route (app/tools/).
pub mod Rows
pub mod Ranking
pub mod TopTwo
