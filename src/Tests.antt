-- ===== src/Tests.antt =====
-- Runs of the model on small inputs, and the theorems applied to them.
pub mod CargoTests
pub mod LedgerTests
pub mod ServerTests
pub mod RouteTests
pub mod CatalogTests
pub mod TravelTests
pub mod ToolTests
