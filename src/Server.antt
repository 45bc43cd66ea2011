-- ===== src/Server.antt =====
-- The server's guards and gateways (app/server/).
pub mod RateLimiter
pub mod RateWindow
pub mod RateBound
pub mod DailyCounter
pub mod UexBudget
pub mod ToolCallIds
pub mod Gateway
pub mod Probe
pub mod Verdict
pub mod ProbeGate
pub mod Routing
