-- ===== src/Ledger.antt =====
-- The trade-run ledger: the rows (app/db/models.py), the helpers over loaded rows
-- (app/db/trade_run_store.py) and the service that changes them (app/server/ledger_service.py).
pub mod Models
pub mod Milestones
pub mod Totals
pub mod Tables
pub mod Owned
pub mod Create
pub mod Queries
pub mod Legs
pub mod Runs
pub mod Requests
pub mod Created
pub mod Rows
pub mod Edits
pub mod Consistent
pub mod OwnedRows
pub mod Written
pub mod ProgressRows
pub mod LegEdits
pub mod LegOperations
pub mod RunEdits
pub mod RunOperations
pub mod Deletion
pub mod Integrity
pub mod Isolation
pub mod Stamps
pub mod Siblings
pub mod Answers
pub mod Progress
pub mod WriteOff
