-- ===== src/Pending.antt =====
-- The command of backend/kernelCI_app/management/commands/process_pending_aggregations.py: its
-- batches, the tables that they write, and the loop that drains the pending rows.
pub mod Store
pub mod Fetch
pub mod Write
pub mod Loop
pub mod Cursor
pub mod Batches
pub mod Retries
pub mod Termination
pub mod Counting
