-- ===== src/Aggregation.antt =====
-- The aggregation of pending tests and builds into listing counters, of
-- backend/kernelCI_app/management/commands/process_pending_aggregations.py.
pub mod Models
pub mod Counts
pub mod Processed
pub mod Items
pub mod Effects
pub mod TreeListing
pub mod Totals
pub mod Stored
pub mod Credits
pub mod Ledger
pub mod Hardware
pub mod Repeats
