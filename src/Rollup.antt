-- ===== src/Rollup.antt =====
-- The rollup of tests: backend/kernelCI_app/management/commands/helpers/process_pending_helpers.py
-- and _process_tests_rollup_batch of process_pending_aggregations.py.
pub mod Entries
pub mod Batch
pub mod Balance
pub mod Selected
pub mod Batches
pub mod Corrections
