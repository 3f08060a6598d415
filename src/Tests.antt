-- ===== src/Tests.antt =====
-- Data, runs and instances of the theorems.
mod Data
mod Rows
mod Aggregation
mod Filters
mod Rollup
mod Ingest
mod Pending
mod Details
