-- ===== src/Ingest.antt =====
-- What the ingester hands on to the aggregation:
-- backend/kernelCI_app/management/commands/helpers/aggregation_helpers.py.
pub mod Convert
pub mod Tables
pub mod Merge
pub mod Latest
pub mod Listing
pub mod LogExcerpt
pub mod Excerpts
pub mod Uploads
pub mod Submissions
