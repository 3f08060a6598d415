-- ===== src/Filters.antt =====
-- backend/kernelCI_app/helpers/filters.py: the filters of a request, and which rows they keep.
pub mod Issues
pub mod Attribution
pub mod Request
pub mod Params
pub mod Rows
pub mod Bounds
pub mod IssueChoice
pub mod Kept
pub mod Records
pub mod Parsing
pub mod Uncategorized
pub mod IssueListing
