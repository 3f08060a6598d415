-- ===== src/Details.antt =====
-- The details of a tree: the accumulators of backend/kernelCI_app/views/treeDetailsSummaryView.py and
-- treeDetailsView.py, and the helpers that fill them, helpers/treeDetails.py and
-- helpers/treeDetailsRollup.py.
pub mod Tally
pub mod Misc
pub mod Row
pub mod Instance
pub mod Summary
pub mod Issues
pub mod Rows
pub mod RollupRow
pub mod Rollups
pub mod Agreement
pub mod Frame
pub mod Selected
pub mod Legacy
pub mod Counted
pub mod Outcome
pub mod RollupAgreement
pub mod RollupRows
pub mod RollupCounts
pub mod Columns
pub mod RollupView
pub mod Incidents
pub mod Failures
pub mod Platforms
pub mod Builds
pub mod BuildSummary
pub mod BuildCounts
pub mod View
pub mod IssueRows
pub mod Hardware
pub mod HardwareCounts
