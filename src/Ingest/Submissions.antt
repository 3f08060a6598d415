-- ===== src/Ingest/Submissions.antt =====
-- aggregate_checkouts_and_pendings of
-- backend/kernelCI_app/management/commands/helpers/aggregation_helpers.py.
use kernelci_dashboard.Base.{List, Option, none, some}
use kernelci_dashboard.Base.Dict.{Dict}
use kernelci_dashboard.Aggregation.Models.{Checkout, Build, PendingTest, PendingBuild}
use kernelci_dashboard.Pending.Store.{TreeListingRow}
use kernelci_dashboard.Ingest.Convert.{Test}
use kernelci_dashboard.Ingest.Tables.{aggregate_tests, aggregate_builds}
use kernelci_dashboard.Ingest.Latest.{TreeKey, LatestCheckout, aggregate_checkouts}
use kernelci_dashboard.Ingest.Listing.{update_tree_listing}

-- the tables that it writes
pub record AggregationTables : Type 0 where
  pub latest_checkouts : Dict TreeKey LatestCheckout
  pub tree_listing : List TreeListingRow
  pub pending_tests : List PendingTest
  pub pending_builds : List PendingBuild

-- `none` where the first statement fails: it raises, and nothing is written
unfoldable pub aggregate_checkouts_and_pendings :
    AggregationTables → List Checkout → List Test → List Build → Option AggregationTables
unfolding aggregate_checkouts update_tree_listing aggregate_tests aggregate_builds
aggregate_checkouts_and_pendings t checkouts tests builds =
    elim (aggregate_checkouts t.latest_checkouts checkouts) [
      | none ↦ none
      | some latest ↦ some (record {
        latest_checkouts = latest;
        tree_listing = update_tree_listing t.tree_listing checkouts;
        pending_tests = aggregate_tests t.pending_tests tests;
        pending_builds = aggregate_builds t.pending_builds builds;
      })
    ]
