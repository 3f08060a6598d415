-- ===== src/Pending/Store.antt =====
-- The tables that the command reads and writes. The rows that wait are kept in the order of their
-- ids. The command is the only writer, as its source demands, and what the ingester adds meanwhile
-- is not modelled.
use kernelci_dashboard.Base.{ℕ, String, Option, List}
use kernelci_dashboard.Base.Dict.{Dict}
use kernelci_dashboard.Aggregation.Models.{
  Checkout, Build, PendingTest, PendingBuild, ProcessedItem,
}
use kernelci_dashboard.Aggregation.Counts.{ListingItemCount}
use kernelci_dashboard.Aggregation.Hardware.{HardwareStatusData}
use kernelci_dashboard.Rollup.Entries.{RollupData, Incident}

-- a row of tree_listing
pub record TreeListingRow : Type 0 where
  pub origin : String
  pub tree_name : Option String
  pub git_repository_branch : Option String
  pub git_repository_url : Option String
  pub git_commit_hash : Option String
  pub checkout_id : String
  pub git_commit_name : Option String
  pub git_commit_tags : Option (List String)
  pub start_time : Option ℕ
  pub counts : ListingItemCount

pub record Store : Type 0 where
  pub pending_tests : List PendingTest
  pub pending_builds : List PendingBuild
  pub builds : Dict String Build
  pub checkouts : Dict String Checkout
  pub incidents : List Incident
  pub processed_items : List ProcessedItem
  pub hardware_status : HardwareStatusData
  pub tree_listing : List TreeListingRow
  pub tree_tests_rollup : RollupData
