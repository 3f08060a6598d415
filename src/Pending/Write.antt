-- ===== src/Pending/Write.antt =====
-- The methods that write: _process_hardware_status, _process_tree_listing, their batches, and the
-- deletion of the rows that are done.
use kernelci_dashboard.Base.{
  ℕ, zero, suc, String, Bool, true, false, not, ◌&&◌, Option, none, some, List, [], ◌∷◌, map, ◌==◌,
  contains, string_eq, option_eq, if◌then◌else◌, keep,
}
use kernelci_dashboard.Base.Dict.{Dict, lookup, insert}
use kernelci_dashboard.Base.Int.{◌+ℤ◌}
use kernelci_dashboard.Aggregation.Models.{Checkout, Build, PendingTest, PendingBuild}
use kernelci_dashboard.Aggregation.Counts.{ListingItemCount}
use kernelci_dashboard.Aggregation.Processed.{process_new_processed_entries}
use kernelci_dashboard.Aggregation.TreeListing.{
  TreeListingRecord, TreeListingData, aggregate_tree_listing,
}
use kernelci_dashboard.Aggregation.Hardware.{
  hardware_key_eq, HardwareStatusData, aggregate_hardware_status,
}
use kernelci_dashboard.Rollup.Batch.{process_tests_rollup_batch}
use kernelci_dashboard.Pending.Store.{Store, TreeListingRow}

abbrev pub add_all : ListingItemCount → ListingItemCount → ListingItemCount
add_all a b = record {
  build_pass = a.build_pass +ℤ b.build_pass;
  build_failed = a.build_failed +ℤ b.build_failed;
  build_inc = a.build_inc +ℤ b.build_inc;
  boot_pass = a.boot_pass +ℤ b.boot_pass;
  boot_failed = a.boot_failed +ℤ b.boot_failed;
  boot_inc = a.boot_inc +ℤ b.boot_inc;
  test_pass = a.test_pass +ℤ b.test_pass;
  test_failed = a.test_failed +ℤ b.test_failed;
  test_inc = a.test_inc +ℤ b.test_inc;
}

-- INSERT … ON CONFLICT DO UPDATE: the row that is there keeps its other columns
unfoldable pub process_hardware_status :
    HardwareStatusData → HardwareStatusData → HardwareStatusData
unfolding lookup insert
process_hardware_status rows [] = rows
process_hardware_status rows ((k, x) ∷ d) =
    process_hardware_status
      (elim (lookup k rows) [
        | none ↦ insert k x rows
        | some old ↦ insert k (record old { counts = add_all old.counts x.counts }) rows
      ])
      d

-- the WHERE of the UPDATE: NULLs are equal
unfoldable pub is_row_of : TreeListingRecord → TreeListingRow → Bool
is_row_of x row =
    row.origin == x.checkout.origin
    && row.tree_name == x.checkout.tree_name
    && row.git_repository_branch == x.checkout.git_repository_branch
    && row.git_repository_url == x.checkout.git_repository_url
    && row.git_commit_hash == x.checkout.git_commit_hash

unfoldable pub update_row : TreeListingRecord → TreeListingRow → TreeListingRow
unfolding is_row_of
update_row x row =
    if is_row_of x row then record row { counts = add_all row.counts x.counts } else row

-- The code sorts the records first, for the order of its locks; the sums do not depend on it.
unfoldable pub process_tree_listing : List TreeListingRow → TreeListingData → List TreeListingRow
unfolding update_row
process_tree_listing rows [] = rows
process_tree_listing rows ((_, x) ∷ d) = process_tree_listing (map (update_row x) rows) d

-- How an attempt at the transaction on tree_listing ends.
pub data Attempt : Type 0 where
  committed deadlock other_failure : Attempt

unfoldable pub process_hardware_batch :
    (String → String) → List PendingTest → Dict String Build → Store → Store
unfolding aggregate_hardware_status process_hardware_status process_new_processed_entries
process_hardware_batch sha256 ready_tests test_builds s =
    let (hardware, entries) =
      aggregate_hardware_status sha256 s.processed_items ready_tests test_builds in
    record s {
      hardware_status = process_hardware_status s.hardware_status hardware;
      processed_items = process_new_processed_entries s.processed_items entries;
    }

unfoldable pub process_rollup_batch :
    (String → String) → List PendingTest → Dict String Build → Store → Store
unfolding process_tests_rollup_batch
process_rollup_batch sha256 ready_tests test_builds s =
    let (rows, processed) =
      process_tests_rollup_batch sha256 ready_tests test_builds s.incidents s.tree_tests_rollup
        s.processed_items in
    record s { tree_tests_rollup = rows; processed_items = processed }

-- `for attempt in range(max_retries)`, from an attempt on with as many left: whether the transaction
-- was committed (`some true`), never tried (`some false`), or the exception is raised (`none`).
unfoldable pub attempts : (ℕ → Attempt) → ℕ → ℕ → Option Bool
attempts outcome zero attempt = some false
attempts outcome (suc left) attempt =
    let again = attempts outcome left (suc attempt) in
    elim (outcome attempt) [
      | committed ↦ some true
      | deadlock ↦ elim left [ zero ↦ none | suc _ ↦ again ]
      | other_failure ↦ none
    ]

unfoldable pub process_tree_listing_batch :
    (String → String)
    → (ℕ → Attempt)
    → ℕ
    → List PendingTest
    → Dict String Build
    → List PendingBuild
    → Dict String Checkout
    → Store
    → Option Store
unfolding attempts aggregate_tree_listing process_tree_listing process_new_processed_entries
process_tree_listing_batch sha256 outcome max_retries ready_tests test_builds ready_builds
      build_checkouts s =
    let (listing, entries) =
      aggregate_tree_listing sha256 s.processed_items ready_tests test_builds ready_builds
        build_checkouts in
    elim (attempts outcome max_retries 0) [
      | none ↦ none
      | some false ↦ some s
      | some true ↦ some (record s {
        tree_listing = process_tree_listing s.tree_listing listing;
        processed_items = process_new_processed_entries s.processed_items entries;
      })
    ]

unfoldable pub delete_ready_tests : List PendingTest → List PendingTest → List PendingTest
unfolding keep
delete_ready_tests ready_tests pending =
    keep (λ t. not (contains (map (λ r. r.test_id) ready_tests) t.test_id)) pending

unfoldable pub delete_ready_builds : List PendingBuild → List PendingBuild → List PendingBuild
unfolding keep
delete_ready_builds ready_builds pending =
    keep (λ b. not (contains (map (λ r. r.build_id) ready_builds) b.build_id)) pending
