-- ===== src/Tests/Aggregation.antt =====
-- Runs of the aggregation.
use kernelci_dashboard.Base.{◌≡◌, refl, some, List, [], ◌∷◌, String, string_eq, nat_eq, All}
use kernelci_dashboard.Base.Int.{pos, ◌+ℤ◌, ◌-ℤ◌}
use kernelci_dashboard.Base.Text.{is_prefix}
use kernelci_dashboard.Status.{passed, simplify_status}
use kernelci_dashboard.Aggregation.Models.{ProcessedItem}
use kernelci_dashboard.Aggregation.Counts.{
  Kind, build, boot, test, Outcome, inc, zero_counts, column,
}
use kernelci_dashboard.Aggregation.Processed.{find_entry, has_key, process_new_processed_entries}
use kernelci_dashboard.Aggregation.Items.{process_item}
use kernelci_dashboard.Aggregation.Effects.{only, change, process_item-change}
use kernelci_dashboard.Aggregation.TreeListing.{
  Context, get_tree_listing_key, collect_tree_listing_contexts, aggregate_contexts,
  aggregate_tree_listing,
}
use kernelci_dashboard.Aggregation.Totals.{total, sum_effects, aggregate_contexts-total}
use kernelci_dashboard.Aggregation.Stored.{IsRecorded, batch-IsRecorded}
use kernelci_dashboard.Aggregation.Credits.{credits}
use kernelci_dashboard.Aggregation.Ledger.{
  aggregate_tree_listing-credits, aggregate_tree_listing-repeat,
}
use kernelci_dashboard.Aggregation.Hardware.{HardwareContext, process_hardware_context}
use kernelci_dashboard.Aggregation.Repeats.{further_test_of_a_build}
use kernelci_dashboard.Tests.Data.{
  digest, mainline, defconfig, failed_test, tests, test_builds, pending_build, build_checkouts,
  null_entry,
}

abbrev key : String → String
key id = get_tree_listing_key digest "maestro" (some "mainline") (some "u") (some "master") id

-- the boot test was stored without a status
abbrev table : List ProcessedItem
table = null_entry "maestro|mainline|u|master|t1" ∷ []

abbrev contexts : List Context
contexts =
    collect_tree_listing_contexts digest tests test_builds (pending_build ∷ []) build_checkouts

abbrev written : List ProcessedItem
written =
    process_new_processed_entries table
      (aggregate_tree_listing digest table tests test_builds (pending_build ∷ []) build_checkouts).1

aggregate_tree_listing-credits_example :
    total "c1" boot inc
      (aggregate_tree_listing digest table tests test_builds (pending_build ∷ []) build_checkouts).0
    ≡ credits written "c1" boot inc contexts -ℤ credits table "c1" boot inc contexts
unfolding string_eq collect_tree_listing_contexts
aggregate_tree_listing-credits_example =
    aggregate_tree_listing-credits digest table tests test_builds (pending_build ∷ [])
      build_checkouts ((refl, (refl, tt)), ((refl, tt), (tt, tt))) "c1" boot inc

aggregate_tree_listing-repeat_example :
    ((checkout_id : String) (l : Kind) (o : Outcome)
      → total checkout_id l o
          (aggregate_tree_listing digest written tests test_builds
            (pending_build ∷ [])
            build_checkouts).0
        ≡ pos 0)
    × ((aggregate_tree_listing digest written tests test_builds
          (pending_build ∷ [])
          build_checkouts).1
        ≡ [])
unfolding string_eq collect_tree_listing_contexts
aggregate_tree_listing-repeat_example =
    aggregate_tree_listing-repeat digest table tests test_builds (pending_build ∷ [])
      build_checkouts ((refl, (refl, tt)), ((refl, tt), (tt, tt)))

aggregate_contexts-total_example :
    total "c1" test Outcome.failed (aggregate_contexts table contexts [] []).0
    ≡ total "c1" test Outcome.failed [] +ℤ sum_effects table "c1" test Outcome.failed contexts
unfolding string_eq collect_tree_listing_contexts has_key
aggregate_contexts-total_example =
    aggregate_contexts-total table contexts [] [] "c1" test Outcome.failed
      ((refl, (refl, tt)), ((refl, tt), (tt, tt))) (refl, (refl, (refl, tt)))

batch-IsRecorded_example :
    All (IsRecorded table (aggregate_contexts table contexts [] []).1) contexts
unfolding string_eq collect_tree_listing_contexts has_key
batch-IsRecorded_example =
    batch-IsRecorded table contexts [] [] ((refl, (refl, tt)), ((refl, tt), (tt, tt)))
      (refl, (refl, (refl, tt)))

-- a boot that is stored without a status and has passed
abbrev boot_entry : ProcessedItem
boot_entry = record { listing_item_key = "k"; checkout_id = "c1"; status = some passed }

process_item-change_example :
    column boot inc (process_item boot boot_entry zero_counts (null_entry "k" ∷ []) []).1
    ≡ column boot inc zero_counts
      +ℤ only boot boot (change (find_entry "k" "c1" (null_entry "k" ∷ [])) boot_entry inc)
unfolding find_entry
process_item-change_example =
    process_item-change boot boot inc boot_entry zero_counts (null_entry "k" ∷ []) [] refl

-- the second test of a build that the batch has counted
abbrev further : HardwareContext
further = record {
  test = failed_test;
  platform = "board";
  build = defconfig;
  checkout = mainline;
  test_key = "maestro|board|c1|t2";
  build_key = "maestro|board|c1|b1";
}

abbrev counted_entry : ProcessedItem
counted_entry = record {
  listing_item_key = "maestro|board|c1|b1";
  checkout_id = "c1";
  status = some passed;
}

further_test_of_a_build_example :
    column build inc
      (process_hardware_context further zero_counts
        (null_entry "maestro|board|c1|b1" ∷ [])
        (counted_entry ∷ [])).0
    ≡ column build inc zero_counts -ℤ pos 1
unfolding find_entry string_eq nat_eq is_prefix simplify_status
further_test_of_a_build_example =
    further_test_of_a_build further zero_counts (null_entry "maestro|board|c1|b1" ∷ [])
      (counted_entry ∷ []) passed (null_entry "maestro|board|c1|b1") counted_entry refl refl refl
      refl refl refl refl refl refl
