-- ===== src/Aggregation/Ledger.antt =====
-- The tree listing as a ledger: its counters follow the entries of the table of processed items.
use kernelci_dashboard.Base.{String, ◌≡◌, refl, ap, ◌∙◌, false, List, [], string_eq, All}
use kernelci_dashboard.Base.Dict.{Dict}
use kernelci_dashboard.Base.Int.{pos, ◌-ℤ◌, int_laws}
use kernelci_dashboard.Aggregation.Models.{
  Checkout, Build, PendingTest, PendingBuild, ProcessedItem,
}
use kernelci_dashboard.Aggregation.Counts.{Kind, Outcome}
use kernelci_dashboard.Aggregation.Processed.{process_new_processed_entries}
use kernelci_dashboard.Aggregation.TreeListing.{
  Context, TreeListingData, keys_of, collect_tree_listing_contexts, aggregate_contexts,
  aggregate_tree_listing,
}
use kernelci_dashboard.Aggregation.Totals.{total, Distinct, aggregate_contexts-total}
use kernelci_dashboard.Aggregation.Stored.{is_written, batch-IsRecorded, batch-Unique}
use kernelci_dashboard.Aggregation.Credits.{
  credits, IsAfter, sum_effects-credits, keys_of-AllIn, fresh_start, aggregate_tree_listing-loop,
  reads, AllAfter, credits-reads, total-empty, AllAfter-settled, keep-IsAfter, no_entries,
}

module _ (sha256 : String → String) (table : List ProcessedItem) (tests : List PendingTest)
    (test_builds : Dict String Build) (builds : List PendingBuild)
    (checkouts : Dict String Checkout)
    (distinct : Distinct
      (collect_tree_listing_contexts sha256 tests test_builds builds checkouts)) where
  abbrev contexts : List Context
  contexts = collect_tree_listing_contexts sha256 tests test_builds builds checkouts

  abbrev run : List ProcessedItem → TreeListingData × List ProcessedItem
  run t = aggregate_tree_listing sha256 t tests test_builds builds checkouts

  -- the table once the entries of the batch are written
  abbrev table_after : List ProcessedItem
  table_after = process_new_processed_entries table (run table).1

  run-loop : (t : List ProcessedItem) → run t ≡ aggregate_contexts (reads t contexts) contexts [] []
  run-loop t = aggregate_tree_listing-loop sha256 t tests test_builds builds checkouts

  batch-IsAfter : All (IsAfter (reads table contexts) table_after) contexts
  batch-IsAfter = rw (run-loop table) (
      AllAfter table (keys_of contexts) _ contexts
        (batch-Unique (reads table contexts) contexts [] [] distinct (fresh_start contexts) tt)
        (keys_of-AllIn contexts)
        (batch-IsRecorded (reads table contexts) contexts [] [] distinct (fresh_start contexts)))

  -- What a batch adds to any counter of any checkout is the difference between what the written
  -- table and the old one credit to the items of the batch, when the keys of the batch differ. An
  -- entry credits one to the outcome of its status, and to inconclusive if it has none.
  pub aggregate_tree_listing-credits :
      (checkout_id : String) (l : Kind) (o : Outcome)
      → total checkout_id l o (run table).0
        ≡ credits table_after checkout_id l o contexts -ℤ credits table checkout_id l o contexts
  aggregate_tree_listing-credits checkout_id l o =
      let rs = reads table contexts in
      let summed =
        aggregate_contexts-total rs contexts [] [] checkout_id l o distinct
          (fresh_start contexts) in
      let split = sum_effects-credits rs table_after checkout_id l o contexts batch-IsAfter in
      let same =
        credits-reads table (keys_of contexts) checkout_id l o contexts (keys_of-AllIn contexts) in
      ap (λ t. total checkout_id l o t.0) (run-loop table)
      ∙ summed
      ∙ rw (split, same, total-empty checkout_id l o) (omega int_laws)

  -- An item of a batch that was written is settled.
  settled_contexts : All (λ c. is_written (reads table_after contexts) c ≡ false) contexts
  settled_contexts =
      AllAfter-settled (reads table contexts) table_after (keys_of contexts) contexts
        (keys_of-AllIn contexts) batch-IsAfter

  -- Processing a batch again, once it was written, adds nothing to any counter of any checkout and
  -- writes no entry, when the keys of the batch differ.
  pub aggregate_tree_listing-repeat :
      ((checkout_id : String) (l : Kind) (o : Outcome)
        → total checkout_id l o (run table_after).0 ≡ pos 0)
      × ((run table_after).1 ≡ [])
  aggregate_tree_listing-repeat =
      let rs = reads table_after contexts in
      let kept = keep-IsAfter rs contexts settled_contexts in
      (
        λ checkout_id l o.
            ap (λ t. total checkout_id l o t.0) (run-loop table_after)
            ∙ aggregate_contexts-total rs contexts [] [] checkout_id l o distinct
                (fresh_start contexts)
            ∙ rw
                (
                  sum_effects-credits rs rs checkout_id l o contexts kept,
                  total-empty checkout_id l o,
                )
                (omega int_laws),
        ap (λ t. t.1) (run-loop table_after) ∙ no_entries rs contexts [] [] refl settled_contexts,
      )
