-- ===== src/Aggregation/Repeats.antt =====
-- Several tests of one build in one batch of the hardware status.
use kernelci_dashboard.Base.{
  String, ◌≡◌, ◌∙◌, true, false, none, some, List, arith, ◌==◌, string_eq,
}
use kernelci_dashboard.Base.Int.{ℤ, pos, ◌-ℤ◌}
use kernelci_dashboard.Base.Text.{is_prefix}
use kernelci_dashboard.Status.{
  SimplifiedStatusChoices, simplify_status, map_simplified_status_to_count,
}
use kernelci_dashboard.Aggregation.Models.{ProcessedItem}
use kernelci_dashboard.Aggregation.Counts.{
  build, inc, ListingItemCount, column, decrement, add_counts,
}
use kernelci_dashboard.Aggregation.Processed.{find_entry, add_entry}
use kernelci_dashboard.Aggregation.Items.{
  settles, check_item_was_processed, process_item, process_build_status, kind_of,
  maestro_dummy_build_prefix,
}
use kernelci_dashboard.Aggregation.Effects.{process_item-fresh}
use kernelci_dashboard.Aggregation.Hardware.{HardwareContext, process_hardware_context}

check_again :
    (key checkout_id : String) (status : SimplifiedStatusChoices) (r : ListingItemCount)
    (existing new : List ProcessedItem) (stored counted : ProcessedItem)
    → find_entry key checkout_id existing ≡ some stored
    → stored.status ≡ none
    → find_entry key checkout_id new ≡ some counted
    → counted.status ≡ some status
    → check_item_was_processed existing new r key checkout_id (some status) build
      ≡ (true, decrement build r, new)
unfolding check_item_was_processed
check_again key checkout_id status r existing new stored counted e u f v =
    rw (e, f, check_item_was_processed) (ground arith)

-- The build of a further test: it was counted already in this batch, and one is taken from its
-- inconclusive count all the same.
build_again :
    (build_id checkout_id key : String) (status : SimplifiedStatusChoices) (r : ListingItemCount)
    (existing new : List ProcessedItem) (stored counted : ProcessedItem)
    → is_prefix maestro_dummy_build_prefix build_id ≡ false
    → find_entry key checkout_id existing ≡ some stored
    → stored.status ≡ none
    → find_entry key checkout_id new ≡ some counted
    → counted.status ≡ some status
    → process_build_status build_id checkout_id (some status) key r existing new
      ≡ (decrement build r, new)
unfolding process_build_status
build_again build_id checkout_id key status r existing new stored counted real e u f v =
    let checked = check_again key checkout_id status r existing new stored counted e u f v in
    rw real (rw (checked, process_item))

find_entry-add_entry :
    (key checkout_id : String) (x : ProcessedItem) (xs : List ProcessedItem)
    → (x.listing_item_key == key) ≡ false
    → find_entry key checkout_id (add_entry xs x) ≡ find_entry key checkout_id xs
unfolding add_entry find_entry
find_entry-add_entry key checkout_id x xs differ = ground arith

test_columns :
    (c : HardwareContext) (n : ℤ × ℤ × ℤ) (r : ListingItemCount)
    → column build inc (decrement build (add_counts (kind_of c.test) n r))
      ≡ column build inc r -ℤ pos 1
unfolding column decrement add_counts
test_columns c n r = ground arith

-- In the hardware status, every further test of a build takes one from the inconclusive builds of
-- the row once the build was counted in the batch, if the entry that is stored for the build has no
-- status: for a test that is neither stored nor met, of a build that is no dummy and has a status.
pub further_test_of_a_build :
    (c : HardwareContext) (r : ListingItemCount) (existing new : List ProcessedItem)
    (status : SimplifiedStatusChoices) (stored counted : ProcessedItem)
    → is_prefix maestro_dummy_build_prefix c.build.id ≡ false
    → simplify_status c.build.status ≡ some status
    → find_entry c.build_key c.checkout.id existing ≡ some stored
    → stored.status ≡ none
    → find_entry c.build_key c.checkout.id new ≡ some counted
    → counted.status ≡ some status
    → find_entry c.test_key c.checkout.id existing ≡ none
    → find_entry c.test_key c.checkout.id new ≡ none
    → (c.test_key == c.build_key) ≡ false
    → column build inc (process_hardware_context c r existing new).0 ≡ column build inc r -ℤ pos 1
unfolding process_hardware_context
further_test_of_a_build c r existing new status stored counted real known e u f v unseen unmet
      differ =
    let x : ProcessedItem = record {
      listing_item_key = c.test_key;
      checkout_id = c.checkout.id;
      status = c.test.status;
    } in
    let n = map_simplified_status_to_count c.test.status in
    let tested : process_item (kind_of c.test) x r existing new
        ≡ (true, add_counts (kind_of c.test) n r, add_entry new x) =
      process_item-fresh (kind_of c.test) x r existing new unmet ∙ rw (unseen, settles) in
    let met : find_entry c.build_key c.checkout.id (add_entry new x) ≡ some counted =
      find_entry-add_entry c.build_key c.checkout.id x new differ ∙ f in
    let built =
      build_again c.build.id c.checkout.id c.build_key status (add_counts (kind_of c.test) n r)
        existing (add_entry new x) stored counted real e u met v in
    rw (tested, known, built) (test_columns c n r)
