-- ===== src/Aggregation/Items.antt =====
-- _check_item_was_processed, _process_test_status and _process_build_status. The record and the set
-- that they change come back with the result.
use kernelci_dashboard.Base.{
  String, Bool, true, false, ◌||◌, Option, none, some, List, if◌then◌else◌, is_none, is_some,
}
use kernelci_dashboard.Base.Text.{is_prefix}
use kernelci_dashboard.Status.{SimplifiedStatusChoices, map_simplified_status_to_count}
use kernelci_dashboard.Aggregation.Models.{PendingTest, ProcessedItem}
use kernelci_dashboard.Aggregation.Counts.{
  Kind, build, boot, test, ListingItemCount, decrement, add_counts,
}
use kernelci_dashboard.Aggregation.Processed.{find_entry, add_entry, remove_key}

-- Whether the entry that was found settles the item: it has a status, or neither has.
unfoldable pub settles : Option ProcessedItem → Option SimplifiedStatusChoices → Bool
settles none item_status = false
settles (some x) item_status = is_some x.status || is_none item_status

unfoldable pub check_item_was_processed :
    List ProcessedItem
    → List ProcessedItem
    → ListingItemCount
    → String
    → String
    → Option SimplifiedStatusChoices
    → Kind
    → Bool × ListingItemCount × List ProcessedItem
unfolding settles find_entry remove_key decrement
check_item_was_processed existing new r key checkout_id item_status kind =
    let stored = find_entry key checkout_id existing in
    let r' = if is_some stored then decrement kind r else r in
    let fresh = find_entry key checkout_id new in
    if settles stored item_status
    then (true, r, new)
    else if settles fresh item_status
    then (true, r', new)
    else if is_some fresh
    then (false, decrement kind r', remove_key key new)
    else (false, r', new)

-- what both functions do once the item is known not to be processed
abbrev pub count_item :
    Kind
    → ProcessedItem
    → Bool × ListingItemCount × List ProcessedItem
    → Bool × ListingItemCount × List ProcessedItem
count_item kind x checked = if checked.0 then (false, checked.1, checked.2) else (
  true,
  add_counts kind (map_simplified_status_to_count x.status) checked.1,
  add_entry checked.2 x,
)

-- the item as an entry, its kind, and the whole update; `true` where the item was counted
unfoldable pub process_item :
    Kind
    → ProcessedItem
    → ListingItemCount
    → List ProcessedItem
    → List ProcessedItem
    → Bool × ListingItemCount × List ProcessedItem
unfolding check_item_was_processed add_counts map_simplified_status_to_count add_entry
process_item kind x r existing new =
    count_item kind x
      (check_item_was_processed existing new r x.listing_item_key x.checkout_id x.status kind)

-- "boot_inc" if test.is_boot else "test_inc"
abbrev pub kind_of : PendingTest → Kind
kind_of t = if t.is_boot then boot else test

unfoldable pub process_test_status :
    PendingTest
    → String
    → String
    → ListingItemCount
    → List ProcessedItem
    → List ProcessedItem
    → Bool × ListingItemCount × List ProcessedItem
unfolding process_item
process_test_status t test_listing_key checkout_id r existing new =
    process_item (kind_of t)
      (record { listing_item_key = test_listing_key; checkout_id = checkout_id; status = t.status })
      r existing new

abbrev pub maestro_dummy_build_prefix : String
maestro_dummy_build_prefix = "maestro:dummy_"

unfoldable pub process_build_status :
    String
    → String
    → Option SimplifiedStatusChoices
    → String
    → ListingItemCount
    → List ProcessedItem
    → List ProcessedItem
    → ListingItemCount × List ProcessedItem
unfolding process_item is_prefix
process_build_status build_id checkout_id build_status key r existing new =
    let done =
      process_item build
        (record { listing_item_key = key; checkout_id = checkout_id; status = build_status }) r
        existing new in
    if is_prefix maestro_dummy_build_prefix build_id then (r, new) else (done.1, done.2)
