-- ===== src/Aggregation/Processed.antt =====
-- The table of processed items, and the sets of entries that a batch keeps. Entries are equal when
-- their primary keys are, so a set holds one entry for a key.
use kernelci_dashboard.Base.{
  String, Bool, false, not, ◌&&◌, ◌||◌, Option, none, some, List, [], ◌∷◌, ◌==◌, contains,
  string_eq, if◌then◌else◌, keep,
}
use kernelci_dashboard.Aggregation.Models.{ProcessedItem}

-- the entry that a loop over the set stops at: its key and its checkout are those of the item
unfoldable pub find_entry : String → String → List ProcessedItem → Option ProcessedItem
find_entry key checkout_id [] = none
find_entry key checkout_id (x ∷ xs) =
    if x.listing_item_key == key && x.checkout_id == checkout_id
    then some x
    else find_entry key checkout_id xs

unfoldable pub has_key : String → List ProcessedItem → Bool
has_key key [] = false
has_key key (x ∷ xs) = x.listing_item_key == key || has_key key xs

-- `new_processed_entries.add(to_process)`
unfoldable pub add_entry : List ProcessedItem → ProcessedItem → List ProcessedItem
unfolding has_key
add_entry xs x = if has_key x.listing_item_key xs then xs else x ∷ xs

-- `new_processed_entries.remove(new_entry)`
unfoldable pub remove_key : String → List ProcessedItem → List ProcessedItem
unfolding keep
remove_key key = keep (λ x. not (x.listing_item_key == key))

-- `ProcessedListingItems.objects.filter(listing_item_key__in=keys_to_check)`
unfoldable pub get_existing_processed : List ProcessedItem → List String → List ProcessedItem
unfolding keep
get_existing_processed table keys = keep (λ x. contains keys x.listing_item_key) table

-- `bulk_create` with `update_conflicts` on the key
unfoldable pub process_new_processed_entries :
    List ProcessedItem → List ProcessedItem → List ProcessedItem
unfolding remove_key
process_new_processed_entries table [] = table
process_new_processed_entries table (x ∷ xs) =
    x ∷ remove_key x.listing_item_key (process_new_processed_entries table xs)
