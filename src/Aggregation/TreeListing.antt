-- ===== src/Aggregation/TreeListing.antt =====
-- get_tree_listing_key, _collect_tree_listing_contexts and aggregate_tree_listing. The digest of
-- hashlib is a parameter.
use Prim.Native.String.{◌++◌ as ◌<>◌}
use kernelci_dashboard.Base.{
  String, ◌&&◌, not, Option, none, some, List, [], ◌∷◌, ◌++◌, map, string_eq, if◌then◌else◌,
  nonempty, get_or,
}
use kernelci_dashboard.Base.Dict.{Dict, lookup, insert}
use kernelci_dashboard.Aggregation.Models.{
  Checkout, Build, PendingTest, PendingBuild, ProcessedItem,
}
use kernelci_dashboard.Aggregation.Counts.{ListingItemCount, zero_counts}
use kernelci_dashboard.Aggregation.Processed.{get_existing_processed}
use kernelci_dashboard.Aggregation.Items.{process_test_status, process_build_status}

-- the item of a context: isinstance(item, PendingTest) or isinstance(item, PendingBuilds)
pub data Item : Type 0 where
  of_test : PendingTest → Item
  of_build : PendingBuild → Item

pub record Context : Type 0 where
  pub item : Item
  pub checkout : Checkout
  pub listing_key : String

-- The columns that are copied from the checkout are kept as the checkout.
pub record TreeListingRecord : Type 0 where
  pub checkout : Checkout
  pub counts : ListingItemCount

unfoldable pub init_tree_listing_record : Checkout → TreeListingRecord
init_tree_listing_record checkout = record { checkout = checkout; counts = zero_counts }

-- a value in an f-string
abbrev pub show : Option String → String
show none = "None"
show (some s) = s

module _ (sha256 : String → String) where
  unfoldable pub get_tree_listing_key :
      String → Option String → Option String → Option String → String → String
  get_tree_listing_key origin tree_name git_url git_branch entity_id = sha256 (
      origin
      <> "|"
      <> show tree_name
      <> "|"
      <> show git_url
      <> "|"
      <> show git_branch
      <> "|"
      <> entity_id)

  abbrev pub key_in : Checkout → String → String
  key_in c entity_id =
      get_tree_listing_key c.origin c.tree_name c.git_repository_url c.git_repository_branch
        entity_id

  -- the loop over the tests: a test whose build is not known is skipped
  unfoldable pub test_contexts : List PendingTest → Dict String Build → List Context
  unfolding lookup get_tree_listing_key
  test_contexts [] builds = []
  test_contexts (t ∷ ts) builds =
      let rest = test_contexts ts builds in
      elim (lookup t.build_id builds) [
        | none ↦ rest
        | some b ↦
            record {
              item = of_test t;
              checkout = b.checkout;
              listing_key = key_in b.checkout t.test_id;
            }
            ∷ rest
      ]

  unfoldable pub build_contexts : List PendingBuild → Dict String Checkout → List Context
  unfolding lookup get_tree_listing_key
  build_contexts [] checkouts = []
  build_contexts (b ∷ bs) checkouts =
      let rest = build_contexts bs checkouts in
      elim (lookup b.build_id checkouts) [
        | none ↦ rest
        | some c ↦
            record { item = of_build b; checkout = c; listing_key = key_in c b.build_id } ∷ rest
      ]

  unfoldable pub collect_tree_listing_contexts :
      List PendingTest → Dict String Build → List PendingBuild → Dict String Checkout → List Context
  unfolding test_contexts build_contexts
  collect_tree_listing_contexts tests builds ready_builds checkouts =
      test_contexts tests builds ++ build_contexts ready_builds checkouts

-- keys_to_check
abbrev pub keys_of : List Context → List String
keys_of = map (λ c. c.listing_key)

-- the call of _process_test_status or _process_build_status, by the class of the item
unfoldable pub process_by_class :
    Item
    → String
    → String
    → ListingItemCount
    → List ProcessedItem
    → List ProcessedItem
    → ListingItemCount × List ProcessedItem
unfolding process_test_status process_build_status
process_by_class (of_test t) listing_key checkout_id r existing new =
    let done = process_test_status t listing_key checkout_id r existing new in (done.1, done.2)
process_by_class (of_build b) listing_key checkout_id r existing new =
    process_build_status b.build_id checkout_id b.status listing_key r existing new

abbrev pub TreeListingData : Type 0
TreeListingData = Dict String TreeListingRecord

-- one round of the loop over the contexts
unfoldable pub aggregate_context :
    List ProcessedItem
    → Context
    → TreeListingData
    → List ProcessedItem
    → TreeListingData × List ProcessedItem
unfolding process_by_class lookup insert init_tree_listing_record
aggregate_context existing c tree_listing_data new =
    let r = get_or (lookup c.checkout.id tree_listing_data) (init_tree_listing_record c.checkout) in
    let done = process_by_class c.item c.listing_key c.checkout.id r.counts existing new in
    (insert c.checkout.id (record r { counts = done.0 }) tree_listing_data, done.1)

unfoldable pub aggregate_contexts :
    List ProcessedItem
    → List Context
    → TreeListingData
    → List ProcessedItem
    → TreeListingData × List ProcessedItem
unfolding aggregate_context
aggregate_contexts existing [] tree_listing_data new = (tree_listing_data, new)
aggregate_contexts existing (c ∷ cs) tree_listing_data new =
    let next = aggregate_context existing c tree_listing_data new in
    aggregate_contexts existing cs next.0 next.1

-- `table` is the table of processed items. With no tests, no builds or no contexts the code returns
-- the empty dict and the empty set, which is what the loop over no contexts returns.
unfoldable pub aggregate_tree_listing :
    (String → String)
    → List ProcessedItem
    → List PendingTest
    → Dict String Build
    → List PendingBuild
    → Dict String Checkout
    → TreeListingData × List ProcessedItem
unfolding collect_tree_listing_contexts aggregate_contexts get_existing_processed
aggregate_tree_listing sha256 table ready_tests test_builds ready_builds build_checkouts =
    let contexts =
      collect_tree_listing_contexts sha256 ready_tests test_builds ready_builds build_checkouts in
    if not (nonempty ready_tests) && not (nonempty ready_builds)
    then ([], [])
    else if not (nonempty contexts)
    then ([], [])
    else aggregate_contexts (get_existing_processed table (keys_of contexts)) contexts [] []
