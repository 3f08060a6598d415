-- ===== src/Rollup/Batch.antt =====
-- get_rollup_key, _process_tests_rollup and _process_tests_rollup_batch.
use Prim.Native.String.{◌++◌ as ◌<>◌}
use kernelci_dashboard.Base.{
  String, false, ◌||◌, none, some, List, [], ◌∷◌, ◌++◌, map, ◌==◌, string_eq, if◌then◌else◌,
  is_none, is_some, nonempty, not, add,
}
use kernelci_dashboard.Base.Dict.{Dict, lookup}
use kernelci_dashboard.Base.Int.{◌+ℤ◌}
use kernelci_dashboard.Aggregation.Models.{Build, PendingTest, ProcessedItem}
use kernelci_dashboard.Aggregation.Processed.{
  find_entry, add_entry, get_existing_processed, process_new_processed_entries,
}
use kernelci_dashboard.Rollup.Entries.{
  RollupKey, rollup_key_eq, RollupCounts, RollupData, Incident, aggregate_tests_rollup,
  fetch_test_issues,
}

abbrev pub add_rollup : RollupCounts → RollupCounts → RollupCounts
add_rollup a b = record {
  pass_tests = a.pass_tests +ℤ b.pass_tests;
  fail_tests = a.fail_tests +ℤ b.fail_tests;
  skip_tests = a.skip_tests +ℤ b.skip_tests;
  error_tests = a.error_tests +ℤ b.error_tests;
  miss_tests = a.miss_tests +ℤ b.miss_tests;
  done_tests = a.done_tests +ℤ b.done_tests;
  null_tests = a.null_tests +ℤ b.null_tests;
  total_tests = a.total_tests +ℤ b.total_tests;
}

-- The rows of tree_tests_rollup by their key. The table's constraint leaves `is_boot` out of the key;
-- `conflict_key` is what it compares.
abbrev pub conflict_key : RollupKey → RollupKey
conflict_key k = record k { is_boot = false }

-- `INSERT … ON CONFLICT … DO UPDATE`: a row that is there keeps its key and adds the counts
unfoldable pub upsert_rollup : RollupData → RollupKey → RollupCounts → RollupData
upsert_rollup [] k n = (k, n) ∷ []
upsert_rollup ((j, m) ∷ rows) k n =
    if conflict_key j == conflict_key k
    then (j, add_rollup m n) ∷ rows
    else (j, m) ∷ upsert_rollup rows k n

unfoldable pub process_tests_rollup : RollupData → RollupData → RollupData
unfolding upsert_rollup
process_tests_rollup rows [] = rows
process_tests_rollup rows ((k, n) ∷ d) = process_tests_rollup (upsert_rollup rows k n) d

-- what the loop over the ready tests collects
pub record Selection : Type 0 where
  pub tests_to_process : List PendingTest
  pub reprocess_test_ids : List String
  pub new_processed_entries : List ProcessedItem

module _ (sha256 : String → String) where
  unfoldable pub get_rollup_key : String → String
  get_rollup_key test_id = sha256 ("rollup|" <> test_id)

  -- one test of the loop
  unfoldable pub select_test :
      List ProcessedItem → Dict String Build → PendingTest → Selection → Selection
  unfolding get_rollup_key lookup find_entry add_entry add
  select_test existing builds t s =
      let key = get_rollup_key t.test_id in
      elim (lookup t.build_id builds) [
        | none ↦ s
        | some b ↦
            let found_existing = find_entry key b.checkout.id existing in
            let reprocess = record s {
              tests_to_process = s.tests_to_process ++ t ∷ [];
              new_processed_entries = add_entry s.new_processed_entries (record {
                listing_item_key = key;
                checkout_id = b.checkout.id;
                status = t.status;
              });
            } in
            elim found_existing [
              | none ↦ reprocess
              | some x ↦
                  if is_some x.status || is_none t.status
                  then s
                  else record reprocess { reprocess_test_ids = add s.reprocess_test_ids t.test_id }
            ]
      ]

  unfoldable pub select_tests :
      List ProcessedItem → Dict String Build → List PendingTest → Selection → Selection
  unfolding select_test
  select_tests existing builds [] s = s
  select_tests existing builds (t ∷ ts) s =
      select_tests existing builds ts (select_test existing builds t s)

  -- the tables of the rollup and of the processed items after the batch
  unfoldable pub process_tests_rollup_batch :
      List PendingTest
      → Dict String Build
      → List Incident
      → RollupData
      → List ProcessedItem
      → RollupData × List ProcessedItem
  unfolding select_tests get_existing_processed aggregate_tests_rollup fetch_test_issues
      process_tests_rollup process_new_processed_entries
  process_tests_rollup_batch ready_tests builds incidents rows processed =
      let existing =
        get_existing_processed processed (map (λ t. get_rollup_key t.test_id) ready_tests) in
      let s =
        select_tests existing builds ready_tests
          (record { tests_to_process = []; reprocess_test_ids = []; new_processed_entries = [] }) in
      let issues = fetch_test_issues incidents (map (λ t. t.test_id) s.tests_to_process) [] in
      let rollup_data =
        aggregate_tests_rollup s.tests_to_process builds issues s.reprocess_test_ids [] in
      if not (nonempty s.tests_to_process) then (rows, processed) else (
        process_tests_rollup rows rollup_data,
        process_new_processed_entries processed s.new_processed_entries,
      )
