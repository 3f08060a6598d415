-- ===== src/Rollup/Batches.antt =====
-- What _process_tests_rollup_batch leaves in the table of the rollup.
use kernelci_dashboard.Base.{
  String, ◌≡◌, refl, ◌∙◌, true, false, Bool-cases, Option-cases, inl, inr, List, [], ◌∷◌, map,
  arith, contains, string_eq, All, nonempty,
}
use kernelci_dashboard.Base.Dict.{Dict, lookup}
use kernelci_dashboard.Base.Int.{ℤ, pos, ◌+ℤ◌, int_laws}
use kernelci_dashboard.Aggregation.Models.{Build, PendingTest, ProcessedItem}
use kernelci_dashboard.Aggregation.Processed.{get_existing_processed}
use kernelci_dashboard.Aggregation.Stored.{find_entry-existing}
use kernelci_dashboard.Rollup.Entries.{
  RollupData, Incident, aggregate_tests_rollup, fetch_test_issues,
}
use kernelci_dashboard.Rollup.Batch.{get_rollup_key, select_tests, process_tests_rollup_batch}
use kernelci_dashboard.Rollup.Balance.{
  AllBalanced, grand_total, first_counts, aggregate-AllBalanced, aggregate_tests_rollup-grand_total,
  process-AllBalanced, process-grand_total,
}
use kernelci_dashboard.Rollup.Selected.{
  DistinctTests, no_selection, new_count, new_counts, select_tests-counts, untouched_start,
}

module _ (sha256 : String → String) (builds : Dict String Build) (table : List ProcessedItem) where
  abbrev AllAsked : List String → List PendingTest → Type 0
  AllAsked keys = All (λ t. contains keys (get_rollup_key sha256 t.test_id) ≡ true)

  asked-cons :
      (key : String) (keys : List String) (ts : List PendingTest)
      → AllAsked keys ts
      → AllAsked (key ∷ keys) ts
  asked-cons key keys [] h = tt
  asked-cons key keys (t ∷ ts) (h, hs) = (ground arith, asked-cons key keys ts hs)

  all_asked : (ts : List PendingTest) → AllAsked (map (λ t. get_rollup_key sha256 t.test_id) ts) ts
  all_asked [] = tt
  all_asked (t ∷ ts) = (
    ground arith,
    asked-cons (get_rollup_key sha256 t.test_id) (map (λ t. get_rollup_key sha256 t.test_id) ts) ts
        (all_asked ts),
  )

  new_count-existing :
      (keys : List String) (t : PendingTest)
      → contains keys (get_rollup_key sha256 t.test_id) ≡ true
      → new_count sha256 (get_existing_processed table keys) builds t
        ≡ new_count sha256 table builds t
  new_count-existing keys t h = elim (Option-cases (lookup t.build_id builds)) [
    | inl e ↦ rw (new_count, e) refl
    | inr (b, e) ↦
        let same =
          find_entry-existing (get_rollup_key sha256 t.test_id) b.checkout.id keys table h in
        rw (new_count, e, same) refl
  ]

  pub new_counts-existing :
      (keys : List String) (ts : List PendingTest)
      → AllAsked keys ts
      → new_counts sha256 (get_existing_processed table keys) builds ts
        ≡ new_counts sha256 table builds ts
  unfolding new_counts
  new_counts-existing keys [] h = refl
  new_counts-existing keys (t ∷ ts) (h, hs) =
      rw (new_count-existing keys t h, new_counts-existing keys ts hs) refl

  nothing_first : (n : ℤ) → first_counts [] builds [] +ℤ n ≡ n
  unfolding first_counts
  nothing_first n = omega int_laws

  empty_first_counts :
      (ts : List PendingTest) (reprocess : List String)
      → nonempty ts ≡ false
      → first_counts ts builds reprocess ≡ pos 0
  unfolding first_counts
  empty_first_counts ts reprocess e = ground arith

  -- A batch of distinct tests adds to the sum of total_tests of the table as many as there are tests
  -- in the batch whose build is known and that have no entry of the rollup in the table of processed
  -- items.
  pub process_tests_rollup_batch-grand_total :
      (ts : List PendingTest) (incidents : List Incident) (rows : RollupData)
      → DistinctTests ts
      → grand_total (process_tests_rollup_batch sha256 ts builds incidents rows table).0
        ≡ grand_total rows +ℤ new_counts sha256 table builds ts
  unfolding process_tests_rollup_batch grand_total
  process_tests_rollup_batch-grand_total ts incidents rows distinct =
      let keys = map (λ t. get_rollup_key sha256 t.test_id) ts in
      let existing = get_existing_processed table keys in
      let s = select_tests sha256 existing builds ts no_selection in
      let issues = fetch_test_issues incidents (map (λ t. t.test_id) s.tests_to_process) [] in
      let d = aggregate_tests_rollup s.tests_to_process builds issues s.reprocess_test_ids [] in
      let counted : first_counts s.tests_to_process builds s.reprocess_test_ids
          ≡ new_counts sha256 table builds ts =
        select_tests-counts sha256 existing builds ts no_selection distinct
          (untouched_start sha256 existing builds ts)
        ∙ nothing_first (new_counts sha256 existing builds ts)
        ∙ new_counts-existing keys ts (all_asked ts) in
      elim (Bool-cases (nonempty s.tests_to_process)) [
        | inl e ↦
            rw
              (
                e,
                process-grand_total rows d,
                aggregate_tests_rollup-grand_total s.tests_to_process builds issues
                    s.reprocess_test_ids [],
                counted,
              )
              (omega int_laws)
        | inr e ↦
            rw (e, ← counted, empty_first_counts s.tests_to_process s.reprocess_test_ids e)
              (omega int_laws)
      ]

  -- A batch keeps every row of the table balanced: its counters by status sum to total_tests.
  pub process_tests_rollup_batch-AllBalanced :
      (ts : List PendingTest) (incidents : List Incident) (rows : RollupData)
      → AllBalanced rows
      → AllBalanced (process_tests_rollup_batch sha256 ts builds incidents rows table).0
  unfolding process_tests_rollup_batch
  process_tests_rollup_batch-AllBalanced ts incidents rows h =
      let existing = get_existing_processed table (map (λ t. get_rollup_key sha256 t.test_id) ts) in
      let s = select_tests sha256 existing builds ts no_selection in
      let issues = fetch_test_issues incidents (map (λ t. t.test_id) s.tests_to_process) [] in
      let d = aggregate_tests_rollup s.tests_to_process builds issues s.reprocess_test_ids [] in
      elim (Bool-cases (nonempty s.tests_to_process)) [
        | inl e ↦ rw e (
            process-AllBalanced rows d h
              (aggregate-AllBalanced s.tests_to_process builds issues s.reprocess_test_ids [] tt))
        | inr e ↦ rw e h
      ]
