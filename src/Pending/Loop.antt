-- ===== src/Pending/Loop.antt =====
-- process_pending_batch.
use kernelci_dashboard.Base.{
  ℕ, zero, suc, ◌+◌, ◌-◌, String, Bool, ◌&&◌, ◌||◌, Option, none, some, ◌==◌, nat_eq, if◌then◌else◌,
  length, nonempty,
}
use kernelci_dashboard.Pending.Store.{Store}
use kernelci_dashboard.Pending.Fetch.{ReadyTests, ReadyBuilds, get_ready_tests, get_ready_builds}
use kernelci_dashboard.Pending.Write.{
  Attempt, process_hardware_batch, process_rollup_batch, process_tree_listing_batch,
  delete_ready_tests, delete_ready_builds,
}

-- the variables of the loop
pub record Progress : Type 0 where
  pub store : Store
  pub last_processed_test_id : Option String
  pub last_processed_build_id : Option String
  pub tests_count : ℕ
  pub builds_count : ℕ

-- What a round comes to: another round, the end of the loop, or an exception, with the state that
-- the committed transactions left.
pub data Round : Type 0 where
  next : Progress → Round
  finished : Progress → Round
  raised : Store → Round

-- What the loop comes to on fuel.
pub data Finish : Type 0 where
  returned : Progress → Finish
  failed : Store → Finish
  out_of_fuel : Finish

module _ (gt : String → String → Bool) (sha256 : String → String) (max_retries batch_size : ℕ) where
  -- `if ready_tests:` and the two batches of the first transaction
  abbrev pub process_tests : ReadyTests → Store → Store
  process_tests r s =
      if nonempty r.ready_tests
      then process_rollup_batch sha256 r.ready_tests r.test_builds_by_id
          (process_hardware_batch sha256 r.ready_tests r.test_builds_by_id s)
      else s

  -- the last transaction, and the test that ends the loop
  abbrev pub conclude : ReadyTests → ReadyBuilds → Progress → Store → Round
  conclude r b p s =
      let tests = delete_ready_tests r.ready_tests s.pending_tests in
      let builds = delete_ready_builds b.ready_builds s.pending_builds in
      let p' : Progress = record {
        store = record s { pending_tests = tests; pending_builds = builds };
        last_processed_test_id = r.last_processed_test_id;
        last_processed_build_id = b.last_processed_build_id;
        tests_count = p.tests_count + (length s.pending_tests - length tests);
        builds_count = p.builds_count + (length s.pending_builds - length builds);
      } in
      if r.pending_test_count == 0 && b.pending_build_count == 0 then finished p' else next p'

  -- the second transaction, if there is something for it, and the last
  unfoldable pub aggregate_and_conclude :
      (ℕ → Attempt) → ReadyTests → ReadyBuilds → Progress → Store → Round
  unfolding process_tree_listing_batch delete_ready_tests delete_ready_builds
  aggregate_and_conclude outcome r b p s =
      if nonempty r.ready_tests || nonempty b.ready_builds
      then elim (process_tree_listing_batch sha256 outcome max_retries r.ready_tests
          r.test_builds_by_id b.ready_builds b.build_checkouts_by_id s) [
            | none ↦ raised s
            | some s' ↦ conclude r b p s'
          ]
      else conclude r b p s

  -- the body of `while True`
  unfoldable pub process_round : (ℕ → Attempt) → Progress → Round
  unfolding get_ready_tests get_ready_builds process_hardware_batch process_rollup_batch
      aggregate_and_conclude
  process_round outcome p =
      let r =
        get_ready_tests gt p.store.pending_tests p.store.builds p.last_processed_test_id
          batch_size in
      let s = process_tests r p.store in
      let b =
        get_ready_builds gt s.pending_builds s.checkouts p.last_processed_build_id batch_size in
      aggregate_and_conclude outcome r b p s

  -- the rounds, with how the attempts of each end
  unfoldable pub process_rounds : ℕ → (ℕ → ℕ → Attempt) → ℕ → Progress → Finish
  unfolding process_round
  process_rounds zero outcomes n p = out_of_fuel
  process_rounds (suc fuel) outcomes n p = elim (process_round (outcomes n) p) [
    | next p' ↦ process_rounds fuel outcomes (suc n) p'
    | finished p' ↦ returned p'
    | raised s ↦ failed s
  ]

  -- as much fuel as there are pending rows, and one round to see that there are none
  unfoldable pub process_pending_batch : (ℕ → ℕ → Attempt) → Store → Finish
  unfolding process_rounds
  process_pending_batch outcomes s =
      process_rounds (suc (length s.pending_tests + length s.pending_builds)) outcomes 0 (record {
        store = s;
        last_processed_test_id = none;
        last_processed_build_id = none;
        tests_count = 0;
        builds_count = 0;
      })
