-- ===== src/Pending/Termination.antt =====
-- The loop of process_pending_batch ends: every round but the last moves a cursor.
use mathlib.Core.Logic.{◌≢◌}
use kernelci_dashboard.Base.{
  ℕ, zero, suc, ◌+◌, ◌<◌, String, ◌∙◌, Bool, not, ◌&&◌, ◌||◌, Bool-cases, Option-cases, inl, inr,
  none, map, arith, ◌==◌, contains, string_eq, nat_eq, length, nonempty,
}
use kernelci_dashboard.Aggregation.Models.{PendingTest, PendingBuild}
use kernelci_dashboard.Pending.Store.{Store}
use kernelci_dashboard.Pending.Fetch.{ReadyTests, ReadyBuilds, get_ready_tests, get_ready_builds}
use kernelci_dashboard.Pending.Write.{
  Attempt, process_tree_listing_batch, delete_ready_tests, delete_ready_builds,
}
use kernelci_dashboard.Pending.Loop.{
  Progress, Round, next, finished, raised, returned, failed, out_of_fuel, process_tests, conclude,
  aggregate_and_conclude, process_round, process_rounds, process_pending_batch,
}
use kernelci_dashboard.Pending.Cursor.{
  IsOrder, left_after, AllNamed, keep-AllNamed, left_after-length, advance-keep,
}
use kernelci_dashboard.Pending.Batches.{
  test_id_of, build_id_of, SamePending, process_tree_listing_batch-SamePending, HasCursor,
  HasBuildCursor, process_tests-SamePending, get_ready_tests-HasCursor,
  get_ready_builds-HasBuildCursor, same_rows,
}

module _ (gt : String → String → Bool) (order : IsOrder gt) (sha256 : String → String)
    (max_retries batch_size : ℕ) where
  abbrev pub IsNamed : Store → Type 0
  IsNamed s =
      AllNamed gt order test_id_of s.pending_tests × AllNamed gt order build_id_of s.pending_builds

  -- the rows after the cursors
  abbrev left : Progress → ℕ
  left p =
      left_after gt order test_id_of p.last_processed_test_id p.store.pending_tests
      + left_after gt order build_id_of p.last_processed_build_id p.store.pending_builds

  abbrev Decreases : Progress → Round → Type 0
  Decreases p (next p') = IsNamed p'.store × (left p' < left p)
  Decreases p (finished p') = Unit
  Decreases p (raised s) = Unit

  conclude-Decreases :
      (r : ReadyTests) (b : ReadyBuilds) (p : Progress) (s : Store)
      → SamePending p.store s
      → IsNamed p.store
      → HasCursor gt sha256 max_retries batch_size p.store.pending_tests p.last_processed_test_id r
      → HasBuildCursor gt sha256 max_retries batch_size p.store.pending_builds
          p.last_processed_build_id b
      → Decreases p (conclude gt sha256 max_retries batch_size r b p s)
  unfolding delete_ready_tests delete_ready_builds
  conclude-Decreases r b p s same named tests builds =
      let keep_tests : PendingTest → Bool =
        λ t. not (contains (map (λ x. x.test_id) r.ready_tests) t.test_id) in
      let keep_builds : PendingBuild → Bool =
        λ c. not (contains (map (λ x. x.build_id) b.ready_builds) c.build_id) in
      let moved_tests =
        advance-keep gt order test_id_of p.last_processed_test_id r.last_processed_test_id
          r.pending_test_count batch_size p.store.pending_tests keep_tests named.0 tests.0
          tests.1 in
      let moved_builds =
        advance-keep gt order build_id_of p.last_processed_build_id b.last_processed_build_id
          b.pending_build_count batch_size p.store.pending_builds keep_builds named.1 builds.0
          builds.1 in
      elim (Bool-cases (r.pending_test_count == 0 && b.pending_build_count == 0)) [
        | inl e ↦ rw e tt
        | inr e ↦
            rw (e, same.0, same.1)
              (
                (
                  keep-AllNamed gt order test_id_of keep_tests p.store.pending_tests named.0,
                  keep-AllNamed gt order build_id_of keep_builds p.store.pending_builds named.1,
                ),
                ground arith,
              )
      ]

  aggregate_and_conclude-Decreases :
      (outcome : ℕ → Attempt) (r : ReadyTests) (b : ReadyBuilds) (p : Progress) (s : Store)
      → SamePending p.store s
      → IsNamed p.store
      → HasCursor gt sha256 max_retries batch_size p.store.pending_tests p.last_processed_test_id r
      → HasBuildCursor gt sha256 max_retries batch_size p.store.pending_builds
          p.last_processed_build_id b
      → Decreases p (aggregate_and_conclude gt sha256 max_retries batch_size outcome r b p s)
  unfolding aggregate_and_conclude
  aggregate_and_conclude-Decreases outcome r b p s same named tests builds =
      let written =
        process_tree_listing_batch sha256 outcome max_retries r.ready_tests r.test_builds_by_id
          b.ready_builds b.build_checkouts_by_id s in
      elim (Bool-cases (nonempty r.ready_tests || nonempty b.ready_builds)) [
        | inr e ↦ rw e (conclude-Decreases r b p s same named tests builds)
        | inl e ↦ elim (Option-cases written) [
          | inl f ↦ rw (e, f) tt
          | inr (s', f) ↦
              let kept =
                process_tree_listing_batch-SamePending sha256 outcome max_retries r.ready_tests
                  r.test_builds_by_id b.ready_builds b.build_checkouts_by_id s s' f in
              rw (e, f)
                (conclude-Decreases r b p s' (kept.0 ∙ same.0, kept.1 ∙ same.1) named tests builds)
        ]
      ]

  process_round-Decreases :
      (outcome : ℕ → Attempt) (p : Progress)
      → IsNamed p.store
      → Decreases p (process_round gt sha256 max_retries batch_size outcome p)
  unfolding process_round
  process_round-Decreases outcome p named =
      let r =
        get_ready_tests gt p.store.pending_tests p.store.builds p.last_processed_test_id
          batch_size in
      let s = process_tests gt sha256 max_retries batch_size r p.store in
      let b =
        get_ready_builds gt s.pending_builds s.checkouts p.last_processed_build_id batch_size in
      let same = process_tests-SamePending gt sha256 max_retries batch_size r p.store in
      let builds =
        get_ready_builds-HasBuildCursor gt sha256 max_retries batch_size s.pending_builds
          s.checkouts p.last_processed_build_id in
      aggregate_and_conclude-Decreases outcome r b p s same named
        (get_ready_tests-HasCursor gt sha256 max_retries batch_size p.store.pending_tests
          p.store.builds p.last_processed_test_id)
        (same_rows gt sha256 max_retries batch_size s.pending_builds p.store.pending_builds
          p.last_processed_build_id b same.1 builds)

  after_round :
      (fuel : ℕ) (outcomes : ℕ → ℕ → Attempt) (n : ℕ) (p : Progress) (round : Round)
      → Decreases p round
      → left p < suc fuel
      → ((p' : Progress)
          → IsNamed p'.store
          → left p' < fuel
          → process_rounds gt sha256 max_retries batch_size fuel outcomes (suc n) p' ≢ out_of_fuel)
      → elim round [
        | next p' ↦ process_rounds gt sha256 max_retries batch_size fuel outcomes (suc n) p'
        | finished p' ↦ returned p'
        | raised s ↦ failed s
      ]
        ≢ out_of_fuel
  after_round fuel outcomes n p (next p') (named, less) enough ends =
      ends p' named (omega (arith, less, enough))
  after_round fuel outcomes n p (finished p') less enough ends = λ e. ground arith
  after_round fuel outcomes n p (raised s) less enough ends = λ e. ground arith

  process_rounds-ends :
      (fuel : ℕ) (outcomes : ℕ → ℕ → Attempt) (n : ℕ) (p : Progress)
      → IsNamed p.store
      → left p < fuel
      → process_rounds gt sha256 max_retries batch_size fuel outcomes n p ≢ out_of_fuel
  unfolding process_rounds
  process_rounds-ends zero outcomes n p named enough = ground arith
  process_rounds-ends (suc fuel) outcomes n p named enough =
      after_round fuel outcomes n p (process_round gt sha256 max_retries batch_size (outcomes n) p)
        (process_round-Decreases (outcomes n) p named) enough
        (process_rounds-ends fuel outcomes (suc n))

  -- The command ends on every store and every outcome of its transactions, if ids are ordered and no
  -- row that waits has an empty id: it returns or it raises an exception, within one round more than
  -- there are rows that wait.
  pub process_pending_batch-ends :
      (outcomes : ℕ → ℕ → Attempt) (s : Store)
      → IsNamed s
      → process_pending_batch gt sha256 max_retries batch_size outcomes s ≢ out_of_fuel
  unfolding process_pending_batch
  process_pending_batch-ends outcomes s named =
      process_rounds-ends (suc (length s.pending_tests + length s.pending_builds)) outcomes 0
        (record {
          store = s;
          last_processed_test_id = none;
          last_processed_build_id = none;
          tests_count = 0;
          builds_count = 0;
        })
        named
        (omega (
          arith,
          left_after-length gt order test_id_of none s.pending_tests,
          left_after-length gt order build_id_of none s.pending_builds,
        ))
