-- ===== src/Pending/Counting.antt =====
-- What process_pending_batch returns: the rows that it has deleted.
use kernelci_dashboard.Base.{
  ℕ, zero, suc, ◌+◌, ◌-◌, ◌≤◌, String, ◌≡◌, ◌∙◌, Bool, not, ◌&&◌, ◌||◌, Bool-cases, Option-cases,
  inl, inr, none, map, arith, ◌==◌, contains, string_eq, nat_eq, length, keep, nonempty,
}
use kernelci_dashboard.Aggregation.Models.{PendingTest, PendingBuild}
use kernelci_dashboard.Pending.Store.{Store}
use kernelci_dashboard.Pending.Fetch.{ReadyTests, ReadyBuilds, get_ready_tests, get_ready_builds}
use kernelci_dashboard.Pending.Write.{
  Attempt, process_tree_listing_batch, delete_ready_tests, delete_ready_builds,
}
use kernelci_dashboard.Pending.Loop.{
  Progress, Round, next, finished, raised, returned, failed, process_tests, conclude,
  aggregate_and_conclude, process_round, process_rounds, process_pending_batch,
}
use kernelci_dashboard.Pending.Cursor.{length-keep}
use kernelci_dashboard.Pending.Batches.{
  SamePending, process_tree_listing_batch-SamePending, process_tests-SamePending,
}

-- the rows that were deleted and those that wait, together
abbrev pub SameTotals : Progress → Progress → Type 0
SameTotals p q =
    (q.tests_count + length q.store.pending_tests ≡ p.tests_count + length p.store.pending_tests)
    × (q.builds_count + length q.store.pending_builds
        ≡ p.builds_count + length p.store.pending_builds)

SameTotals-trans : (p q r : Progress) → SameTotals p q → SameTotals q r → SameTotals p r
SameTotals-trans p q r (a, b) (c, d) = (c ∙ a, d ∙ b)

abbrev Conserves : Progress → Round → Type 0
Conserves p (next q) = SameTotals p q
Conserves p (finished q) = SameTotals p q
Conserves p (raised s) = Unit

deleted_and_left : (a b c : ℕ) → c ≤ b → a + (b - c) + c ≡ a + b
deleted_and_left a b c h = omega (arith, h)

module _ (gt : String → String → Bool) (sha256 : String → String) (max_retries batch_size : ℕ) where
  conclude-Conserves :
      (r : ReadyTests) (b : ReadyBuilds) (p : Progress) (s : Store)
      → SamePending p.store s
      → Conserves p (conclude gt sha256 max_retries batch_size r b p s)
  unfolding delete_ready_tests delete_ready_builds
  conclude-Conserves r b p s same =
      let keep_tests : PendingTest → Bool =
        λ t. not (contains (map (λ x. x.test_id) r.ready_tests) t.test_id) in
      let keep_builds : PendingBuild → Bool =
        λ c. not (contains (map (λ x. x.build_id) b.ready_builds) c.build_id) in
      let tests =
        deleted_and_left p.tests_count (length p.store.pending_tests)
          (length (keep keep_tests p.store.pending_tests))
          (length-keep keep_tests p.store.pending_tests) in
      let builds =
        deleted_and_left p.builds_count (length p.store.pending_builds)
          (length (keep keep_builds p.store.pending_builds))
          (length-keep keep_builds p.store.pending_builds) in
      elim (Bool-cases (r.pending_test_count == 0 && b.pending_build_count == 0)) [
        | inl e ↦ rw (e, same.0, same.1) (tests, builds)
        | inr e ↦ rw (e, same.0, same.1) (tests, builds)
      ]

  aggregate_and_conclude-Conserves :
      (outcome : ℕ → Attempt) (r : ReadyTests) (b : ReadyBuilds) (p : Progress) (s : Store)
      → SamePending p.store s
      → Conserves p (aggregate_and_conclude gt sha256 max_retries batch_size outcome r b p s)
  unfolding aggregate_and_conclude
  aggregate_and_conclude-Conserves outcome r b p s same =
      let written =
        process_tree_listing_batch sha256 outcome max_retries r.ready_tests r.test_builds_by_id
          b.ready_builds b.build_checkouts_by_id s in
      elim (Bool-cases (nonempty r.ready_tests || nonempty b.ready_builds)) [
        | inr e ↦ rw e (conclude-Conserves r b p s same)
        | inl e ↦ elim (Option-cases written) [
          | inl f ↦ rw (e, f) tt
          | inr (s', f) ↦
              let kept =
                process_tree_listing_batch-SamePending sha256 outcome max_retries r.ready_tests
                  r.test_builds_by_id b.ready_builds b.build_checkouts_by_id s s' f in
              rw (e, f) (conclude-Conserves r b p s' (kept.0 ∙ same.0, kept.1 ∙ same.1))
        ]
      ]

  process_round-Conserves :
      (outcome : ℕ → Attempt) (p : Progress)
      → Conserves p (process_round gt sha256 max_retries batch_size outcome p)
  unfolding process_round
  process_round-Conserves outcome p =
      let r =
        get_ready_tests gt p.store.pending_tests p.store.builds p.last_processed_test_id
          batch_size in
      let s = process_tests gt sha256 max_retries batch_size r p.store in
      let b =
        get_ready_builds gt s.pending_builds s.checkouts p.last_processed_build_id batch_size in
      aggregate_and_conclude-Conserves outcome r b p s
        (process_tests-SamePending gt sha256 max_retries batch_size r p.store)

  after_round :
      (fuel : ℕ) (outcomes : ℕ → ℕ → Attempt) (n : ℕ) (p q : Progress) (round : Round)
      → Conserves p round
      → ((p' : Progress)
          → process_rounds gt sha256 max_retries batch_size fuel outcomes (suc n) p' ≡ returned q
          → SameTotals p' q)
      → elim round [
        | next p' ↦ process_rounds gt sha256 max_retries batch_size fuel outcomes (suc n) p'
        | finished p' ↦ returned p'
        | raised s ↦ failed s
      ]
        ≡ returned q
      → SameTotals p q
  after_round fuel outcomes n p q (next p') same ends e = SameTotals-trans p p' q same (ends p' e)
  after_round fuel outcomes n p q (finished p') same ends e =
      let done : p' ≡ q = cc in rw (← done) same
  after_round fuel outcomes n p q (raised s) same ends e = ground arith

  process_rounds-SameTotals :
      (fuel : ℕ) (outcomes : ℕ → ℕ → Attempt) (n : ℕ) (p q : Progress)
      → process_rounds gt sha256 max_retries batch_size fuel outcomes n p ≡ returned q
      → SameTotals p q
  unfolding process_rounds
  process_rounds-SameTotals zero outcomes n p q e = ground arith
  process_rounds-SameTotals (suc fuel) outcomes n p q e =
      after_round fuel outcomes n p q
        (process_round gt sha256 max_retries batch_size (outcomes n) p)
        (process_round-Conserves (outcomes n) p)
        (λ p'. process_rounds-SameTotals fuel outcomes (suc n) p' q) e

  -- When the command returns, the number of tests and of builds that it reports, with the pending
  -- rows of that kind that are left, is the number of pending rows at the start.
  pub process_pending_batch-counts :
      (outcomes : ℕ → ℕ → Attempt) (s : Store) (q : Progress)
      → process_pending_batch gt sha256 max_retries batch_size outcomes s ≡ returned q
      → (q.tests_count + length q.store.pending_tests ≡ length s.pending_tests)
        × (q.builds_count + length q.store.pending_builds ≡ length s.pending_builds)
  unfolding process_pending_batch
  process_pending_batch-counts outcomes s q e =
      let (tests, builds) =
        process_rounds-SameTotals (suc (length s.pending_tests + length s.pending_builds)) outcomes
          0
          (record {
            store = s;
            last_processed_test_id = none;
            last_processed_build_id = none;
            tests_count = 0;
            builds_count = 0;
          })
          q e in
      (omega (arith, tests), omega (arith, builds))
