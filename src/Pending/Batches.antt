-- ===== src/Pending/Batches.antt =====
-- What the batches of a round leave: the cursors and the counts of what was fetched, and the rows
-- that wait.
use kernelci_dashboard.Base.{
  ℕ, String, ◌≡◌, refl, Bool, Bool-cases, Option-cases, inl, inr, Option, some, List, [], ◌∷◌,
  arith, string_eq, nat_eq, length, any, is_some,
}
use kernelci_dashboard.Base.Dict.{Dict, lookup}
use kernelci_dashboard.Aggregation.Models.{Checkout, Build, PendingTest, PendingBuild}
use kernelci_dashboard.Pending.Store.{Store}
use kernelci_dashboard.Pending.Fetch.{
  last_id, batch_of, ReadyTests, ReadyBuilds, sort_tests, sort_builds, get_ready_tests,
  get_ready_builds,
}
use kernelci_dashboard.Pending.Write.{
  Attempt, process_hardware_batch, process_rollup_batch, process_tree_listing_batch, attempts,
}
use kernelci_dashboard.Pending.Loop.{process_tests}

abbrev pub test_id_of : PendingTest → String
test_id_of t = t.test_id

abbrev pub build_id_of : PendingBuild → String
build_id_of b = b.build_id

sort_tests-cursor :
    (found : Dict String Build) (ts : List PendingTest) (r : ReadyTests)
    → ((sort_tests found ts r).last_processed_test_id ≡ r.last_processed_test_id)
      × ((sort_tests found ts r).pending_test_count ≡ r.pending_test_count)
unfolding sort_tests
sort_tests-cursor found [] r = (refl, refl)
sort_tests-cursor found (t ∷ ts) r = ground (arith, sort_tests-cursor found ts r)

sort_builds-cursor :
    (found : Dict String Checkout) (bs : List PendingBuild) (r : ReadyBuilds)
    → ((sort_builds found bs r).last_processed_build_id ≡ r.last_processed_build_id)
      × ((sort_builds found bs r).pending_build_count ≡ r.pending_build_count)
unfolding sort_builds
sort_builds-cursor found [] r = (refl, refl)
sort_builds-cursor found (b ∷ bs) r = ground (arith, sort_builds-cursor found bs r)

-- A round writes other tables, and leaves the rows that wait until their deletion.
abbrev pub SamePending : Store → Store → Type 0
SamePending s s' = (s'.pending_tests ≡ s.pending_tests) × (s'.pending_builds ≡ s.pending_builds)

pub process_tree_listing_batch-SamePending :
    (sha256 : String → String) (outcome : ℕ → Attempt) (max_retries : ℕ) (ts : List PendingTest)
    (builds : Dict String Build) (bs : List PendingBuild) (checkouts : Dict String Checkout)
    (s s' : Store)
    → process_tree_listing_batch sha256 outcome max_retries ts builds bs checkouts s ≡ some s'
    → SamePending s s'
unfolding process_tree_listing_batch
process_tree_listing_batch-SamePending sha256 outcome max_retries ts builds bs checkouts s s' e =
    elim (Option-cases (attempts outcome max_retries 0)) [
      | inl f ↦ ground arith
      | inr (done, f) ↦ ground arith
    ]

module _ (gt : String → String → Bool) (sha256 : String → String) (max_retries batch_size : ℕ) where
  pub process_tests-SamePending :
      (r : ReadyTests) (s : Store)
      → SamePending s (process_tests gt sha256 max_retries batch_size r s)
  unfolding process_hardware_batch process_rollup_batch
  process_tests-SamePending r s = ground arith

  -- the cursor and the count of a batch of tests
  abbrev pub HasCursor : List PendingTest → Option String → ReadyTests → Type 0
  HasCursor rows last r =
      (r.last_processed_test_id
        ≡ last_id test_id_of (batch_of gt test_id_of last batch_size rows) last)
      × (r.pending_test_count ≡ length (batch_of gt test_id_of last batch_size rows))

  abbrev pub HasBuildCursor : List PendingBuild → Option String → ReadyBuilds → Type 0
  HasBuildCursor rows last b =
      (b.last_processed_build_id
        ≡ last_id build_id_of (batch_of gt build_id_of last batch_size rows) last)
      × (b.pending_build_count ≡ length (batch_of gt build_id_of last batch_size rows))

  pub get_ready_tests-HasCursor :
      (rows : List PendingTest) (builds : Dict String Build) (last : Option String)
      → HasCursor rows last (get_ready_tests gt rows builds last batch_size)
  unfolding get_ready_tests
  get_ready_tests-HasCursor rows builds last =
      let batch = batch_of gt test_id_of last batch_size rows in
      let nothing : ReadyTests = record {
        ready_tests = [];
        test_builds_by_id = [];
        last_processed_test_id = last_id test_id_of batch last;
        skipped_no_build = 0;
        pending_test_count = length batch;
      } in
      elim (Bool-cases (any (λ t. is_some (lookup t.build_id builds)) batch)) [
        | inl e ↦ rw e (sort_tests-cursor builds batch nothing)
        | inr e ↦ rw e (refl, refl)
      ]

  pub get_ready_builds-HasBuildCursor :
      (rows : List PendingBuild) (checkouts : Dict String Checkout) (last : Option String)
      → HasBuildCursor rows last (get_ready_builds gt rows checkouts last batch_size)
  unfolding get_ready_builds
  get_ready_builds-HasBuildCursor rows checkouts last =
      let batch = batch_of gt build_id_of last batch_size rows in
      let nothing : ReadyBuilds = record {
        ready_builds = [];
        build_checkouts_by_id = [];
        last_processed_build_id = last_id build_id_of batch last;
        skipped_no_checkout = 0;
        pending_build_count = length batch;
      } in
      elim (Bool-cases (any (λ b. is_some (lookup b.checkout_id checkouts)) batch)) [
        | inl e ↦ rw e (sort_builds-cursor checkouts batch nothing)
        | inr e ↦ rw e (refl, refl)
      ]

  pub same_rows :
      (rows rows' : List PendingBuild) (last : Option String) (b : ReadyBuilds)
      → rows ≡ rows'
      → HasBuildCursor rows last b
      → HasBuildCursor rows' last b
  same_rows rows rows' last b e h = rw (← e) h
