-- ===== src/Rollup/Selected.antt =====
-- The loop of _process_tests_rollup_batch over the tests that are ready.
use kernelci_dashboard.Base.{
  String, ◌≡◌, refl, Bool, false, ◌||◌, none, some, List, [], ◌∷◌, ◌++◌, map, arith, ◌==◌, contains,
  add, string_eq, if◌then◌else◌, All, is_some, is_none,
}
use kernelci_dashboard.Base.Dict.{Dict, lookup}
use kernelci_dashboard.Base.Int.{ℤ, pos, ◌+ℤ◌, int_laws, +ℤ-zero}
use kernelci_dashboard.Aggregation.Models.{Build, PendingTest, ProcessedItem}
use kernelci_dashboard.Aggregation.Processed.{find_entry}
use kernelci_dashboard.Rollup.Batch.{Selection, get_rollup_key, select_test, select_tests}
use kernelci_dashboard.Rollup.Balance.{one_unless, first_counts}

abbrev has_id : List PendingTest → String → Bool
has_id ts id = contains (map (λ t. t.test_id) ts) id

-- neither selected nor reprocessed so far
abbrev IsUntouched : String → Selection → Type 0
IsUntouched id s =
    (has_id s.tests_to_process id ≡ false) × (contains s.reprocess_test_ids id ≡ false)

abbrev count_of : Dict String Build → List String → PendingTest → ℤ
count_of builds reprocess t =
    if is_some (lookup t.build_id builds) then one_unless (contains reprocess t.test_id) else pos 0

first_counts-snoc :
    (ts : List PendingTest) (t : PendingTest) (builds : Dict String Build) (reprocess : List String)
    → first_counts (ts ++ t ∷ []) builds reprocess
      ≡ first_counts ts builds reprocess +ℤ count_of builds reprocess t
unfolding first_counts
first_counts-snoc [] t builds reprocess = omega int_laws
first_counts-snoc (u ∷ ts) t builds reprocess =
    rw (first_counts-snoc ts t builds reprocess) (omega int_laws)

contains-add : (xs : List String) (a b : String) → contains (add xs a) b ≡ (b == a || contains xs b)
unfolding add
contains-add xs a b = ground arith

first_counts-add :
    (ts : List PendingTest) (builds : Dict String Build) (reprocess : List String) (id : String)
    → has_id ts id ≡ false
    → first_counts ts builds (add reprocess id) ≡ first_counts ts builds reprocess
unfolding first_counts
first_counts-add [] builds reprocess id h = refl
first_counts-add (u ∷ ts) builds reprocess id h =
    ground (arith, first_counts-add ts builds reprocess id, contains-add reprocess id u.test_id)

has_id-snoc :
    (ts : List PendingTest) (t : PendingTest) (id : String)
    → has_id (ts ++ t ∷ []) id ≡ (has_id ts id || id == t.test_id)
has_id-snoc [] t id = ground arith
has_id-snoc (u ∷ ts) t id = ground (arith, has_id-snoc ts t id)

-- The ids of the pending tests are their primary key.
abbrev pub DistinctTests : List PendingTest → Type 0
DistinctTests [] = Unit
DistinctTests (t ∷ ts) = All (λ u. (u.test_id == t.test_id) ≡ false) ts × DistinctTests ts

-- the variables before the loop
abbrev pub no_selection : Selection
no_selection = record { tests_to_process = []; reprocess_test_ids = []; new_processed_entries = [] }

module _ (sha256 : String → String) (existing : List ProcessedItem)
    (builds : Dict String Build) where
  -- 1 for a test whose build is known and that has no entry of the rollup, else 0
  abbrev pub new_count : PendingTest → ℤ
  new_count t = elim (lookup t.build_id builds) [
    | none ↦ pos 0
    | some b ↦
        if is_none (find_entry (get_rollup_key sha256 t.test_id) b.checkout.id existing)
        then pos 1
        else pos 0
  ]

  unfoldable pub new_counts : List PendingTest → ℤ
  new_counts [] = pos 0
  new_counts (t ∷ ts) = new_count t +ℤ new_counts ts

  select_test-counts :
      (t : PendingTest) (s : Selection)
      → IsUntouched t.test_id s
      → first_counts
          (select_test sha256 existing builds t s).tests_to_process
          builds
          (select_test sha256 existing builds t s).reprocess_test_ids
        ≡ first_counts s.tests_to_process builds s.reprocess_test_ids +ℤ new_count t
  unfolding select_test
  select_test-counts t s (h, g) = ground (
    arith,
    +ℤ-zero (first_counts s.tests_to_process builds s.reprocess_test_ids),
    first_counts-snoc s.tests_to_process t builds s.reprocess_test_ids,
    first_counts-snoc s.tests_to_process t builds (add s.reprocess_test_ids t.test_id),
    first_counts-add s.tests_to_process builds s.reprocess_test_ids t.test_id h,
    contains-add s.reprocess_test_ids t.test_id t.test_id,
  )

  select_test-IsUntouched :
      (t : PendingTest) (s : Selection) (id : String)
      → (id == t.test_id) ≡ false
      → IsUntouched id s
      → IsUntouched id (select_test sha256 existing builds t s)
  unfolding select_test
  select_test-IsUntouched t s id differ (h, g) =
      ground
        (arith, has_id-snoc s.tests_to_process t id, contains-add s.reprocess_test_ids t.test_id id)

  abbrev pub AllUntouched : Selection → List PendingTest → Type 0
  AllUntouched s = All (λ t. IsUntouched t.test_id s)

  select_test-AllUntouched :
      (t : PendingTest) (s : Selection) (ts : List PendingTest)
      → All (λ u. (u.test_id == t.test_id) ≡ false) ts
      → AllUntouched s ts
      → AllUntouched (select_test sha256 existing builds t s) ts
  select_test-AllUntouched t s [] h g = tt
  select_test-AllUntouched t s (u ∷ ts) (h, hs) (g, gs) =
      (select_test-IsUntouched t s u.test_id h g, select_test-AllUntouched t s ts hs gs)

  pub select_tests-counts :
      (ts : List PendingTest) (s : Selection)
      → DistinctTests ts
      → AllUntouched s ts
      → first_counts
          (select_tests sha256 existing builds ts s).tests_to_process
          builds
          (select_tests sha256 existing builds ts s).reprocess_test_ids
        ≡ first_counts s.tests_to_process builds s.reprocess_test_ids +ℤ new_counts ts
  unfolding select_tests new_counts
  select_tests-counts [] s d h = omega int_laws
  select_tests-counts (t ∷ ts) s (d, ds) (h, hs) =
      let s' = select_test sha256 existing builds t s in
      rw
        (
          select_tests-counts ts s' ds (select_test-AllUntouched t s ts d hs),
          select_test-counts t s h,
        )
        (omega int_laws)

  pub untouched_start : (ts : List PendingTest) → AllUntouched no_selection ts
  untouched_start [] = tt
  untouched_start (t ∷ ts) = ((refl, refl), untouched_start ts)
