-- ===== src/Aggregation/Hardware.antt =====
-- get_hardware_key, _collect_hardware_status_contexts and aggregate_hardware_status.
use Prim.Native.String.{◌++◌ as ◌<>◌}
use kernelci_dashboard.Base.{
  ℕ, String, Option, none, some, List, [], ◌∷◌, string_eq, Eq, if◌then◌else◌, nonempty, get_or, not,
}
use kernelci_dashboard.Base.Dict.{Dict, lookup, insert}
use kernelci_dashboard.Status.{simplify_status}
use kernelci_dashboard.Aggregation.Models.{Checkout, Build, PendingTest, ProcessedItem}
use kernelci_dashboard.Aggregation.Counts.{ListingItemCount, zero_counts}
use kernelci_dashboard.Aggregation.Processed.{get_existing_processed}
use kernelci_dashboard.Aggregation.Items.{process_test_status, process_build_status}

-- (test_origin, platform, checkout_id), the key of a row of hardware_status
pub record HardwareKey : Type 0 where
  pub test_origin : String
  pub platform : String
  pub checkout_id : String

HardwareKey-discrete : Discrete HardwareKey
unfolding string_eq
HardwareKey-discrete = hlevel string_eq.dec

instance unfoldable pub hardware_key_eq : Eq HardwareKey
unfolding HardwareKey-discrete
hardware_key_eq = record { dec = HardwareKey-discrete }

pub record HardwareContext : Type 0 where
  pub test : PendingTest
  pub platform : String
  pub build : Build
  pub checkout : Checkout
  pub test_key : String
  pub build_key : String

pub record HardwareStatusRecord : Type 0 where
  pub checkout_id : String
  pub test_origin : String
  pub platform : String
  pub compatibles : Option (List String)
  pub start_time : Option ℕ
  pub counts : ListingItemCount

unfoldable pub init_hardware_status_record :
    Checkout → String → String → Option (List String) → HardwareStatusRecord
init_hardware_status_record checkout test_origin platform compatibles = record {
  checkout_id = checkout.id;
  test_origin = test_origin;
  platform = platform;
  compatibles = compatibles;
  start_time = checkout.start_time;
  counts = zero_counts;
}

module _ (sha256 : String → String) where
  unfoldable pub get_hardware_key : String → String → String → String → String
  get_hardware_key origin platform checkout_id entity_id =
      sha256 (origin <> "|" <> platform <> "|" <> checkout_id <> "|" <> entity_id)

  -- a test with a platform and a known build
  abbrev hardware_context : PendingTest → String → Build → HardwareContext
  hardware_context t platform b = record {
    test = t;
    platform = platform;
    build = b;
    checkout = b.checkout;
    test_key = get_hardware_key t.origin platform b.checkout.id t.test_id;
    build_key = get_hardware_key t.origin platform b.checkout.id b.id;
  }

  unfoldable pub collect_hardware_status_contexts :
      List PendingTest → Dict String Build → List HardwareContext
  unfolding get_hardware_key lookup
  collect_hardware_status_contexts [] builds = []
  collect_hardware_status_contexts (t ∷ ts) builds =
      let rest = collect_hardware_status_contexts ts builds in
      elim t.platform [
        | none ↦ rest
        | some platform ↦ elim (lookup t.build_id builds) [
          | none ↦ rest
          | some b ↦ hardware_context t platform b ∷ rest
        ]
      ]

-- keys_to_check
abbrev pub hardware_keys : List HardwareContext → List String
hardware_keys [] = []
hardware_keys (c ∷ cs) = c.test_key ∷ c.build_key ∷ hardware_keys cs

-- The two calls for a context: the build is looked at only where its test was counted.
unfoldable pub process_hardware_context :
    HardwareContext
    → ListingItemCount
    → List ProcessedItem
    → List ProcessedItem
    → ListingItemCount × List ProcessedItem
unfolding process_test_status process_build_status simplify_status
process_hardware_context c r existing new =
    let tested = process_test_status c.test c.test_key c.checkout.id r existing new in
    if tested.0
    then process_build_status c.build.id c.checkout.id (simplify_status c.build.status) c.build_key
        tested.1 existing tested.2
    else (tested.1, tested.2)

abbrev pub HardwareStatusData : Type 0
HardwareStatusData = Dict HardwareKey HardwareStatusRecord

unfoldable pub aggregate_hardware_contexts :
    List ProcessedItem
    → List HardwareContext
    → HardwareStatusData
    → List ProcessedItem
    → HardwareStatusData × List ProcessedItem
unfolding process_hardware_context lookup insert init_hardware_status_record
aggregate_hardware_contexts existing [] d new = (d, new)
aggregate_hardware_contexts existing (c ∷ cs) d new =
    let key : HardwareKey = record {
      test_origin = c.test.origin;
      platform = c.platform;
      checkout_id = c.checkout.id;
    } in
    let r =
      get_or (lookup key d)
        (init_hardware_status_record c.checkout c.test.origin c.platform c.test.compatible) in
    let done = process_hardware_context c r.counts existing new in
    aggregate_hardware_contexts existing cs (insert key (record r { counts = done.0 }) d) done.1

unfoldable pub aggregate_hardware_status :
    (String → String)
    → List ProcessedItem
    → List PendingTest
    → Dict String Build
    → HardwareStatusData × List ProcessedItem
unfolding collect_hardware_status_contexts aggregate_hardware_contexts get_existing_processed
aggregate_hardware_status sha256 table tests builds =
    let contexts = collect_hardware_status_contexts sha256 tests builds in
    if not (nonempty contexts)
    then ([], [])
    else aggregate_hardware_contexts (get_existing_processed table (hardware_keys contexts))
        contexts [] []
