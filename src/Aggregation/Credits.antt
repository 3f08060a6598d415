-- ===== src/Aggregation/Credits.antt =====
-- What a table of processed items credits to the counters, before and after a batch.
use kernelci_dashboard.Base.{
  String, ◌≡◌, refl, sym, ap, ◌∙◌, inl, inr, Bool-cases, Bool, true, false, Option, none, some,
  List, [], ◌∷◌, arith, ◌==◌, ◌&&◌, not, string_eq, if◌then◌else◌, All, contains, nonempty,
}
use kernelci_dashboard.Base.Dict.{Dict, lookup}
use kernelci_dashboard.Base.Int.{ℤ, pos, ◌+ℤ◌, ◌-ℤ◌, -ℤ-zero, int_laws}
use kernelci_dashboard.Aggregation.Models.{
  Checkout, Build, PendingTest, PendingBuild, ProcessedItem,
}
use kernelci_dashboard.Aggregation.Counts.{Kind, Outcome}
use kernelci_dashboard.Aggregation.Processed.{
  find_entry, has_key, get_existing_processed, process_new_processed_entries,
}
use kernelci_dashboard.Aggregation.Items.{settles}
use kernelci_dashboard.Aggregation.Effects.{entry_credit, entry_after, only, only-sub}
use kernelci_dashboard.Aggregation.TreeListing.{
  Context, TreeListingData, keys_of, collect_tree_listing_contexts, aggregate_context,
  aggregate_contexts, aggregate_tree_listing,
}
use kernelci_dashboard.Aggregation.Totals.{
  status_of, item_kind, is_counted, entry_of, effect, sum_effects, total, AllFresh,
}
use kernelci_dashboard.Aggregation.Stored.{
  Unique, aggregate_context-set, is_written, IsRecorded, find_entry-write, find_entry-existing,
}

-- What the entry that a table holds for a context counts for a counter of a checkout.
unfoldable pub credit_of : List ProcessedItem → String → Kind → Outcome → Context → ℤ
credit_of table checkout_id l o c =
    if checkout_id == c.checkout.id && is_counted c.item
    then only (item_kind c.item) l (entry_credit (find_entry c.listing_key c.checkout.id table) o)
    else pos 0

-- The sum over a batch: what a checkout's counter should show for the items of the batch.
unfoldable pub credits : List ProcessedItem → String → Kind → Outcome → List Context → ℤ
unfolding credit_of
credits table checkout_id l o [] = pos 0
credits table checkout_id l o (c ∷ cs) =
    credit_of table checkout_id l o c +ℤ credits table checkout_id l o cs

entry_after-credit :
    (stored : Option ProcessedItem) (x : ProcessedItem) (o : Outcome)
    → entry_credit (some (entry_after stored x)) o
      ≡ entry_credit (if not (settles stored x.status) then some x else stored) o
unfolding entry_after settles
entry_after-credit none x o = refl
entry_after-credit (some y) x o = ground arith

-- `after` holds for a context what a batch that read `before` leaves for it.
abbrev pub IsAfter : List ProcessedItem → List ProcessedItem → Context → Type 0
IsAfter before after c = find_entry c.listing_key c.checkout.id after ≡ (
    if is_written before c
    then some (entry_of c)
    else find_entry c.listing_key c.checkout.id before)

effect-credits :
    (before after : List ProcessedItem) (checkout_id : String) (l : Kind) (o : Outcome)
    (c : Context)
    → IsAfter before after c
    → effect before checkout_id l o c
      ≡ credit_of after checkout_id l o c -ℤ credit_of before checkout_id l o c
unfolding effect credit_of
effect-credits before after checkout_id l o c h =
    let stored = find_entry c.listing_key c.checkout.id before in
    let k = item_kind c.item in
    let left : Option ProcessedItem =
      if not (settles stored (status_of c.item)) then some (entry_of c) else stored in
    elim (Bool-cases (checkout_id == c.checkout.id && is_counted c.item)) [
      | inl here ↦
          let same : find_entry c.listing_key c.checkout.id after ≡ left = ground arith in
          let settled = entry_after-credit stored (entry_of c) o in
          ground (
            arith,
            only-sub k l (entry_credit (some (entry_after stored (entry_of c))) o)
                (entry_credit stored o),
            ap (only k l) settled,
            ap (λ t. only k l (entry_credit t o)) same,
          )
      | inr away ↦ ground (arith, -ℤ-zero (pos 0))
    ]

pub sum_effects-credits :
    (before after : List ProcessedItem) (checkout_id : String) (l : Kind) (o : Outcome)
    (cs : List Context)
    → All (IsAfter before after) cs
    → sum_effects before checkout_id l o cs
      ≡ credits after checkout_id l o cs -ℤ credits before checkout_id l o cs
unfolding sum_effects credits
sum_effects-credits before after checkout_id l o [] h = sym (-ℤ-zero (pos 0))
sum_effects-credits before after checkout_id l o (c ∷ cs) h =
    rw
      (
        effect-credits before after checkout_id l o c h.0,
        sum_effects-credits before after checkout_id l o cs h.1,
      )
      (omega int_laws)

abbrev AllIn : List String → List Context → Type 0
AllIn keys = All (λ c. contains keys c.listing_key ≡ true)

AllIn-cons :
    (key : String) (keys : List String) (cs : List Context) → AllIn keys cs → AllIn (key ∷ keys) cs
AllIn-cons key keys [] h = tt
AllIn-cons key keys (c ∷ cs) h = (ground arith, AllIn-cons key keys cs h.1)

pub keys_of-AllIn : (cs : List Context) → AllIn (keys_of cs) cs
keys_of-AllIn [] = tt
keys_of-AllIn (c ∷ cs) = (ground arith, AllIn-cons c.listing_key (keys_of cs) cs (keys_of-AllIn cs))

pub fresh_start : (cs : List Context) → AllFresh [] cs
unfolding has_key
fresh_start [] = tt
fresh_start (c ∷ cs) = (refl, fresh_start cs)

empty-loop :
    (existing : List ProcessedItem) (cs : List Context)
    → (if not (nonempty cs) then ([], []) else aggregate_contexts existing cs [] [])
      ≡ aggregate_contexts existing cs [] []
unfolding aggregate_contexts
empty-loop existing [] = refl
empty-loop existing (c ∷ cs) = refl

-- The early returns give what the loop gives.
pub aggregate_tree_listing-loop :
    (sha256 : String → String) (table : List ProcessedItem) (tests : List PendingTest)
    (test_builds : Dict String Build) (builds : List PendingBuild)
    (checkouts : Dict String Checkout)
    → let cs = collect_tree_listing_contexts sha256 tests test_builds builds checkouts in
      aggregate_tree_listing sha256 table tests test_builds builds checkouts
      ≡ aggregate_contexts (get_existing_processed table (keys_of cs)) cs [] []
unfolding aggregate_tree_listing
aggregate_tree_listing-loop sha256 table [] test_builds [] checkouts = refl
aggregate_tree_listing-loop sha256 table tests test_builds builds checkouts =
    let cs = collect_tree_listing_contexts sha256 tests test_builds builds checkouts in
    empty-loop (get_existing_processed table (keys_of cs)) cs

module _ (table : List ProcessedItem) where
  -- Reading the entries of the keys of the batch is reading the table.
  abbrev pub reads : List Context → List ProcessedItem
  reads cs = get_existing_processed table (keys_of cs)

  pub AllAfter :
      (keys : List String) (new : List ProcessedItem) (cs : List Context)
      → Unique new
      → AllIn keys cs
      → All (IsRecorded (get_existing_processed table keys) new) cs
      → All
          (IsAfter (get_existing_processed table keys) (process_new_processed_entries table new))
          cs
  AllAfter keys new [] u h r = tt
  AllAfter keys new (c ∷ cs) u h r = (
    rw (find_entry-write c.listing_key c.checkout.id table new u)
        (ground (arith, find_entry-existing c.listing_key c.checkout.id keys table h.0, r.0)),
    AllAfter keys new cs u h.1 r.1,
  )

  pub credits-reads :
      (keys : List String) (checkout_id : String) (l : Kind) (o : Outcome) (cs : List Context)
      → AllIn keys cs
      → credits (get_existing_processed table keys) checkout_id l o cs
        ≡ credits table checkout_id l o cs
  unfolding credits
  credits-reads keys checkout_id l o [] h = refl
  credits-reads keys checkout_id l o (c ∷ cs) h = rw (
    credits-reads keys checkout_id l o cs h.1,
    find_entry-existing c.listing_key c.checkout.id keys table h.0,
  )

pub total-empty : (checkout_id : String) (l : Kind) (o : Outcome) → total checkout_id l o [] ≡ pos 0
unfolding total lookup
total-empty checkout_id l o = refl

settled_after :
    (stored found : Option ProcessedItem) (counted : Bool) (x : ProcessedItem)
    → found ≡ (if counted && not (settles stored x.status) then some x else stored)
    → (counted && not (settles found x.status)) ≡ false
unfolding settles
settled_after stored found counted x e = rw e (ground arith)

pub AllAfter-settled :
    (before after : List ProcessedItem) (keys : List String) (cs : List Context)
    → AllIn keys cs
    → All (IsAfter before after) cs
    → All (λ c. is_written (get_existing_processed after keys) c ≡ false) cs
AllAfter-settled before after keys [] h a = tt
AllAfter-settled before after keys (c ∷ cs) h a = (
  rw (find_entry-existing c.listing_key c.checkout.id keys after h.0) (
      settled_after (find_entry c.listing_key c.checkout.id before) _ (is_counted c.item)
        (entry_of c) a.0),
  AllAfter-settled before after keys cs h.1 a.1,
)

pub keep-IsAfter :
    (rs : List ProcessedItem) (cs : List Context)
    → All (λ c. is_written rs c ≡ false) cs
    → All (IsAfter rs rs) cs
keep-IsAfter rs [] h = tt
keep-IsAfter rs (c ∷ cs) h = (rw h.0, keep-IsAfter rs cs h.1)

pub no_entries :
    (rs : List ProcessedItem) (cs : List Context) (d : TreeListingData) (new : List ProcessedItem)
    → new ≡ []
    → All (λ c. is_written rs c ≡ false) cs
    → (aggregate_contexts rs cs d new).1 ≡ []
unfolding aggregate_contexts has_key
no_entries rs [] d new e h = e
no_entries rs (c ∷ cs) d new e h =
    let next = aggregate_context rs c d new in
    no_entries rs cs next.0 next.1 (aggregate_context-set rs c d new (rw e) ∙ rw h.0 e) h.1
