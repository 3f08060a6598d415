-- ===== src/Aggregation/Totals.antt =====
-- The counters of a batch of the tree listing are the sums of the effects of its items.
use kernelci_dashboard.Base.{
  String, ◌≡◌, refl, sym, ◌∙◌, inl, inr, Option-cases, Bool-cases, Bool, true, false, Option, none,
  some, List, [], ◌∷◌, arith, ◌==◌, ◌&&◌, not, string_eq, if◌then◌else◌, All, get_or,
}
use kernelci_dashboard.Base.Dict.{lookup, insert, lookup-insert}
use kernelci_dashboard.Base.Int.{ℤ, pos, ◌+ℤ◌, +ℤ-zero, int_laws}
use kernelci_dashboard.Base.Text.{is_prefix}
use kernelci_dashboard.Status.{SimplifiedStatusChoices}
use kernelci_dashboard.Aggregation.Models.{Checkout, ProcessedItem}
use kernelci_dashboard.Aggregation.Counts.{
  Kind, build, boot, test, Outcome, ListingItemCount, zero_counts, column,
}
use kernelci_dashboard.Aggregation.Processed.{find_entry, has_key, add_entry}
use kernelci_dashboard.Aggregation.Items.{
  settles, process_item, kind_of, maestro_dummy_build_prefix,
}
use kernelci_dashboard.Aggregation.Effects.{change, only, process_item-change, process_item-fresh}
use kernelci_dashboard.Aggregation.TreeListing.{
  Item, of_test, of_build, Context, TreeListingRecord, TreeListingData, init_tree_listing_record,
  process_by_class, aggregate_context, aggregate_contexts,
}

abbrev pub status_of : Item → Option SimplifiedStatusChoices
status_of (of_test t) = t.status
status_of (of_build b) = b.status

abbrev pub item_kind : Item → Kind
item_kind (of_test t) = kind_of t
item_kind (of_build b) = build

-- A build of the dummy prefix is never counted.
abbrev pub is_counted : Item → Bool
is_counted (of_test t) = true
is_counted (of_build b) = if is_prefix maestro_dummy_build_prefix b.build_id then false else true

abbrev pub entry_of : Context → ProcessedItem
entry_of c = record {
  listing_item_key = c.listing_key;
  checkout_id = c.checkout.id;
  status = status_of c.item;
}

-- The effect of a context on a counter of a checkout, by the entry that is stored for it.
unfoldable pub effect : List ProcessedItem → String → Kind → Outcome → Context → ℤ
effect existing checkout_id l o c =
    if checkout_id == c.checkout.id
    then if is_counted c.item
      then only (item_kind c.item) l
          (change (find_entry c.listing_key c.checkout.id existing) (entry_of c) o)
      else pos 0
    else pos 0

unfoldable pub sum_effects : List ProcessedItem → String → Kind → Outcome → List Context → ℤ
sum_effects existing checkout_id l o [] = pos 0
sum_effects existing checkout_id l o (c ∷ cs) =
    effect existing checkout_id l o c +ℤ sum_effects existing checkout_id l o cs

-- A counter of the record of a checkout, 0 where there is none.
unfoldable pub total : String → Kind → Outcome → TreeListingData → ℤ
total checkout_id l o d = elim (lookup checkout_id d) [
  | none ↦ pos 0
  | some r ↦ column l o r.counts
]

-- The keys of a batch differ.
abbrev pub Distinct : List Context → Type 0
Distinct [] = Unit
Distinct (c ∷ cs) = All (λ d. (c.listing_key == d.listing_key) ≡ false) cs × Distinct cs

-- The batch has met none of the contexts yet.
abbrev pub AllFresh : List ProcessedItem → List Context → Type 0
AllFresh new = All (λ d. has_key d.listing_key new ≡ false)

pub find_entry-none :
    (key checkout_id : String) (xs : List ProcessedItem)
    → has_key key xs ≡ false
    → find_entry key checkout_id xs ≡ none
unfolding has_key find_entry
find_entry-none key checkout_id [] h = refl
find_entry-none key checkout_id (x ∷ xs) h = ground (arith, find_entry-none key checkout_id xs)

-- What an item does, as an update of the counters and of the set.
process_by_class-fresh :
    (i : Item) (key checkout_id : String) (r : ListingItemCount) (existing new : List ProcessedItem)
    → let x : ProcessedItem = record {
      listing_item_key = key;
      checkout_id = checkout_id;
      status = status_of i;
    } in
      process_by_class i key checkout_id r existing new ≡ (
        if is_counted i
        then (
          (process_item (item_kind i) x r existing new).1,
          (process_item (item_kind i) x r existing new).2,
        )
        else (r, new))
unfolding process_by_class
process_by_class-fresh (of_test t) key checkout_id r existing new = refl
process_by_class-fresh (of_build b) key checkout_id r existing new = ground arith

process_by_class-change :
    (i : Item) (key checkout_id : String) (l : Kind) (o : Outcome) (r : ListingItemCount)
    (existing new : List ProcessedItem)
    → has_key key new ≡ false
    → let x : ProcessedItem = record {
      listing_item_key = key;
      checkout_id = checkout_id;
      status = status_of i;
    } in
      column l o (process_by_class i key checkout_id r existing new).0
      ≡ column l o r
        +ℤ (if is_counted i
            then only (item_kind i) l (change (find_entry key checkout_id existing) x o)
            else pos 0)
process_by_class-change i key checkout_id l o r existing new h =
    let x : ProcessedItem = record {
      listing_item_key = key;
      checkout_id = checkout_id;
      status = status_of i;
    } in
    rw process_by_class-fresh (elim (Bool-cases (is_counted i)) [
      | inl counted ↦ rw counted (
          process_item-change (item_kind i) l o x r existing new
            (find_entry-none key checkout_id new h))
      | inr dummy ↦ rw dummy (rw +ℤ-zero)
    ])

column-zero : (l : Kind) (o : Outcome) → column l o zero_counts ≡ pos 0
unfolding column
column-zero build o = ground arith
column-zero boot o = ground arith
column-zero test o = ground arith

total-record :
    (c : Checkout) (l : Kind) (o : Outcome) (d : TreeListingData)
    → column l o (get_or (lookup c.id d) (init_tree_listing_record c)).counts ≡ total c.id l o d
unfolding total init_tree_listing_record
total-record c l o d = elim (Option-cases (lookup c.id d)) [
  | inl e ↦ rw (e, total) (column-zero l o)
  | inr (r, e) ↦ rw (e, total)
]

total-insert :
    (checkout_id id : String) (r : TreeListingRecord) (l : Kind) (o : Outcome) (d : TreeListingData)
    → total checkout_id l o (insert id r d)
      ≡ (if checkout_id == id then column l o r.counts else total checkout_id l o d)
unfolding total
total-insert checkout_id id r l o d = rw (lookup-insert checkout_id id r d, total) (ground arith)

-- One context adds its effect to every counter of every checkout.
aggregate_context-total :
    (existing : List ProcessedItem) (c : Context) (d : TreeListingData) (new : List ProcessedItem)
    (checkout_id : String) (l : Kind) (o : Outcome)
    → has_key c.listing_key new ≡ false
    → total checkout_id l o (aggregate_context existing c d new).0
      ≡ total checkout_id l o d +ℤ effect existing checkout_id l o c
unfolding aggregate_context effect
aggregate_context-total existing c d new checkout_id l o h =
    let r = get_or (lookup c.checkout.id d) (init_tree_listing_record c.checkout) in
    ground (
      arith,
      total-insert checkout_id c.checkout.id
          (record r {
            counts = (process_by_class c.item c.listing_key c.checkout.id r.counts existing new).0;
          })
          l o d,
      process_by_class-change c.item c.listing_key c.checkout.id l o r.counts existing new h,
      total-record c.checkout l o d,
      +ℤ-zero (total checkout_id l o d),
    )

has_key-add_entry :
    (key : String) (x : ProcessedItem) (xs : List ProcessedItem)
    → (x.listing_item_key == key) ≡ false
    → has_key key xs ≡ false
    → has_key key (add_entry xs x) ≡ false
unfolding add_entry has_key
has_key-add_entry key x xs differ h = ground arith

-- The set after an item: its entry is added where the item is counted and not settled.
pub process_by_class-set :
    (i : Item) (key checkout_id : String) (r : ListingItemCount) (existing new : List ProcessedItem)
    → has_key key new ≡ false
    → let x : ProcessedItem = record {
      listing_item_key = key;
      checkout_id = checkout_id;
      status = status_of i;
    } in
      (process_by_class i key checkout_id r existing new).1 ≡ (
        if is_counted i && not (settles (find_entry key checkout_id existing) (status_of i))
        then add_entry new x
        else new)
process_by_class-set i key checkout_id r existing new h =
    let x : ProcessedItem = record {
      listing_item_key = key;
      checkout_id = checkout_id;
      status = status_of i;
    } in
    ground (
      arith,
      process_by_class-fresh i key checkout_id r existing new,
      process_item-fresh (item_kind i) x r existing new (find_entry-none key checkout_id new h),
    )

-- A context leaves the keys that differ from its own as they are.
aggregate_context-keys :
    (existing : List ProcessedItem) (c : Context) (d : TreeListingData) (new : List ProcessedItem)
    (key : String)
    → has_key c.listing_key new ≡ false
    → (c.listing_key == key) ≡ false
    → has_key key new ≡ false
    → has_key key (aggregate_context existing c d new).1 ≡ false
unfolding aggregate_context
aggregate_context-keys existing c d new key fresh differ h =
    rw process_by_class-set (ground (arith, has_key-add_entry key (entry_of c) new differ h))

pub AllFresh-step :
    (existing : List ProcessedItem) (c : Context) (d : TreeListingData) (new : List ProcessedItem)
    (cs : List Context)
    → has_key c.listing_key new ≡ false
    → All (λ b. (c.listing_key == b.listing_key) ≡ false) cs
    → AllFresh new cs
    → AllFresh (aggregate_context existing c d new).1 cs
AllFresh-step existing c d new [] h differ fresh = tt
AllFresh-step existing c d new (b ∷ cs) h differ fresh = (
  aggregate_context-keys existing c d new b.listing_key h differ.0 fresh.0,
  AllFresh-step existing c d new cs h differ.1 fresh.1,
)

-- Each counter of each checkout grows by the sum of the effects of the contexts, each by the entry
-- that is stored for it, when their keys differ and the batch has met none of them.
pub aggregate_contexts-total :
    (existing : List ProcessedItem) (cs : List Context) (d : TreeListingData)
    (new : List ProcessedItem) (checkout_id : String) (l : Kind) (o : Outcome)
    → Distinct cs
    → AllFresh new cs
    → total checkout_id l o (aggregate_contexts existing cs d new).0
      ≡ total checkout_id l o d +ℤ sum_effects existing checkout_id l o cs
unfolding aggregate_contexts sum_effects
aggregate_contexts-total existing [] d new checkout_id l o distinct fresh = sym (+ℤ-zero _)
aggregate_contexts-total existing (c ∷ cs) d new checkout_id l o distinct fresh =
    let next = aggregate_context existing c d new in
    let first = aggregate_context-total existing c d new checkout_id l o fresh.0 in
    let rest =
      aggregate_contexts-total existing cs next.0 next.1 checkout_id l o distinct.1
        (AllFresh-step existing c d new cs fresh.0 distinct.0 fresh.1) in
    rest ∙ rw first (omega int_laws)
