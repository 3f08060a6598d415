-- ===== src/Ingest/Latest.antt =====
-- aggregate_checkouts, which keeps the latest checkout of each tree in latest_checkout. Its start_time
-- is not nullable: a checkout without one makes the statement fail.
use kernelci_dashboard.Base.{
  ℕ, ◌≤◌, ◌≡◌, String, true, Option, none, some, List, [], ◌∷◌, arith, ◌==◌, string_eq, Eq, ltb,
  if◌then◌else◌, All, Bool-cases, Option-cases, inl, inr,
}
use kernelci_dashboard.Base.Dict.{Dict, lookup, insert, lookup-insert}
use kernelci_dashboard.Aggregation.Models.{Checkout}

pub record TreeKey : Type 0 where
  pub origin : String
  pub tree_name : Option String
  pub git_repository_url : Option String
  pub git_repository_branch : Option String

TreeKey-discrete : Discrete TreeKey
unfolding string_eq
TreeKey-discrete = hlevel string_eq.dec

instance unfoldable pub tree_key_eq : Eq TreeKey
unfolding TreeKey-discrete
tree_key_eq = record { dec = TreeKey-discrete }

abbrev pub tree_key : Checkout → TreeKey
tree_key c = record {
  origin = c.origin;
  tree_name = c.tree_name;
  git_repository_url = c.git_repository_url;
  git_repository_branch = c.git_repository_branch;
}

-- the other columns of a row
pub record LatestCheckout : Type 0 where
  pub checkout_id : String
  pub start_time : ℕ

-- ON CONFLICT DO UPDATE … WHERE latest_checkout.start_time < EXCLUDED.start_time
abbrev pub keep_latest : Option LatestCheckout → LatestCheckout → LatestCheckout
keep_latest none x = x
keep_latest (some (old)) x = if ltb old.start_time x.start_time then x else old

unfoldable pub insert_latest :
    Dict TreeKey LatestCheckout → TreeKey → LatestCheckout → Dict TreeKey LatestCheckout
unfolding lookup insert
insert_latest rows key x = insert key (keep_latest (lookup key rows) x) rows

-- `none` where the statement fails, and nothing is written
unfoldable pub aggregate_checkouts :
    Dict TreeKey LatestCheckout → List Checkout → Option (Dict TreeKey LatestCheckout)
unfolding insert_latest
aggregate_checkouts rows [] = some rows
aggregate_checkouts rows (c ∷ cs) = elim c.start_time [
  | none ↦ none
  | some time ↦
      aggregate_checkouts
        (insert_latest rows (tree_key c) (record { checkout_id = c.id; start_time = time })) cs
]

-- the row has this start time or a later one
abbrev pub IsSince : Option ℕ → Option LatestCheckout → Type 0
IsSince none row = Unit
IsSince (some time) none = ⊥
IsSince (some time) (some row) = time ≤ row.start_time

insert_latest-row :
    (rows : Dict TreeKey LatestCheckout) (j key : TreeKey) (x : LatestCheckout)
    → lookup j (insert_latest rows key x)
      ≡ (if j == key then some (keep_latest (lookup key rows) x) else lookup j rows)
unfolding insert_latest
insert_latest-row rows j key x = lookup-insert j key (keep_latest (lookup key rows) x) rows

keep_latest-old :
    (old : Option LatestCheckout) (x : LatestCheckout) (time : Option ℕ)
    → IsSince time old
    → IsSince time (some (keep_latest old x))
keep_latest-old none x none h = tt
keep_latest-old none x (some time) h = elim h [ ]
keep_latest-old (some old) x none h = tt
keep_latest-old (some old) x (some time) h = ground arith

keep_latest-new :
    (old : Option LatestCheckout) (x : LatestCheckout)
    → IsSince (some x.start_time) (some (keep_latest old x))
keep_latest-new none x = ground arith
keep_latest-new (some old) x = ground arith

insert_latest-IsSince :
    (rows : Dict TreeKey LatestCheckout) (j key : TreeKey) (x : LatestCheckout) (time : Option ℕ)
    → IsSince time (lookup j rows)
    → IsSince time (lookup j (insert_latest rows key x))
insert_latest-IsSince rows j key x time h = elim (Bool-cases (j == key)) [
  | inl e ↦
      let same : j ≡ key = ground arith in
      rw (insert_latest-row rows j key x, e)
        (keep_latest-old (lookup key rows) x time (rw same at h))
  | inr e ↦ rw (insert_latest-row rows j key x, e) h
]

insert_latest-own :
    (rows : Dict TreeKey LatestCheckout) (key : TreeKey) (x : LatestCheckout)
    → IsSince (some x.start_time) (lookup key (insert_latest rows key x))
insert_latest-own rows key x =
    let same : (key == key) ≡ true = ground arith in
    rw (insert_latest-row rows key key x, same) (keep_latest-new (lookup key rows) x)

none_is_some : {A : Type 0} (a : A) → none ≡ some a → ⊥
none_is_some a e = ground arith

-- A tree's row never gets older.
aggregate_checkouts-later :
    (rows after : Dict TreeKey LatestCheckout) (cs : List Checkout) (j : TreeKey) (time : Option ℕ)
    → aggregate_checkouts rows cs ≡ some after
    → IsSince time (lookup j rows)
    → IsSince time (lookup j after)
unfolding aggregate_checkouts
aggregate_checkouts-later rows after [] j time e h = let p : rows ≡ after = cc in rw (← p) h
aggregate_checkouts-later rows after (c ∷ cs) j time e h = elim (Option-cases c.start_time) [
  | inl f ↦ elim (none_is_some after (rw (aggregate_checkouts, f) at e)) [ ]
  | inr (t, f) ↦
      let x : LatestCheckout = record { checkout_id = c.id; start_time = t } in
      aggregate_checkouts-later (insert_latest rows (tree_key c) x) after cs j time
        (rw (aggregate_checkouts, f) at e) (insert_latest-IsSince rows j (tree_key c) x time h)
]

-- Once the checkouts of a batch are written, the row of each one's tree has its start time or a later
-- one.
pub aggregate_checkouts-latest :
    (rows after : Dict TreeKey LatestCheckout) (cs : List Checkout)
    → aggregate_checkouts rows cs ≡ some after
    → All (λ c. IsSince c.start_time (lookup (tree_key c) after)) cs
unfolding aggregate_checkouts
aggregate_checkouts-latest rows after [] e = tt
aggregate_checkouts-latest rows after (c ∷ cs) e = elim (Option-cases c.start_time) [
  | inl f ↦ elim (none_is_some after (rw (aggregate_checkouts, f) at e)) [ ]
  | inr (t, f) ↦
      let x : LatestCheckout = record { checkout_id = c.id; start_time = t } in
      let rest : aggregate_checkouts (insert_latest rows (tree_key c) x) cs ≡ some after =
        rw (aggregate_checkouts, f) at e in
      let own =
        aggregate_checkouts-later (insert_latest rows (tree_key c) x) after cs (tree_key c) (some t)
          rest (insert_latest-own rows (tree_key c) x) in
      (rw f own, aggregate_checkouts-latest (insert_latest rows (tree_key c) x) after cs rest)
]
