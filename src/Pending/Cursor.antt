-- ===== src/Pending/Cursor.antt =====
-- The cursors of _get_ready_tests and _get_ready_builds: how many rows are left after them.
use kernelci_dashboard.Base.{
  ℕ, zero, suc, ◌≤◌, ◌<◌, String, ◌≡◌, refl, ◌∙◌, Bool, true, false, Bool-cases, inl, inr, ◌⊎◌,
  Option, none, some, List, [], ◌∷◌, arith, ◌==◌, string_eq, nat_eq, length, take, keep, All,
}
use kernelci_dashboard.Pending.Fetch.{last_id, is_after, batch_of}

module _ {A : Type 0} where
  keep-monotone :
      (p q : A → Bool) (xs : List A)
      → ((x : A) → q x ≡ true → p x ≡ true)
      → length (keep q xs) ≤ length (keep p xs)
  unfolding keep
  keep-monotone p q [] h = omega arith
  keep-monotone p q (x ∷ xs) h = ground (arith, keep-monotone p q xs h, h x)

  keep-keep : (p q : A → Bool) (xs : List A) → length (keep p (keep q xs)) ≤ length (keep p xs)
  unfolding keep
  keep-keep p q [] = omega arith
  keep-keep p q (x ∷ xs) = ground (arith, keep-keep p q xs)

  pub length-keep : (p : A → Bool) (xs : List A) → length (keep p xs) ≤ length xs
  unfolding keep
  length-keep p [] = omega arith
  length-keep p (x ∷ xs) = ground (arith, length-keep p xs)

  -- y is a row of the list
  abbrev Has : A → List A → Type 0
  Has y [] = ⊥
  Has y (x ∷ xs) = (y ≡ x) ⊎ Has y xs

  Has-keep : (p : A → Bool) (y : A) (xs : List A) → Has y (keep p xs) → (p y ≡ true) × Has y xs
  unfolding keep
  Has-keep p y [] h = elim h [ ]
  Has-keep p y (x ∷ xs) h = elim (Bool-cases (p x)) [
    | inl e ↦ elim (rw (Has, e) at h) [
      | inl same ↦ (rw same e, inl same)
      | inr has ↦ let (inside, has') = Has-keep p y xs has in (inside, inr has')
    ]
    | inr e ↦ let (inside, has') = Has-keep p y xs (rw (Has, e) at h) in (inside, inr has')
  ]

  Has-take : (n : ℕ) (y : A) (xs : List A) → Has y (take n xs) → Has y xs
  Has-take zero y xs h = elim h [ ]
  Has-take (suc n) y [] h = elim h [ ]
  Has-take (suc n) y (x ∷ xs) (inl e) = inl e
  Has-take (suc n) y (x ∷ xs) (inr h) = inr (Has-take n y xs h)

  keep-strict :
      (p q : A → Bool) (xs : List A) (y : A)
      → ((x : A) → q x ≡ true → p x ≡ true)
      → q y ≡ false
      → p y ≡ true
      → Has y xs
      → length (keep q xs) < length (keep p xs)
  unfolding keep
  keep-strict p q [] y h outside inside has = elim has [ ]
  keep-strict p q (x ∷ xs) y h outside inside (inl e) = ground (arith, keep-monotone p q xs h, h x)
  keep-strict p q (x ∷ xs) y h outside inside (inr has) =
      ground (arith, keep-strict p q xs y h outside inside has, h x)

  -- the last row of a batch
  last_id-Has :
      (id : A → String) (x : A) (xs : List A) (last : Option String)
      → (y : A) × (last_id id (x ∷ xs) last ≡ some (id y)) × Has y (x ∷ xs)
  unfolding last_id
  last_id-Has id x [] last = (x, refl, inl refl)
  last_id-Has id x (z ∷ zs) last =
      let (y, e, h) = last_id-Has id z zs (some (id x)) in (y, e, inr h)

-- The order of the ids in the database: no id is after itself, and what is after a later id is after
-- an earlier one.
pub record IsOrder (gt : String → String → Bool) : Type 0 where
  pub irreflexive : (a : String) → gt a a ≡ false
  pub transitive : (a b c : String) → gt a b ≡ true → gt b c ≡ true → gt a c ≡ true

module _ (gt : String → String → Bool) (order : IsOrder gt) {A : Type 0} (id : A → String) where
  -- the rows that a query after the cursor would find
  abbrev pub left_after : Option String → List A → ℕ
  left_after last rows = length (keep (λ x. is_after gt last (id x)) rows)

  -- An empty id would be taken for no cursor.
  abbrev pub AllNamed : List A → Type 0
  AllNamed = All (λ x. (id x == "") ≡ false)

  named : (y : A) (rows : List A) → AllNamed rows → Has y rows → (id y == "") ≡ false
  named y [] h has = elim has [ ]
  named y (x ∷ xs) (h, hs) (inl same) = rw same h
  named y (x ∷ xs) (h, hs) (inr has) = named y xs hs has

  pub keep-AllNamed : (p : A → Bool) (rows : List A) → AllNamed rows → AllNamed (keep p rows)
  unfolding keep
  keep-AllNamed p [] h = tt
  keep-AllNamed p (x ∷ xs) (h, hs) = ground (arith, keep-AllNamed p xs hs)

  pub left_after-keep :
      (last : Option String) (p : A → Bool) (rows : List A)
      → left_after last (keep p rows) ≤ left_after last rows
  left_after-keep last p rows = keep-keep (λ x. is_after gt last (id x)) p rows

  pub left_after-length :
      (last : Option String) (rows : List A) → left_after last rows ≤ length rows
  left_after-length last rows = length-keep (λ x. is_after gt last (id x)) rows

  after-later :
      (last : Option String) (later x : String)
      → (later == "") ≡ false
      → is_after gt last later ≡ true
      → is_after gt (some later) x ≡ true
      → is_after gt last x ≡ true
  after-later none later x named h g = refl
  after-later (some l) later x named h g = let chain = order.transitive x later l in ground arith

  advance_over :
      (last : Option String) (rows batch : List A)
      → AllNamed rows
      → ((y : A) → Has y batch → (is_after gt last (id y) ≡ true) × Has y rows)
      → ((length batch ≡ 0) × (last_id id batch last ≡ last))
        ⊎ (left_after (last_id id batch last) rows < left_after last rows)
  unfolding last_id
  advance_over last rows [] all_named from = inl (refl, refl)
  advance_over last rows (x ∷ xs) all_named from =
      let (y, e, has) = last_id-Has id x xs last in
      let (inside, there) = from y has in
      let not_empty = named y rows all_named there in
      let not_after : is_after gt (some (id y)) (id y) ≡ false =
        rw not_empty (order.irreflexive (id y)) in
      inr (
        rw e (
          keep-strict (λ z. is_after gt last (id z)) (λ z. is_after gt (some (id y)) (id z)) rows y
            (λ z. after-later last (id y) (id z) not_empty inside) not_after inside there))

  -- A batch is empty and leaves the cursor, or fewer rows are left after the new cursor.
  pub advance :
      (last : Option String) (n : ℕ) (rows : List A)
      → AllNamed rows
      → ((length (batch_of gt id last n rows) ≡ 0)
          × (last_id id (batch_of gt id last n rows) last ≡ last))
        ⊎ (left_after (last_id id (batch_of gt id last n rows) last) rows < left_after last rows)
  advance last n rows all_named =
      let p : A → Bool = λ x. is_after gt last (id x) in
      advance_over last rows (batch_of gt id last n rows) all_named
        (λ y has. Has-keep p y rows (Has-take n y (keep p rows) has))

  -- The same once some rows are deleted, for a cursor and a count that come from the batch.
  pub advance-keep :
      (last new : Option String) (count n : ℕ) (rows : List A) (p : A → Bool)
      → AllNamed rows
      → new ≡ last_id id (batch_of gt id last n rows) last
      → count ≡ length (batch_of gt id last n rows)
      → ((count ≡ 0) × (left_after new (keep p rows) ≤ left_after last rows))
        ⊎ (left_after new (keep p rows) < left_after last rows)
  advance-keep last new count n rows p all_named moved counted =
      let fewer = left_after-keep new p rows in
      elim (advance last n rows all_named) [
        | inl (none_left, stays) ↦
            let stays' : new ≡ last = moved ∙ stays in
            let fewer' : left_after new (keep p rows) ≤ left_after last rows =
              rw (← stays') fewer in
            inl (counted ∙ none_left, fewer')
        | inr less ↦
            let less' : left_after new rows < left_after last rows = rw moved less in
            inr (omega (arith, fewer, less'))
      ]
