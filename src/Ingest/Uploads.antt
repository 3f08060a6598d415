-- ===== src/Ingest/Uploads.antt =====
-- No excerpt is uploaded twice: extract_log_excerpt of
-- backend/kernelCI_app/management/commands/helpers/log_excerpt_utils.py with its cache.
use kernelci_dashboard.Base.{
  ◌≡◌, refl, ℕ, String, Bool, true, false, Bool-cases, Option-cases, inl, inr, Option, none, List,
  [], ◌∷◌, arith, All, length, contains, ltb, ◌==◌, string_eq, nat_eq, get_or, is_some,
}
use kernelci_dashboard.Base.Dict.{lookup-insert}
use kernelci_dashboard.Base.Text.{size, append, is_full}
use kernelci_dashboard.Ingest.LogExcerpt.{
  Item, Store, Submission, usable, get_from_cache, set_in_cache, url_of, upload_logexcerpt,
  store_excerpt, process_log_excerpt_from_item, process_element, process_items, extract_log_excerpt,
}

-- The texts of a list are all different.
abbrev pub AllDistinct : List String → Type 0
AllDistinct [] = Unit
AllDistinct (x ∷ xs) = (contains xs x ≡ false) × AllDistinct xs

-- Every upload is in the cache, and none was made twice.
abbrev pub IsCached : Store → Type 0
IsCached s =
    All (λ id. is_some (usable (get_from_cache id s)) ≡ true) s.uploads × AllDistinct s.uploads

known_in :
    (s : Store) (ids : List String) (h : String)
    → All (λ id. is_some (usable (get_from_cache id s)) ≡ true) ids
    → usable (get_from_cache h s) ≡ none
    → contains ids h ≡ false
known_in s [] h k n = refl
known_in s (id ∷ ids) h (k, ks) n = elim (Bool-cases (h == id)) [
  | inr p ↦ rw p (known_in s ids h ks n)
  | inl p ↦
      let same : h ≡ id = ground arith in
      let found : is_some (usable (get_from_cache h s)) ≡ true = rw same k in
      let missing : is_some (usable (get_from_cache h s)) ≡ false = rw n refl in cc
]

get_from_cache-set :
    (x h v : String) (s : Store)
    → is_full v ≡ true
    → ((x ≡ h) → is_some (usable (get_from_cache x (set_in_cache h v s))) ≡ true)
      × (is_some (usable (get_from_cache x s)) ≡ true
          → is_some (usable (get_from_cache x (set_in_cache h v s))) ≡ true)
unfolding get_from_cache set_in_cache usable
get_from_cache-set x h v s f = elim (Bool-cases (x == h)) [
  | inl p ↦ rw (lookup-insert x h v s.cache_logs, p, f) (λ e. refl, λ e. refl)
  | inr p ↦ rw (lookup-insert x h v s.cache_logs, p) (λ e. ground arith, λ e. e)
]

is_full-append : (s t : String) → is_full t ≡ true → is_full (append s t) ≡ true
unfolding append is_full
is_full-append String.[] t h = h
is_full-append (String.◌∷◌ c s) t h = refl

module _ (sha256 : String → String) (answer : ℕ → Option ℕ) (storage_base_url : String)
    (threshold : ℕ) where
  upload-lem :
      (e h : String) (s : Store)
      → is_full e ≡ true
      → (is_full (upload_logexcerpt sha256 answer storage_base_url threshold e h s).0 ≡ true)
        × ((upload_logexcerpt sha256 answer storage_base_url threshold e h s).1
            ≡ record s { uploads = h ∷ s.uploads })
  unfolding upload_logexcerpt url_of append is_full
  upload-lem e h s f = elim (Option-cases (answer (length s.uploads))) [
    | inl p ↦ rw (p, upload_logexcerpt) (f, refl)
    | inr (code, p) ↦
        rw (p, upload_logexcerpt)
          (elim (Bool-cases (code == 200)) [
            | inl q ↦ rw q (
              is_full-append storage_base_url
                  (append "/logexcerpt/" (append h "/logexcerpt.txt.gz")) refl,
              refl,
            )
            | inr q ↦ rw q (f, refl)
          ])
  ]

  size-full : (x : String) → ltb threshold (size x) ≡ true → is_full x ≡ true
  unfolding size is_full
  size-full String.[] h = ground arith
  size-full (String.◌∷◌ c x) h = refl

  kept_known :
      (h v : String) (s : Store) (ids : List String)
      → is_full v ≡ true
      → All (λ id. is_some (usable (get_from_cache id s)) ≡ true) ids
      → All (λ id. is_some (usable (get_from_cache id (set_in_cache h v s))) ≡ true) ids
  kept_known h v s [] f k = tt
  kept_known h v s (id ∷ ids) f (k, ks) =
      ((get_from_cache-set id h v s f).1 k, kept_known h v s ids f ks)

  -- the store after an upload, with what came of it in the cache
  uploaded-IsCached :
      (h v : String) (s : Store)
      → is_full v ≡ true
      → usable (get_from_cache h s) ≡ none
      → IsCached s
      → IsCached (set_in_cache h v (record s { uploads = h ∷ s.uploads }))
  unfolding set_in_cache get_from_cache
  uploaded-IsCached h v s f n (k, d) = (
    ((get_from_cache-set h h v s f).0 refl, kept_known h v s s.uploads f k),
    (known_in s s.uploads h k n, d),
  )

  store_excerpt-IsCached :
      (e : String) (item : Item) (s : Store)
      → is_full e ≡ true
      → IsCached s
      → IsCached (store_excerpt sha256 answer storage_base_url threshold e item s).1
  unfolding store_excerpt
  store_excerpt-IsCached e item s f c = elim (Option-cases (usable (get_from_cache (sha256 e) s))) [
    | inr (_, p) ↦ rw (p, store_excerpt) c
    | inl p ↦
        rw (p, store_excerpt)
          (rw (upload-lem e (sha256 e) s f).1
            (uploaded-IsCached (sha256 e) _ s (upload-lem e (sha256 e) s f).0 p c))
  ]

  process_log_excerpt_from_item-IsCached :
      (item : Item) (s : Store)
      → IsCached s
      → IsCached (process_log_excerpt_from_item sha256 answer storage_base_url threshold item s).1
  unfolding process_log_excerpt_from_item
  process_log_excerpt_from_item-IsCached item s c = elim (Option-cases item.log_excerpt) [
    | inl p ↦ rw (p, process_log_excerpt_from_item) c
    | inr (x, p) ↦ elim (Bool-cases (ltb threshold (size x))) [
      | inl q ↦
          rw (p, process_log_excerpt_from_item)
            (rw q (store_excerpt-IsCached x item s (size-full x q) c))
      | inr q ↦ rw (p, process_log_excerpt_from_item) (rw q c)
    ]
  ]

  process_element-IsCached :
      (item : Item) (s : Store)
      → IsCached s
      → IsCached (process_element sha256 answer storage_base_url threshold item s).1
  unfolding process_element
  process_element-IsCached item s c = elim (Bool-cases (is_full (get_or item.log_excerpt ""))) [
    | inl p ↦ rw (p, process_element) (process_log_excerpt_from_item-IsCached item s c)
    | inr p ↦ rw (p, process_element) c
  ]

  process_items-IsCached :
      (items : List Item) (s : Store)
      → IsCached s
      → IsCached (process_items sha256 answer storage_base_url threshold items s).1
  unfolding process_items
  process_items-IsCached [] s c = c
  process_items-IsCached (item ∷ items) s c =
      let step = process_element sha256 answer storage_base_url threshold item s in
      elim (Option-cases step.2) [
        | inl q ↦
            rw (q, process_items)
              (process_items-IsCached items step.1 (process_element-IsCached item s c))
        | inr (e, q) ↦ rw (q, process_items) (process_element-IsCached item s c)
      ]

  -- Where every upload so far has its hash in the cache and no hash was uploaded twice,
  -- extract_log_excerpt keeps this so, with or without a token, whatever the uploads come to and
  -- whether or not it raises: an upload that fails is not tried again either.
  pub extract_log_excerpt-IsCached :
      (token : Bool) (input_data : Submission) (s : Store)
      → IsCached s
      → IsCached (extract_log_excerpt sha256 answer storage_base_url threshold token input_data s).1
  unfolding extract_log_excerpt
  extract_log_excerpt-IsCached true input_data s c =
      elim (Option-cases
        (process_items sha256 answer storage_base_url threshold input_data.builds s).2) [
          | inl q ↦ rw q (
              process_items-IsCached input_data.tests _
                (process_items-IsCached input_data.builds s c))
          | inr (e, q) ↦ rw q (process_items-IsCached input_data.builds s c)
        ]
  extract_log_excerpt-IsCached false input_data s c = c
