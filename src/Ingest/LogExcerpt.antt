-- ===== src/Ingest/LogExcerpt.antt =====
-- The log excerpts of builds and tests:
-- backend/kernelCI_app/management/commands/helpers/log_excerpt_utils.py.
use kernelci_dashboard.Base.{
  ℕ, String, Bool, not, Option, none, some, List, [], ◌∷◌, ◌++◌, length, ltb, ◌==◌, string_eq,
  nat_eq, get_or, if◌then◌else◌,
}
use kernelci_dashboard.Base.Dict.{Dict, lookup, insert}
use kernelci_dashboard.Base.Text.{size, append, is_full}
use kernelci_dashboard.Filters.Request.{Error, attribute_error}

-- an element of output_files: its name and its url
pub record OutputFile : Type 0 where
  pub name : String
  pub url : String

-- The key output_files of an item: it may be missing, null or a list.
pub data OutputFiles : Type 0 where
  missing null : OutputFiles
  files : List OutputFile → OutputFiles

-- a build or a test, with what this code reads of it
pub record Item : Type 0 where
  pub id : Option String
  pub log_excerpt : Option String
  pub output_files : OutputFiles

-- CACHE_LOGS, and the ids of the uploads so far, latest first
pub record Store : Type 0 where
  pub cache_logs : Dict String String
  pub uploads : List String

pub record Submission : Type 0 where
  pub builds : List Item
  pub tests : List Item

-- the element that is appended
abbrev pub excerpt_file : String → OutputFile
excerpt_file url = record { name = "log_excerpt"; url = url }

-- The item as it is left, and what is raised: None has no attribute `append`.
unfoldable pub set_log_excerpt_ofile : Item → String → Item × Option Error
set_log_excerpt_ofile item url =
    let cleaned : Item = record item { log_excerpt = some "" } in
    elim item.output_files [
      | missing ↦ (record cleaned { output_files = files (excerpt_file url ∷ []) }, none)
      | null ↦ (cleaned, some attribute_error)
      | files fs ↦ (record cleaned { output_files = files (fs ++ excerpt_file url ∷ []) }, none)
    ]

-- a text that `if cached_url` takes: "" is false
unfoldable pub usable : Option String → Option String
unfolding is_full
usable none = none
usable (some url) = if is_full url then some url else none

unfoldable pub get_from_cache : String → Store → Option String
unfolding lookup
get_from_cache log_hash s = lookup log_hash s.cache_logs

unfoldable pub set_in_cache : String → String → Store → Store
unfolding insert
set_in_cache log_hash log_excerpt s = record s {
  cache_logs = insert log_hash log_excerpt s.cache_logs;
}

unfoldable pub cache_logs_maintenance : ℕ → Store → Store
cache_logs_maintenance limit s =
    if ltb limit (length s.cache_logs) then record s { cache_logs = [] } else s

-- The hash of a text, the status of the answer to each upload (`none` for an exception), the url of
-- the storage and the threshold.
module _ (sha256 : String → String) (answer : ℕ → Option ℕ) (storage_base_url : String)
    (threshold : ℕ) where
  unfoldable pub url_of : String → String
  unfolding append
  url_of id = append storage_base_url (append "/logexcerpt/" (append id "/logexcerpt.txt.gz"))

  unfoldable pub upload_logexcerpt : String → String → Store → String × Store
  unfolding url_of
  upload_logexcerpt logexcerpt id s =
      let sent : Store = record s { uploads = id ∷ s.uploads } in
      elim (answer (length s.uploads)) [
        | none ↦ (logexcerpt, sent)
        | some code ↦ if code == 200 then (url_of id, sent) else (logexcerpt, sent)
      ]

  -- Each of these gives the data as it is left, the store, and what is raised.
  unfoldable pub store_excerpt : String → Item → Store → Item × Store × Option Error
  unfolding usable get_from_cache upload_logexcerpt set_in_cache set_log_excerpt_ofile
  store_excerpt log_excerpt item s =
      let log_hash = sha256 log_excerpt in
      elim (usable (get_from_cache log_hash s)) [
        | some cached_url ↦
            let (left, raised) = set_log_excerpt_ofile item cached_url in (left, s, raised)
        | none ↦
            let (cached_url, sent) = upload_logexcerpt log_excerpt log_hash s in
            let (left, raised) = set_log_excerpt_ofile item cached_url in
            (left, set_in_cache log_hash cached_url sent, raised)
      ]

  unfoldable pub process_log_excerpt_from_item : Item → Store → Item × Store × Option Error
  unfolding size store_excerpt
  process_log_excerpt_from_item item s = elim item.log_excerpt [
    | none ↦ (item, s, none)
    | some log_excerpt ↦
        if ltb threshold (size log_excerpt)
        then store_excerpt log_excerpt item s
        else (item, s, none)
  ]

  -- `if item.get("log_excerpt")`: an excerpt that is missing or "" is left, as the threshold does.
  unfoldable pub process_element : Item → Store → Item × Store × Option Error
  unfolding is_full process_log_excerpt_from_item
  process_element item s =
      if is_full (get_or item.log_excerpt "")
      then process_log_excerpt_from_item item s
      else (item, s, none)

  -- What is raised ends the loop.
  unfoldable pub process_items : List Item → Store → List Item × Store × Option Error
  unfolding process_element
  process_items [] s = ([], s, none)
  process_items (item ∷ items) s =
      let (left, after, raised) = process_element item s in
      let (more, last, later) = process_items items after in
      elim raised [ none ↦ (left ∷ more, last, later) | some e ↦ (left ∷ items, after, some e) ]

  -- The first argument is whether STORAGE_TOKEN is set.
  unfoldable pub extract_log_excerpt : Bool → Submission → Store → Submission × Store × Option Error
  unfolding process_items
  extract_log_excerpt token input_data s =
      let (builds, after, raised) = process_items input_data.builds s in
      let (tests, last, later) = process_items input_data.tests after in
      if not token then (input_data, s, none) else elim raised [
        | none ↦ (record { builds = builds; tests = tests }, last, later)
        | some e ↦ (record input_data { builds = builds }, after, some e)
      ]
