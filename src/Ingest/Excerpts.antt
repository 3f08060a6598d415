-- ===== src/Ingest/Excerpts.antt =====
-- The bound on log excerpts and the uploads: extract_log_excerpt of
-- backend/kernelCI_app/management/commands/helpers/log_excerpt_utils.py.
use kernelci_dashboard.Base.{ℕ, ◌≤◌, String, Option, string_eq, nat_eq, get_or}
use kernelci_dashboard.Base.Text.{size}
use kernelci_dashboard.Ingest.LogExcerpt.{Item}

module _ (sha256 : String → String) (answer : ℕ → Option ℕ) (storage_base_url : String)
    (threshold : ℕ) where
  -- The excerpt of an item, if it has one, has at most so many characters.
  abbrev pub IsShort : Item → Type 0
  IsShort item = size (get_or item.log_excerpt "") ≤ threshold
