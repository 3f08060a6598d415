-- ===== src/Status.antt =====
-- The statuses of backend/kernelCI_app/models.py and what is read off them: simplify_status of
-- management/commands/helpers/aggregation_helpers.py, the counts of process_pending_aggregations.py
-- and is_boot of utils.py.
use kernelci_dashboard.Base.{String, Bool, false, ◌||◌, Option, none, some, ◌==◌, string_eq}
use kernelci_dashboard.Base.Text.{is_prefix}
use kernelci_dashboard.Base.Int.{ℤ, pos}

pub data StatusChoices : Type 0 where
  pass fail skip error miss done : StatusChoices

pub data SimplifiedStatusChoices : Type 0 where
  passed failed inconclusive : SimplifiedStatusChoices

unfoldable pub simplify_status : Option StatusChoices → Option SimplifiedStatusChoices
simplify_status none = none
simplify_status (some pass) = some passed
simplify_status (some fail) = some failed
simplify_status (some _) = some inconclusive

-- The table SIMPLIFIED_STATUS_TO_COUNT: (pass, failed, inc).
unfoldable pub map_simplified_status_to_count : Option SimplifiedStatusChoices → ℤ × ℤ × ℤ
map_simplified_status_to_count (some passed) = (pos 1, pos 0, pos 0)
map_simplified_status_to_count (some failed) = (pos 0, pos 1, pos 0)
map_simplified_status_to_count (some inconclusive) = (pos 0, pos 0, pos 1)
map_simplified_status_to_count none = (pos 0, pos 0, pos 1)

unfoldable pub is_boot : Option String → Bool
unfolding is_prefix
is_boot none = false
is_boot (some path) = path == "boot" || is_prefix "boot." path
