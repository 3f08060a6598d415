-- ===== src/Details/Agreement.antt =====
-- The breakdowns of a summary agree with each other: the rows of tests, and the rows of the rollup.
use kernelci_dashboard.Base.{
  ◌≡◌, refl, Bool-cases, inl, inr, ◌==◌, if◌then◌else◌, string_eq, option_eq,
}
use kernelci_dashboard.Base.Int.{ℤ, pos, ◌+ℤ◌, int_laws}
use kernelci_dashboard.Filters.Issues.{is_status_failure, failure_status_list}
use kernelci_dashboard.Details.Tally.{
  Status, status_eq, status_text, get_count, get_count-add_count, count_tally, dict_tally, sum_at,
  sum_at-bump_at,
}
use kernelci_dashboard.Details.Row.{RowData}
use kernelci_dashboard.Details.Instance.{Summary, arch_key_eq}
use kernelci_dashboard.Details.Summary.{
  Environment, compatible, misc, Place, count_environment, count_everywhere, process_summary,
  process_failure, place_of, increment_test_origin_summary,
}

-- For each status, every breakdown adds up to the status's count; each row is under a compatible or
-- under a platform.
abbrev pub IsAgreed : Summary → Type 0
IsAgreed s =
    (u : Status)
    → (sum_at u s.arch_summary ≡ get_count u s.status_summary)
      × (sum_at u s.configs ≡ get_count u s.status_summary)
      × (sum_at u s.environment_compatible +ℤ sum_at u s.environment_misc
          ≡ get_count u s.status_summary)
      × (sum_at u s.origins ≡ get_count u s.status_summary)
      × (sum_at u s.labs ≡ get_count u s.status_summary)

count_environment-sum :
    (e : Environment) (v : Status) (n : ℤ) (s : Summary) (u : Status)
    → sum_at u (count_environment e v n s).environment_compatible
        +ℤ sum_at u (count_environment e v n s).environment_misc
      ≡ sum_at u s.environment_compatible
        +ℤ sum_at u s.environment_misc
        +ℤ (if u == v then n else pos 0)
unfolding count_environment
count_environment-sum (compatible c) v n s u =
    rw (sum_at-bump_at u v c n s.environment_compatible) (omega int_laws)
count_environment-sum (misc p) v n s u =
    rw (sum_at-bump_at u v p n s.environment_misc) (omega int_laws)

pub count_everywhere-IsAgreed :
    (p : Place) (v : Status) (n : ℤ) (s : Summary)
    → IsAgreed s
    → IsAgreed (count_everywhere p v n s)
unfolding count_everywhere increment_test_origin_summary
count_everywhere-IsAgreed p v n s h u = (
  rw
      (
        sum_at-bump_at u v p.arch n s.arch_summary,
        get_count-add_count u v n s.status_summary,
        (h u).0,
      )
      refl,
  rw (sum_at-bump_at u v p.config n s.configs, get_count-add_count u v n s.status_summary, (h u).1)
      refl,
  rw
      (
        count_environment-sum p.environment v n s u,
        get_count-add_count u v n s.status_summary,
        (h u).2,
      )
      refl,
  rw (sum_at-bump_at u v p.origin n s.origins, get_count-add_count u v n s.status_summary, (h u).3)
      refl,
  rw (sum_at-bump_at u v p.lab n s.labs, get_count-add_count u v n s.status_summary, (h u).4) refl,
)

process_failure-IsAgreed : (r : RowData) (s : Summary) → IsAgreed s → IsAgreed (process_failure r s)
unfolding process_failure
process_failure-IsAgreed r s h =
    elim (Bool-cases (is_status_failure (status_text r.test_status) failure_status_list)) [
      | inl p ↦ rw p h
      | inr p ↦ rw p h
    ]

pub process_summary-IsAgreed :
    (r : RowData) (s : Summary) → IsAgreed s → IsAgreed (process_summary r s)
unfolding process_summary
process_summary-IsAgreed r s h =
    process_failure-IsAgreed r (count_everywhere (place_of r) r.test_status (pos 1) s)
      (count_everywhere-IsAgreed (place_of r) r.test_status (pos 1) s h)
