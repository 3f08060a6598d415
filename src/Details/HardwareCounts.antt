-- ===== src/Details/HardwareCounts.antt =====
-- The breakdowns of the tests of a hardware agree: handle_test_summary of
-- backend/kernelCI_app/helpers/hardwareDetails.py.
use kernelci_dashboard.Base.{◌≡◌, refl, String, Bool-cases, inl, inr, Option, string_eq, option_eq}
use mathlib.Core.Path.{subst}
use kernelci_dashboard.Base.Int.{pos}
use kernelci_dashboard.Filters.Issues.{is_status_failure, failure_status_list}
use kernelci_dashboard.Filters.Request.{ok, ok_of_bind}
use kernelci_dashboard.Details.Tally.{
  Status, status_eq, status_text, count_of, count_tally, sum_at, count_of-increment, sum_at-bump_at,
}
use kernelci_dashboard.Details.Misc.{Misc, extract_error_message}
use kernelci_dashboard.Details.Hardware.{
  HardwareRecord, TestSummary, count_failure, handle_test_summary, record_platform,
}

-- For each status, the configs, the platforms and the origins add up to the status's count.
abbrev pub IsEven : TestSummary → Type 0
IsEven t =
    (u : Status)
    → (sum_at u t.configs ≡ count_of u t.status)
      × (sum_at u t.platforms ≡ count_of u t.status)
      × (sum_at u t.origins ≡ count_of u t.status)

ok-equal : {a b : TestSummary} → ok a ≡ ok b → a ≡ b
ok-equal p = cc

count_failure-IsEven :
    (loads : String → Option Misc) (r : HardwareRecord) (t failed : TestSummary)
    → IsEven t
    → count_failure loads r t ≡ ok failed
    → IsEven failed
unfolding count_failure
count_failure-IsEven loads r t failed h =
    elim (Bool-cases (is_status_failure (status_text r.status) failure_status_list)) [
      | inr p ↦ rw (p, count_failure) (λ g. subst IsEven (ok-equal g) h)
      | inl p ↦
          rw (p, count_failure)
            (λ g.
              let (reason, _, done) = ok_of_bind (extract_error_message loads r.misc) _ g in
              subst IsEven (ok-equal done) h)
    ]

-- A summary whose configs, platforms and origins add up to the count of each status stays so after
-- handle_test_summary, where that does not raise.
pub handle_test_summary-IsEven :
    (loads : String → Option Misc) (r : HardwareRecord) (t after : TestSummary)
    → IsEven t
    → handle_test_summary loads r t ≡ ok after
    → IsEven after
unfolding handle_test_summary
handle_test_summary-IsEven loads r t after h g =
    let (failed, failing, done) = ok_of_bind (count_failure loads r t) _ g in
    let even = count_failure-IsEven loads r t failed h failing in
    subst IsEven (ok-equal done) (λ u. (
      rw
          (
            sum_at-bump_at u r.status r.build_config_name (pos 1) failed.configs,
            count_of-increment u r.status (pos 1) failed.status,
            (even u).0,
          )
          refl,
      rw
          (
            sum_at-bump_at u r.status (record_platform loads r) (pos 1) failed.platforms,
            count_of-increment u r.status (pos 1) failed.status,
            (even u).1,
          )
          refl,
      rw
          (
            sum_at-bump_at u r.status r.test_origin (pos 1) failed.origins,
            count_of-increment u r.status (pos 1) failed.status,
            (even u).2,
          )
          refl,
    ))
