-- ===== src/Aggregation/Counts.antt =====
-- `ListingItemCount`: nine counters, one for each kind of item and outcome.
use kernelci_dashboard.Base.Int.{ℤ, pos, ◌+ℤ◌, ◌-ℤ◌}

pub data Kind : Type 0 where
  build boot test : Kind

pub data Outcome : Type 0 where
  pass failed inc : Outcome

pub record ListingItemCount : Type 0 where
  pub build_pass : ℤ
  pub build_failed : ℤ
  pub build_inc : ℤ
  pub boot_pass : ℤ
  pub boot_failed : ℤ
  pub boot_inc : ℤ
  pub test_pass : ℤ
  pub test_failed : ℤ
  pub test_inc : ℤ

abbrev pub zero_counts : ListingItemCount
zero_counts = record {
  build_pass = pos 0;
  build_failed = pos 0;
  build_inc = pos 0;
  boot_pass = pos 0;
  boot_failed = pos 0;
  boot_inc = pos 0;
  test_pass = pos 0;
  test_failed = pos 0;
  test_inc = pos 0;
}

-- the counter of a kind and an outcome
unfoldable pub column : Kind → Outcome → ListingItemCount → ℤ
column build pass r = r.build_pass
column build failed r = r.build_failed
column build inc r = r.build_inc
column boot pass r = r.boot_pass
column boot failed r = r.boot_failed
column boot inc r = r.boot_inc
column test pass r = r.test_pass
column test failed r = r.test_failed
column test inc r = r.test_inc

-- `status_record[decrement_status_type] -= 1`
unfoldable pub decrement : Kind → ListingItemCount → ListingItemCount
decrement build r = record r { build_inc = r.build_inc -ℤ pos 1 }
decrement boot r = record r { boot_inc = r.boot_inc -ℤ pos 1 }
decrement test r = record r { test_inc = r.test_inc -ℤ pos 1 }

-- the three `+=` on the counters of a kind
unfoldable pub add_counts : Kind → ℤ × ℤ × ℤ → ListingItemCount → ListingItemCount
add_counts build n r = record r {
  build_pass = r.build_pass +ℤ n.0;
  build_failed = r.build_failed +ℤ n.1;
  build_inc = r.build_inc +ℤ n.2;
}
add_counts boot n r = record r {
  boot_pass = r.boot_pass +ℤ n.0;
  boot_failed = r.boot_failed +ℤ n.1;
  boot_inc = r.boot_inc +ℤ n.2;
}
add_counts test n r = record r {
  test_pass = r.test_pass +ℤ n.0;
  test_failed = r.test_failed +ℤ n.1;
  test_inc = r.test_inc +ℤ n.2;
}
