-- ===== src/Aggregation/Models.antt =====
-- The rows of backend/kernelCI_app/models.py that the aggregation reads, with the columns that it
-- uses. A time is a number of microseconds.
use kernelci_dashboard.Base.{ℕ, String, Bool, Option, List}
use kernelci_dashboard.Status.{StatusChoices, SimplifiedStatusChoices}

pub record Checkout : Type 0 where
  pub id : String
  pub origin : String
  pub tree_name : Option String
  pub git_repository_url : Option String
  pub git_repository_branch : Option String
  pub git_commit_hash : Option String
  pub git_commit_name : Option String
  pub git_commit_tags : Option (List String)
  pub start_time : Option ℕ

-- `checkout` is the row that `select_related` joins in
pub record Build : Type 0 where
  pub id : String
  pub origin : String
  pub checkout : Checkout
  pub status : Option StatusChoices
  pub architecture : Option String
  pub compiler : Option String
  pub config_name : Option String

pub record PendingTest : Type 0 where
  pub test_id : String
  pub origin : String
  pub platform : Option String
  pub compatible : Option (List String)
  pub build_id : String
  pub status : Option SimplifiedStatusChoices
  pub is_boot : Bool
  pub path : Option String
  pub lab : Option String
  pub full_status : Option StatusChoices

pub record PendingBuild : Type 0 where
  pub build_id : String
  pub origin : String
  pub checkout_id : String
  pub status : Option SimplifiedStatusChoices

-- `ProcessedListingItems`; the key is the primary key
pub record ProcessedItem : Type 0 where
  pub listing_item_key : String
  pub checkout_id : String
  pub status : Option SimplifiedStatusChoices
