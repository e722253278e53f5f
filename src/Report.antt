-- ===== src/Report.antt =====
-- internal/report: the row of a report, as report.go reads it from the store, and the rules over it.
pub mod Rules
use gh_audit.Prelude.{ℕ, Bool, List}
use gh_audit.Text.{Text}
use gh_audit.Model.{Time}

pub record OtherPr : Type 0 where
  pub number : ℕ
  pub href : Text

pub record DetailRow : Type 0 where
  pub org : Text
  pub repo : Text
  pub sha : Text
  pub author_login : Text
  pub committer_login : Text
  pub committed_at : Time
  pub message : Text
  pub is_bot : Bool
  pub is_exempt_author : Bool
  pub is_empty_commit : Bool
  pub is_self_approved : Bool
  pub has_stale_approval : Bool
  pub has_post_merge_concern : Bool
  pub is_clean_revert : Bool
  pub revert_verification : Text
  pub reverted_sha : Text
  pub is_clean_merge : Bool
  pub merge_verification : Text
  pub has_pr : Bool
  pub pr_number : ℕ
  pub pr_count : ℕ
  pub pr_href : Text
  pub other_prs : List OtherPr
  pub author_id : ℕ
  pub merged_by_id : ℕ
  pub merged_by_login : Text
  pub has_final_approval : Bool
  pub approver_logins : Text
  pub owner_approval_check : Text
  pub is_compliant : Bool
  pub reasons : Text
  pub merge_strategy : Text
  pub pr_commit_author_logins : Text
  pub commit_href : Text
  pub branch_name : Text
  pub annotations : Text
