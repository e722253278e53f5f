-- ===== src/Audit/Finish.antt =====
-- The three ways in which EvaluateCommit of audit.go writes its result.
use gh_audit.Audit.Reviews.{values}
use gh_audit.Audit.Contributors.{is_self_approval, distinct_pr_branch_authors}
use gh_audit.Audit.Types.{classify_merge_strategy}
use gh_audit.Audit.Pr.{counts, PrVerdict}
use gh_audit.Text.{text, Text}
use gh_audit.Model.{EnrichmentResult, Commit, AuditResult, PullRequest}
use gh_audit.Prelude.{
  ℕ, Bool, true, false, not, ◌&&◌, ◌||◌, Option, none, some, [], ◌∷◌, if◌then◌else◌, nat_eq,
  text_eq, any,
}

abbrev pub pr_number_of : Option PullRequest → ℕ → ℕ
pr_number_of none before = before
pr_number_of (some pr) before = pr.number

abbrev pub pr_href_of : Option PullRequest → Text → Text
pr_href_of none before = before
pr_href_of (some pr) before = pr.href

abbrev pub is_some {ℓ} : {A : Type ℓ} → Option A → Bool
is_some none = false
is_some (some a) = true

-- finalizeCompliantPR
unfoldable pub finalize_compliant_pr :
    AuditResult → Commit → EnrichmentResult → PrVerdict → AuditResult
finalize_compliant_pr result commit enrichment v = record result {
  is_compliant = true;
  has_final_approval = true;
  has_post_merge_concern = v.post_merge_concern;
  approver_logins = v.approvers;
  owner_approval_check = v.owner_approval;
  pr_number = pr_number_of v.pr result.pr_number;
  pr_href = pr_href_of v.pr result.pr_href;
  reasons = text "compliant" ∷ [];
  merge_strategy = classify_merge_strategy commit true;
  pr_commit_author_logins = distinct_pr_branch_authors enrichment.pr_branch_commits;
}

-- finalizeRevertWaiver
unfoldable pub finalize_revert_waiver :
    AuditResult → Commit → EnrichmentResult → PrVerdict → Text → AuditResult
finalize_revert_waiver result commit enrichment best reason = record result {
  is_compliant = true;
  has_final_approval = false;
  pr_number = pr_number_of best.pr result.pr_number;
  pr_href = pr_href_of best.pr result.pr_href;
  reasons = reason ∷ [];
  merge_strategy = classify_merge_strategy commit (is_some best.pr);
  pr_commit_author_logins = distinct_pr_branch_authors enrichment.pr_branch_commits;
}

-- The loop of finalizeNonCompliant over the latest reviews.
unfoldable pub independent_approval : Commit → PullRequest → PrVerdict → Bool
independent_approval commit pr best =
    any (λ review. counts review && not (is_self_approval review commit pr best.pr_branch_commits))
      (values best.latest_on_final)

abbrev pub best_final : Commit → PrVerdict → Option PullRequest → Bool → Bool
best_final commit best none before = before
best_final commit best (some pr) before = before || independent_approval commit pr best

-- finalizeNonCompliant
unfoldable pub finalize_non_compliant :
    AuditResult → Commit → EnrichmentResult → PrVerdict → AuditResult
unfolding independent_approval
finalize_non_compliant result commit enrichment best = record result {
  is_compliant = false;
  is_self_approved = best.self_approved && not best.approval_on_final;
  has_stale_approval = best.stale_approval;
  has_post_merge_concern = best.post_merge_concern;
  pr_number = pr_number_of best.pr result.pr_number;
  pr_href = pr_href_of best.pr result.pr_href;
  approver_logins = if is_some best.pr then best.approvers else result.approver_logins;
  owner_approval_check =
      if is_some best.pr then best.owner_approval else result.owner_approval_check;
  has_final_approval = best_final commit best best.pr result.has_final_approval;
  reasons = best.reasons;
  merge_strategy = classify_merge_strategy commit true;
  pr_commit_author_logins = distinct_pr_branch_authors enrichment.pr_branch_commits;
}
