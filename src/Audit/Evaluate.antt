-- ===== src/Audit/Evaluate.antt =====
-- EvaluateCommit of audit.go: the rules in their order.
pub mod Loop
pub mod Best
pub mod Names
pub mod Verdict
pub mod Explained
use gh_audit.Prelude.{
  Bool, true, false, not, ◌&&◌, ◌||◌, Option, none, some, List, [], ◌∷◌, ◌++◌, ◌==◌, ◌/=◌, nat_eq,
  text_eq, if◌then◌else◌, length, ok, failed,
}
use gh_audit.Text.{Text, text, to_lower, has_suffix}
use gh_audit.Model.{Commit, PullRequest, EnrichmentResult, AuditResult}
use gh_audit.Audit.Types.{
  StatsFetcher, Stats, empty_commit, has_content, truncate_sha, classify_merge_strategy,
}
use gh_audit.Audit.Exempt.{exempt_status, has_non_exempt_pr_contributors}
use gh_audit.Audit.Finish.{finalize_compliant_pr, finalize_revert_waiver, finalize_non_compliant}
use gh_audit.Audit.Pr.{PrVerdict, Rules, no_verdict, evaluate_pr, better_verdict}
use gh_audit.Audit.Annotations.{compute_annotations}

-- initAuditResult
unfoldable pub init_audit_result : Commit → EnrichmentResult → AuditResult
init_audit_result commit enrichment = record {
  org = commit.org;
  repo = commit.repo;
  sha = commit.sha;
  is_empty_commit = false;
  is_bot = has_suffix (to_lower commit.author_login) (text "[bot]");
  is_exempt_author = false;
  exemption_forgeable = false;
  has_pr = false;
  pr_number = 0;
  pr_count = 0;
  has_final_approval = false;
  has_stale_approval = false;
  has_post_merge_concern = false;
  is_clean_revert = enrichment.is_clean_revert;
  revert_verification = enrichment.revert_verification;
  reverted_sha = enrichment.reverted_sha;
  is_clean_merge = enrichment.is_clean_merge;
  merge_verification = enrichment.merge_verification;
  is_self_approved = false;
  approver_logins = [];
  owner_approval_check = [];
  is_compliant = false;
  reasons = [];
  merge_strategy = [];
  pr_commit_author_logins = [];
  commit_href = commit.href;
  pr_href = [];
  annotations = compute_annotations commit;
  audited_at = 0;
}

-- applyExemptAuthorRule: the result as it leaves it, and whether the commit is waived.
unfoldable pub apply_exempt_author_rule :
    AuditResult → Commit → EnrichmentResult → Rules → AuditResult × Bool
apply_exempt_author_rule result commit enrichment rules =
    let (exempt, forgeable) = exempt_status commit rules.exempt_authors rules.require_signing in
    if not exempt
    then (result, false)
    else if has_non_exempt_pr_contributors commit.org commit.repo enrichment.pr_branch_commits
        rules.exempt_authors rules.fetch_stats rules.require_signing
    then (record result { is_exempt_author = true }, false)
    else (
      record result {
        is_exempt_author = true;
        is_compliant = true;
        exemption_forgeable = forgeable;
        annotations =
            if forgeable
            then result.annotations ++ text "trust:forgeable-exemption" ∷ []
            else result.annotations;
        reasons = text "exempt: configured author" ∷ [];
        merge_strategy = classify_merge_strategy commit false;
      },
      true,
    )

-- The statistics that rule 2 goes by: the stored ones without a fetcher, the fetched ones with one,
-- and `none` where the fetch fails.
unfoldable pub resolve_stats : Commit → StatsFetcher → Option Stats
resolve_stats commit none = some (record {
  additions = commit.additions;
  deletions = commit.deletions;
  files_changed = commit.files_changed;
})
resolve_stats commit (some fetch) = elim (fetch empty_commit commit.org commit.repo commit.sha) [
  | failed ↦ none
  | ok s ↦ some s
]

abbrev pub with_stats : Commit → Stats → Commit
with_stats commit s = record commit {
  additions = s.additions;
  deletions = s.deletions;
  files_changed = s.files_changed;
}

-- applyEmptyCommitFallback: it writes to the result and to the commit.
unfoldable pub apply_empty_commit_fallback :
    AuditResult → Commit → StatsFetcher → AuditResult × Commit × Bool
unfolding resolve_stats
apply_empty_commit_fallback result commit fetch_stats =
    if commit.additions /= 0 || commit.deletions /= 0
    then (result, commit, false)
    else elim (resolve_stats commit fetch_stats) [
      | none ↦ (result, commit, false)
      | some s ↦
          let commit' = with_stats commit s in
          if has_content s.additions s.deletions s.files_changed
          then (result, commit', false)
          else (
            record result {
              is_empty_commit = true;
              is_compliant = true;
              reasons = text "empty commit" ∷ [];
              merge_strategy = classify_merge_strategy commit' false;
            },
            commit',
            true,
          )
    ]

-- evaluateRevertCompliance; `none` is its (false, "").
unfoldable pub evaluate_revert_compliance : EnrichmentResult → Option Text
evaluate_revert_compliance enrichment =
    if not enrichment.is_clean_revert
    then none
    else if enrichment.reverted_sha /= []
    then some (text "clean revert of " ++ truncate_sha enrichment.reverted_sha)
    else some (text "clean revert")

-- What the loop over the pull requests ends with: one that passes, or the best that does not.
pub data Tournament : Type 0 where
  passed : PrVerdict → Tournament
  best_of : PrVerdict → Tournament

abbrev pub passes : PrVerdict → Bool
passes v = v.approval_on_final && v.owner_approval_ok && v.delivers

unfoldable pub pr_loop :
    Commit → EnrichmentResult → Rules → PrVerdict → List PullRequest → Tournament
pr_loop commit enrichment rules best [] = best_of best
pr_loop commit enrichment rules best (pr ∷ prs) =
    let v = evaluate_pr commit enrichment pr rules in
    let later = pr_loop commit enrichment rules (if better_verdict v best then v else best) prs in
    if passes v then passed v else later

-- EvaluateCommit where no pull request is associated: rules 2 and 8.
unfoldable pub evaluate_without_pr : AuditResult → Commit → EnrichmentResult → Rules → AuditResult
unfolding apply_empty_commit_fallback evaluate_revert_compliance finalize_revert_waiver
evaluate_without_pr result commit enrichment rules =
    let (result', commit', fired) = apply_empty_commit_fallback result commit rules.fetch_stats in
    if fired then result' else elim (evaluate_revert_compliance enrichment) [
      | some reason ↦ finalize_revert_waiver result' commit' enrichment no_verdict reason
      | none ↦ record result' {
        is_compliant = false;
        reasons = text "no associated pull request" ∷ [];
        merge_strategy = classify_merge_strategy commit' false;
      }
    ]

-- EvaluateCommit behind its loop: rules 2, 8 and 7.
unfoldable pub evaluate_best :
    AuditResult → Commit → EnrichmentResult → Rules → PrVerdict → AuditResult
unfolding apply_empty_commit_fallback evaluate_revert_compliance finalize_revert_waiver
evaluate_best result commit enrichment rules best =
    let (result', commit', fired) = apply_empty_commit_fallback result commit rules.fetch_stats in
    if fired then result' else elim (evaluate_revert_compliance enrichment) [
      | some reason ↦ finalize_revert_waiver result' commit' enrichment best reason
      | none ↦ finalize_non_compliant result' commit' enrichment best
    ]

unfoldable pub evaluate_with_prs : AuditResult → Commit → EnrichmentResult → Rules → AuditResult
unfolding pr_loop finalize_compliant_pr
evaluate_with_prs result commit enrichment rules =
    elim (pr_loop commit enrichment rules no_verdict enrichment.prs) [
      | passed v ↦ finalize_compliant_pr result commit enrichment v
      | best_of best ↦ evaluate_best result commit enrichment rules best
    ]

-- EvaluateCommit; the options are fields of `rules`.
unfoldable pub evaluate_commit : Commit → EnrichmentResult → Rules → AuditResult
unfolding init_audit_result apply_exempt_author_rule
evaluate_commit commit enrichment rules =
    let (result, waived) =
      apply_exempt_author_rule (init_audit_result commit enrichment) commit enrichment rules in
    if waived
    then result
    else if length enrichment.prs == 0
    then evaluate_without_pr (record result { has_pr = false }) commit enrichment rules
    else evaluate_with_prs (record result { has_pr = true; pr_count = length enrichment.prs })
        commit enrichment rules
