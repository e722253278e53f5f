-- ===== src/Tests/Enrichment.antt =====
-- The theorems on the enrichment of commits at concrete inputs.
use gh_audit.Prelude.{
  ℕ, ◌≡◌, refl, true, none, some, List, [], ◌∷◌, if◌then◌else◌, ◌==◌, nat_eq, text_beq, text_eq,
  Outcome, ok, failed,
}
use gh_audit.Text.{Text, text}
use gh_audit.Model.{Commit, PullRequest, FileDiff, EnrichmentResult}
use gh_audit.Github.Revert.{LookupPr}
use gh_audit.Github.Caching.{Client, new_caching_enricher, find}
use gh_audit.Github.Caching.Fetch.{get_pr, get_reviews, get_pr_commits}
use gh_audit.Github.Caching.Links.{recover_pr_from_merge_message}
use gh_audit.Github.Caching.Classify.{classify_revert_and_merge}
use gh_audit.Github.Caching.Answers.{
  IsRight, IsCoherent, Answers, pr_answer, reviews_answer, commits_answer, lookups-Answers,
}
use gh_audit.Github.Caching.Verified.{recovered-IsMergeOf, Inverse}
use gh_audit.Github.Caching.Enrich.{enrich_one_commit, enrich_commits}
use gh_audit.Github.Caching.Enrich.Clean.{enrich_commits-Inverse}
use gh_audit.Tests.Samples.{some_commit, some_pr, head_review, adding, undoing, some_enrichment}

abbrev squash : Commit
squash = record some_commit { sha = text "abc"; message = text "Fix the parser (#7)" }

abbrev squashed : PullRequest
squashed = record some_pr { number = 7; merged = true; merge_commit_sha = text "abc" }

-- GitHub's reverse index has lost the pull request.
abbrev client : Client
client = record {
  get_commit_detail = λ sha. ok squash;
  list_commit_pull_requests = λ sha. ok [];
  get_pull_request = λ n. ok squashed;
  list_reviews = λ n. ok (head_review ∷ []);
  list_review_dismissals = λ n. failed;
  list_check_runs_for_ref = λ ref. ok [];
  list_status_contexts = λ ref. failed;
  list_pr_commits = λ n. ok (some_commit ∷ []);
  get_commit_files = λ sha. ok [];
}

empty-IsRight : {A : Type 0} (answer : ℕ → Outcome A) → IsRight answer []
empty-IsRight answer = record { right = λ n a h. unfold find in absurd cc }

abbrev fresh : IsCoherent client none new_caching_enricher
fresh = record { prs = empty-IsRight _; reviews = empty-IsRight _; commits = empty-IsRight _ }

lookups-Answers_example :
    Answers client none (pr_answer client none 7) (get_pr client none 7 new_caching_enricher)
    × Answers client none
        (reviews_answer client none 7)
        (get_reviews client none 7 new_caching_enricher)
    × Answers client none
        (commits_answer client none 7)
        (get_pr_commits client none 7 new_caching_enricher)
lookups-Answers_example = lookups-Answers client none 7 new_caching_enricher fresh

recovers :
    (recover_pr_from_merge_message client none (text "abc") new_caching_enricher).0 ≡ some squashed
unfolding recover_pr_from_merge_message gh_audit.Github.Merge.parse_pr_reference
    gh_audit.Text.leftmost gh_audit.Text.first_line gh_audit.Github.Merge.pr_token
    gh_audit.Text.strip_prefix gh_audit.Text.span_digits gh_audit.Text.positive_int
    gh_audit.Text.Decimal.atoi find text_beq
recovers = refl

recovered-IsMergeOf_example : (squashed.merged ≡ true) × (squashed.merge_commit_sha ≡ text "abc")
recovered-IsMergeOf_example =
    recovered-IsMergeOf client none (text "abc") new_caching_enricher squashed recovers

abbrev files : Text → Outcome (List FileDiff)
files sha = if sha == text "abc" then ok (undoing ∷ []) else ok (adding ∷ [])

-- A commit whose message claims a revert, and whose diff is one.
abbrev revert : Commit
revert = record some_commit {
  sha = text "abc";
  message = text "Revert \"Add\"\n\nThis reverts commit 0123456789abcdef0123456789abcdef01234567.";
}

abbrev reverting : Client
reverting = record client {
  get_commit_detail = λ sha. ok revert;
  list_commit_pull_requests = λ sha. ok (squashed ∷ []);
  get_commit_files = files;
}

abbrev or_sample : Outcome EnrichmentResult → EnrichmentResult
or_sample failed = some_enrichment
or_sample (ok r) = r

abbrev enriched : EnrichmentResult
enriched = or_sample (enrich_one_commit reverting none (text "abc") new_caching_enricher).0

is_reverted : enriched.is_clean_revert ≡ true
unfolding enrich_one_commit gh_audit.Github.Caching.Fetch.get_commit
    gh_audit.Github.Caching.Links.get_prs_for_commit get_reviews text_beq
    gh_audit.Github.Caching.Fetch.get_check_runs get_pr_commits classify_revert_and_merge
    gh_audit.Github.Revert.parse_revert gh_audit.Github.Revert.reverts_a_revert
    gh_audit.Text.has_prefix gh_audit.Github.Revert.auto_revert_sha gh_audit.Text.strip_prefix
    gh_audit.Github.Revert.resolve_reverted_sha gh_audit.Github.Revert.trailer_sha
    gh_audit.Text.leftmost gh_audit.Github.Revert.hex_run gh_audit.Github.Diff.is_clean_revert_diff
    gh_audit.Github.Caching.Classify.classify_merge_of
    gh_audit.Github.Caching.Classify.classify_revert
    gh_audit.Github.Caching.Classify.verify_revert_diff gh_audit.Github.Caching.Enrich.assemble_loop
    gh_audit.Github.Caching.Enrich.assemble_step gh_audit.Github.Caching.Enrich.assembled
    gh_audit.Github.Caching.Enrich.classified gh_audit.Github.Caching.Enrich.enrich_pr
    gh_audit.Github.Caching.Enrich.enrich_prs gh_audit.Github.Caching.Enrich.put_branch
    gh_audit.Github.Caching.Fetch.fetch_check_runs gh_audit.Github.Caching.Fetch.fetch_reviews
    get_pr gh_audit.Github.Caching.Links.fetch_prs gh_audit.Github.Caching.Links.indexed
    recover_pr_from_merge_message gh_audit.Github.Caching.all_check_runs_completed find
    gh_audit.Github.Caching.index_pr gh_audit.Github.Caching.is_pr_merged
    gh_audit.Github.Caching.missing_required_check gh_audit.Github.Caching.resolve_dismissals
    gh_audit.Github.Diff.content_line gh_audit.Github.Diff.diff_line gh_audit.Github.Diff.diff_lines
    gh_audit.Github.Diff.extract_diff_lines gh_audit.Github.Diff.file_inverse
    gh_audit.Github.Diff.get_patch gh_audit.Github.Diff.insert_sorted
    gh_audit.Github.Diff.inverse_patches gh_audit.Github.Diff.multiset_equal
    gh_audit.Github.Diff.patch_map gh_audit.Github.Diff.put_patch gh_audit.Github.Diff.same_texts
    gh_audit.Github.Diff.sort_texts gh_audit.Github.Diff.split_lines gh_audit.Github.Diff.text_leb
    gh_audit.Github.Merge.classify_merge gh_audit.Github.Merge.closes
    gh_audit.Github.Merge.merge_kind_verification gh_audit.Github.Merge.parse_pr_reference
    gh_audit.Github.Merge.pr_token gh_audit.Github.Revert.merge_sha_of
    gh_audit.Github.Revert.parse_revert_branch_name gh_audit.Github.Revert.reverted_by_branch
    gh_audit.Github.Revert.trailer_at gh_audit.Text.Decimal.atoi gh_audit.Text.Decimal.atoi_from
    gh_audit.Text.equal_fold gh_audit.Text.first_line gh_audit.Text.positive_int
    gh_audit.Text.span_digits gh_audit.Text.split_at gh_audit.Text.to_lower
is_reverted = refl

batch_enriched :
    (enrich_commits reverting none (text "abc" ∷ []) new_caching_enricher).0 ≡ ok (enriched ∷ [])
unfolding enrich_commits gh_audit.Github.Caching.Fetch.get_commit
    gh_audit.Github.Caching.Links.get_prs_for_commit get_reviews text_beq
    gh_audit.Github.Caching.Fetch.get_check_runs get_pr_commits
batch_enriched = refl

enrich_commits-Inverse_example : Inverse files (text "abc") enriched.reverted_sha
enrich_commits-Inverse_example =
    enrich_commits-Inverse reverting none (text "abc" ∷ []) new_caching_enricher (enriched ∷ []) 0
      (text "abc") enriched batch_enriched refl refl is_reverted
