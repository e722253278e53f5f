-- ===== src/Github/Caching/Classify.antt =====
-- The classification of a commit as a revert and a merge: classifyRevertAndMerge and
-- verifyRevertDiff of caching.go. The look-up of a pull request and the files of a commit are
-- parameters; the count of the requests for files is left out.
use gh_audit.Prelude.{
  ℕ, true, ◌||◌, some, List, [], if◌then◌else◌, ◌==◌, nat_eq, text_eq, Outcome, ok, failed,
}
use gh_audit.Text.{Text, text}
use gh_audit.Model.{FileDiff, EnrichmentResult}
use gh_audit.Github.Merge.{classify_merge, merge_kind_verification, is_clean}
use gh_audit.Github.Revert.{
  parse_revert, resolve_reverted_sha, LookupPr, not_revert, auto_revert, manual_revert,
  revert_of_revert,
}
use gh_audit.Github.Diff.{is_clean_revert_diff}

abbrev pub message_only : EnrichmentResult → EnrichmentResult
message_only r = record r { revert_verification = text "message-only" }

module _ (get_commit_files : Text → Outcome (List FileDiff)) (lookup_pr : LookupPr) where
  -- verifyRevertDiff, on a commit and the one that it is said to revert.
  unfoldable pub verify_revert_diff : Text → Text → EnrichmentResult → EnrichmentResult
  verify_revert_diff sha reverted_sha result =
      if reverted_sha == [] then message_only result else elim (get_commit_files sha) [
        | failed ↦ message_only result
        | ok revert_files ↦ elim (get_commit_files reverted_sha) [
          | failed ↦ message_only result
          | ok reverted_files ↦
              if is_clean_revert_diff revert_files reverted_files
              then record result {
                is_clean_revert = true;
                revert_verification = text "diff-verified";
              }
              else record result { revert_verification = text "diff-mismatch" }
        ]
      ]

  -- The revert half of classifyRevertAndMerge.
  unfoldable pub classify_revert : Text → EnrichmentResult → EnrichmentResult
  unfolding verify_revert_diff
  classify_revert sha result =
      let (kind, named_sha) = parse_revert result.commit.message in
      elim kind [
        | not_revert ↦ record result { revert_verification = text "none" }
        | revert_of_revert ↦ record result { revert_verification = text "none" }
        | auto_revert ↦
            verify_revert_diff sha named_sha (record result { reverted_sha = named_sha })
        | manual_revert ↦
            elim (resolve_reverted_sha result.commit.message result.prs (some lookup_pr)) [
              | failed ↦ message_only result
              | ok found ↦ verify_revert_diff sha found (record result { reverted_sha = found })
            ]
      ]

  -- Its merge half.
  unfoldable pub classify_merge_of : ℕ → EnrichmentResult → EnrichmentResult
  classify_merge_of parent_count result =
      let kind =
        classify_merge parent_count result.commit.message result.commit.committer_login
          result.commit.is_verified in
      record result {
        merge_verification = merge_kind_verification kind;
        is_clean_merge = is_clean kind || result.is_clean_merge;
      }

  -- classifyRevertAndMerge
  unfoldable pub classify_revert_and_merge : Text → ℕ → EnrichmentResult → EnrichmentResult
  unfolding classify_revert classify_merge_of
  classify_revert_and_merge sha parent_count result =
      classify_merge_of parent_count (classify_revert sha result)
