-- ===== src/Github/Caching/Verified.antt =====
-- The two links that a message only hints at: a recovered pull request and a clean revert.
use gh_audit.Prelude.{
  ℕ, ◌≡◌, inl, inr, true, false, not, ◌||◌, Option, none, some, List, [], arith, if◌then◌else◌,
  Bool-cases, ◌==◌, nat_eq, text_beq_iff, text_eq, ◌/=◌, Outcome, ok, failed,
}
use gh_audit.Prelude.{on_if, on_option, on_outcome, Outcome-cases}
use gh_audit.Text.{Text, text}
use gh_audit.Model.{PullRequest, FileDiff, EnrichmentResult}
use gh_audit.Github.Merge.{parse_pr_reference}
use gh_audit.Github.Revert.{
  resolve_reverted_sha, RevertKind, parse_revert, LookupPr, auto_revert, manual_revert, not_revert,
  revert_of_revert,
}
use gh_audit.Github.Diff.{is_clean_revert_diff}
use gh_audit.Github.Diff.Patches.{last_patch}
use gh_audit.Github.Diff.Inverse.{Undone, is_clean_revert_diff-Undone}
use gh_audit.Github.Caching.{Client, EnrichmentCache, CachingEnricher}
use gh_audit.Github.Caching.Fetch.{get_commit, get_pr}
use gh_audit.Github.Caching.Links.{recover_pr_from_merge_message}
use gh_audit.Github.Caching.Classify.{
  message_only, classify_revert_and_merge, classify_merge_of, classify_revert, verify_revert_diff,
}

-- What a recovery gives is a merge of the commit.
record OnlyMerges (sha : Text) (x : Option PullRequest × CachingEnricher) : Type 0 where
  pub only : (pr : PullRequest) → x.0 ≡ some pr → (pr.merged ≡ true) × (pr.merge_commit_sha ≡ sha)

gives_none : (sha : Text) (ce : CachingEnricher) → OnlyMerges sha (none, ce)
gives_none sha ce = record { only = λ pr h. cc }

gives_merge :
    (sha : Text) (ce : CachingEnricher) (pr : PullRequest)
    → OnlyMerges sha (if not pr.merged || pr.merge_commit_sha /= sha then none else some pr, ce)
gives_merge sha ce pr = record {
  only = λ q h. ground (arith, h, text_beq_iff pr.merge_commit_sha sha);
}

recover-OnlyMerges :
    (client : Client) (db : Option EnrichmentCache) (sha : Text) (ce : CachingEnricher)
    → OnlyMerges sha (recover_pr_from_merge_message client db sha ce)
unfolding recover_pr_from_merge_message
recover-OnlyMerges client db sha ce =
    on_outcome (OnlyMerges sha) (get_commit client db sha ce).0 (gives_none sha _) (λ c.
      on_option (OnlyMerges sha) (parse_pr_reference c.message) (gives_none sha _) (λ number.
        on_outcome (OnlyMerges sha) (get_pr client db number (get_commit client db sha ce).1).0
          (gives_none sha _) (λ pr. gives_merge sha _ pr)))

-- A pull request that is recovered from a message was merged, as this very commit.
pub recovered-IsMergeOf :
    (client : Client) (db : Option EnrichmentCache) (sha : Text) (ce : CachingEnricher)
    (pr : PullRequest)
    → (recover_pr_from_merge_message client db sha ce).0 ≡ some pr
    → (pr.merged ≡ true) × (pr.merge_commit_sha ≡ sha)
recovered-IsMergeOf client db sha ce pr h = (recover-OnlyMerges client db sha ce).only pr h

-- Two commits whose diffs undo each other, file by file.
pub record Inverse (files : Text → Outcome (List FileDiff)) (sha reverted : Text) : Type 0 where
  pub own : List FileDiff
  pub other : List FileDiff
  pub own_files : files sha ≡ ok own
  pub other_files : files reverted ≡ ok other
  pub undone : (name : Text) → Undone (last_patch name none own) (last_patch name none other)

-- What is marked as a clean revert is one.
pub record CleanOnly (files : Text → Outcome (List FileDiff)) (sha : Text) (r : EnrichmentResult)
    : Type 0 where
  pub clean : r.is_clean_revert ≡ true → Inverse files sha r.reverted_sha

unmarked :
    (files : Text → Outcome (List FileDiff)) (sha : Text) (r : EnrichmentResult)
    → r.is_clean_revert ≡ false
    → CleanOnly files sha r
unmarked files sha r fresh = record { clean = λ h. absurd cc }

verify_revert_diff-CleanOnly :
    (files : Text → Outcome (List FileDiff)) (lookup : LookupPr) (sha : Text) (r : EnrichmentResult)
    → r.is_clean_revert ≡ false
    → CleanOnly files sha (verify_revert_diff files lookup sha r.reverted_sha r)
unfolding verify_revert_diff
verify_revert_diff-CleanOnly files lookup sha r fresh =
    on_if (CleanOnly files sha) (r.reverted_sha == []) (unmarked files sha _ fresh)
      (elim (Outcome-cases (files sha)) [
        | inl e ↦ rw e (unmarked files sha _ fresh)
        | inr (own, e) ↦ elim (Outcome-cases (files r.reverted_sha)) [
          | inl f ↦ rw (e, f) (unmarked files sha _ fresh)
          | inr (other, f) ↦ elim (Bool-cases (is_clean_revert_diff own other)) [
            | inl g ↦
                rw (e, f, g)
                  (record {
                    clean = λ h. record {
                      own = own;
                      other = other;
                      own_files = e;
                      other_files = f;
                      undone = is_clean_revert_diff-Undone own other g;
                    };
                  })
            | inr g ↦ rw (e, f, g) (unmarked files sha _ fresh)
          ]
        ]
      ])

classify_revert-CleanOnly :
    (files : Text → Outcome (List FileDiff)) (lookup : LookupPr) (sha : Text) (r : EnrichmentResult)
    → r.is_clean_revert ≡ false
    → CleanOnly files sha (classify_revert files lookup sha r)
unfolding classify_revert
classify_revert-CleanOnly files lookup sha r fresh =
    by_kind (parse_revert r.commit.message).0 (parse_revert r.commit.message).1
  where
    by_kind :
        (kind : RevertKind) (named_sha : Text)
        → CleanOnly files sha (elim kind [
          | not_revert ↦ record r { revert_verification = text "none" }
          | revert_of_revert ↦ record r { revert_verification = text "none" }
          | auto_revert ↦
              verify_revert_diff files lookup sha named_sha (record r { reverted_sha = named_sha })
          | manual_revert ↦ elim (resolve_reverted_sha r.commit.message r.prs (some lookup)) [
            | failed ↦ message_only r
            | ok found ↦
                verify_revert_diff files lookup sha found (record r { reverted_sha = found })
          ]
        ])
    by_kind not_revert named_sha = unmarked files sha _ fresh
    by_kind revert_of_revert named_sha = unmarked files sha _ fresh
    by_kind auto_revert named_sha =
        verify_revert_diff-CleanOnly files lookup sha (record r { reverted_sha = named_sha }) fresh
    by_kind manual_revert named_sha =
        on_outcome (CleanOnly files sha) (resolve_reverted_sha r.commit.message r.prs (some lookup))
          (unmarked files sha (message_only r) fresh)
          (λ found.
            verify_revert_diff-CleanOnly files lookup sha (record r { reverted_sha = found }) fresh)

-- Where no revert was clean before, enrichment marks a clean one only where the fetched diffs of
-- the commit and of the one that it names undo each other, whatever its message claims.
pub classify_revert_and_merge-Inverse :
    (files : Text → Outcome (List FileDiff)) (lookup : LookupPr) (sha : Text) (n : ℕ)
    (result : EnrichmentResult)
    → result.is_clean_revert ≡ false
    → (classify_revert_and_merge files lookup sha n result).is_clean_revert ≡ true
    → Inverse files sha (classify_revert_and_merge files lookup sha n result).reverted_sha
unfolding classify_revert_and_merge classify_merge_of
classify_revert_and_merge-Inverse files lookup sha n result fresh h =
    (classify_revert-CleanOnly files lookup sha result fresh).clean h
