-- ===== src/Tests/Store.antt =====
-- The theorems on the store at concrete inputs.
use gh_audit.Prelude.{
  ◌-◌, ◌%◌, ◌^◌, arith, ltb, ◌≡◌, refl, ◌⊎◌, true, false, some, [], ◌∷◌, map, if◌then◌else◌, nat_eq,
  text_beq, text_eq,
}
use gh_audit.Text.{text}
use gh_audit.Model.{Commit}
use gh_audit.Audit.Finish.{is_some}
use gh_audit.Store.Table.{columns_eq, ◌&◌, row_at, or_row, as_staged, bulk_upsert}
use gh_audit.Store.Table.Merge.{last_at, row_at-bulk_upsert}
use gh_audit.Store.Rows.{Store, CommitRow, commit_key, review_key}
use gh_audit.Store.Commits.{commit_row, scan_commit, upsert_commits}
use gh_audit.Store.Commits.Kept.{SameDetail, IsVerifiedRow, upsert_commits-SameDetail}
use gh_audit.Store.Commits.RoundTrip.{AllFree, Columns, IsExact, read_back, scan_commit-commit_row}
use gh_audit.Tests.Samples.{some_commit, first_commit, head_review, older_review}

abbrev detailed_store : Store
detailed_store = record {
  sync_cursors = [];
  commits = commit_row 5 some_commit ∷ [];
  co_authors = [];
  commit_prs = [];
  pull_requests = [];
  reviews = [];
  check_runs = [];
  audit_runs = [];
  commit_branches = [];
  history_rewrites = [];
  org_repos = [];
  audit_results = [];
}

-- The commit as a list gives it: without its statistics.
abbrev listed : Commit
listed = record some_commit { additions = 0; files_changed = 0; stats_verified = false }

stored :
    row_at commit_key (text "acme" & text "web" & text "c0") detailed_store.commits
    ≡ some (commit_row 5 some_commit)
unfolding row_at commit_row text_beq
stored = refl

verified : is_some (commit_row 5 some_commit).detail_fetched_at ≡ true
unfolding commit_row
verified = refl

upsert_commits-SameDetail_example :
    (new : CommitRow) × (row_at commit_key
        (text "acme" & text "web" & text "c0")
        (upsert_commits 9 (listed ∷ []) detailed_store).commits
      ≡ some new)
    × (SameDetail (commit_row 5 some_commit) new ⊎ IsVerifiedRow 9 (listed ∷ []) new)
upsert_commits-SameDetail_example =
    upsert_commits-SameDetail 9 (listed ∷ []) detailed_store (text "acme" & text "web" & text "c0")
      (commit_row 5 some_commit) stored verified

-- The statistics are there after the list.
still_there :
    row_at commit_key
      (text "acme" & text "web" & text "c0")
      (upsert_commits 9 (listed ∷ []) detailed_store).commits
    ≡ some (commit_row 5 some_commit)
unfolding row_at upsert_commits commit_row text_beq bulk_upsert
    gh_audit.Store.Commits.preserve_commit_detail
still_there = refl

parents_free : AllFree 44 (text "a0" ∷ [])
parents_free = ((refl, λ e. cc e), tt)

-- Columns that keep what fits, and cut a time to microseconds.
abbrev database : Columns
database = record { integer = λ n. if ltb n (2 ^ 31) then n else 0; timestamp = λ t. t - t % 1000 }

database-IsExact : IsExact database
database-IsExact = record {
  integer_exact = λ n h. ground arith;
  timestamp_exact = λ t h k. omega arith;
}

abbrev dated_commit : Commit
dated_commit = record first_commit { committed_at = 50000 }

scan_commit-commit_row_example :
    scan_commit (read_back database (commit_row 9 dated_commit)) ≡ record dated_commit {
      co_authors = [];
      branch = [];
      files_changed = if dated_commit.stats_verified then dated_commit.files_changed else 0;
    }
scan_commit-commit_row_example =
    scan_commit-commit_row database database-IsExact 9 dated_commit parents_free (omega arith)

row_at-bulk_upsert_example :
    row_at review_key
      (text "acme" & text "web" & 7 & 1)
      (bulk_upsert review_key as_staged (head_review ∷ []) (older_review ∷ []))
    ≡ or_row
        (last_at review_key
          (text "acme" & text "web" & 7 & 1)
          (map (as_staged (older_review ∷ [])) (head_review ∷ [])))
        (row_at review_key (text "acme" & text "web" & 7 & 1) (older_review ∷ []))
row_at-bulk_upsert_example =
    row_at-bulk_upsert review_key as_staged (text "acme" & text "web" & 7 & 1) (head_review ∷ [])
      (older_review ∷ [])
