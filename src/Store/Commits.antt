-- ===== src/Store/Commits.antt =====
-- internal/db/commits.go: commits, their branches and their co-authors.
pub mod Kept
pub mod RoundTrip
use gh_audit.Prelude.{
  ℕ, Bool, not, ◌&&◌, ◌||◌, Option, none, some, List, [], ◌∷◌, ◌++◌, map, leb, if◌then◌else◌, ◌==◌,
  nat_eq, text_eq, any, select,
}
use gh_audit.Text.{Text, text, join, split_at}
use gh_audit.Model.{Time, Commit, CoAuthor, is_zero, before}
use gh_audit.Audit.Finish.{is_some}
use gh_audit.Github.Diff.{text_leb}
use gh_audit.Store.Table.{
  columns_eq, ◌&◌, row_at, as_staged, bulk_upsert, bulk_insert_if_absent, order_by,
}
use gh_audit.Store.Rows.{
  audit_key, Store, CommitRow, CoAuthorRow, CommitBranchRow, NameKey, commit_key, co_author_key,
  branch_key,
}

-- commitRow, at the time `now`
unfoldable pub commit_row : Time → Commit → CommitRow
commit_row now c = record {
  org = c.org;
  repo = c.repo;
  sha = c.sha;
  author_login = c.author_login;
  author_id = c.author_id;
  author_email = c.author_email;
  committer_login = c.committer_login;
  committer_id = c.committer_id;
  committed_at = c.committed_at;
  message = c.message;
  parent_count = c.parent_count;
  parent_shas = join (text ",") c.parent_shas;
  additions = c.additions;
  deletions = c.deletions;
  files_changed = if c.stats_verified then some c.files_changed else none;
  detail_fetched_at = if c.stats_verified then some now else none;
  is_verified = c.is_verified;
  href = c.href;
}

abbrev pub or_zero : Option ℕ → ℕ
or_zero none = 0
or_zero (some n) = n

-- scanCommits, for one row; its counts stand in INTEGER and its dates in TIMESTAMP columns, which are
-- taken to hold what is written to them, as they do within the bounds that RoundTrip names
unfoldable pub scan_commit : CommitRow → Commit
scan_commit r = record {
  org = r.org;
  repo = r.repo;
  sha = r.sha;
  author_login = r.author_login;
  author_id = r.author_id;
  author_email = r.author_email;
  committer_login = r.committer_login;
  committer_id = r.committer_id;
  co_authors = [];
  committed_at = r.committed_at;
  message = r.message;
  is_verified = r.is_verified;
  parent_count = r.parent_count;
  additions = r.additions;
  deletions = r.deletions;
  files_changed = or_zero r.files_changed;
  stats_verified = is_some r.detail_fetched_at;
  parent_shas = if r.parent_shas == [] then [] else split_at 44 r.parent_shas;
  branch = [];
  href = r.href;
}

abbrev pub with_detail : CommitRow → Option CommitRow → CommitRow
with_detail s none = s
with_detail s (some c) =
    if not (is_some s.detail_fetched_at) && is_some c.detail_fetched_at
    then record s {
      additions = c.additions;
      deletions = c.deletions;
      files_changed = c.files_changed;
      detail_fetched_at = c.detail_fetched_at;
    }
    else s

-- preserveCommitDetailSQL, for one staged row
unfoldable pub preserve_commit_detail : List CommitRow → CommitRow → CommitRow
preserve_commit_detail commits s = with_detail s (row_at commit_key (commit_key s) commits)

-- UpsertCommits
unfoldable pub upsert_commits : Time → List Commit → Store → Store
upsert_commits now commits s = record s {
  commits = bulk_upsert commit_key preserve_commit_detail (map (commit_row now) commits) s.commits;
}

-- InsertCommitsIfAbsent
unfoldable pub insert_commits_if_absent : Time → List Commit → Store → Store
insert_commits_if_absent now commits s = record s {
  commits = bulk_insert_if_absent commit_key (map (commit_row now) commits) s.commits;
}

-- UpsertCommitBranches
unfoldable pub upsert_commit_branches : Text → Text → List Text → Text → Store → Store
upsert_commit_branches org repo shas branch s =
    let row : Text → CommitBranchRow =
      λ sha. record { org = org; repo = repo; sha = sha; branch = branch } in
    record s { commit_branches = bulk_upsert branch_key as_staged (map row shas) s.commit_branches }

-- UPDATE … WHERE key = k
unfoldable pub update_where : (CommitRow → CommitRow) → NameKey → List CommitRow → List CommitRow
update_where f k rows = map (λ r. if commit_key r == k then f r else r) rows

-- UpdateCommitStats
unfoldable pub update_commit_stats : Text → Text → Text → ℕ → ℕ → Store → Store
unfolding update_where
update_commit_stats org repo sha additions deletions s = record s {
  commits =
      update_where (λ r. record r { additions = additions; deletions = deletions })
        (org & repo & sha) s.commits;
}

-- MarkCommitDetail, at the time `now`
unfoldable pub mark_commit_detail : Time → Text → Text → Text → ℕ → ℕ → ℕ → Store → Store
unfolding update_where
mark_commit_detail now org repo sha additions deletions files_changed s = record s {
  commits =
      update_where
        (λ r. record r {
          additions = additions;
          deletions = deletions;
          files_changed = some files_changed;
          detail_fetched_at = some now;
        })
        (org & repo & sha) s.commits;
}

unfoldable pub co_author_rows : List Commit → List CoAuthorRow
co_author_rows [] = []
co_author_rows (c ∷ commits) =
    map
      (λ (a : CoAuthor). record {
        org = c.org;
        repo = c.repo;
        sha = c.sha;
        name = a.name;
        email = a.email;
        login = a.login;
      })
      c.co_authors
    ++ co_author_rows commits

-- UpsertCoAuthors
unfoldable pub upsert_co_authors : List Commit → Store → Store
upsert_co_authors commits s = record s {
  co_authors = bulk_upsert co_author_key as_staged (co_author_rows commits) s.co_authors;
}

-- ORDER BY COALESCE(name, ''), email
abbrev pub co_author_order : CoAuthorRow → CoAuthorRow → Bool
co_author_order a b = if a.name == b.name then text_leb a.email b.email else text_leb a.name b.name

abbrev pub scan_co_author : CoAuthorRow → CoAuthor
scan_co_author r = record { login = r.login; email = r.email; name = r.name }

-- GetCoAuthors
unfoldable pub get_co_authors : Text → Text → Text → Store → List CoAuthor
get_co_authors org repo sha s = map scan_co_author (
    order_by co_author_order
      (select (λ (r : CoAuthorRow). r.org == org && r.repo == repo && r.sha == sha) s.co_authors))

-- loadCoAuthorsForCommits, for the commits of one repository, as the callers give them. Whether the
-- query names the commits or reads the whole repository is left out: what it reads beyond the
-- commits is looked up by none of them.
unfoldable pub load_co_authors_for_commits : Text → Text → Store → List Commit → List Commit
load_co_authors_for_commits org repo s =
    map (λ (c : Commit). record c { co_authors = get_co_authors org repo c.sha s })

abbrev pub of_repo : Text → Text → CommitRow → Bool
of_repo org repo c = c.org == org && c.repo == repo

-- a.sha IS NULL after the LEFT JOIN of audit_results
abbrev pub is_unaudited : Store → CommitRow → Bool
is_unaudited s c = not (any (λ a. audit_key a == commit_key c) s.audit_results)

abbrev pub is_within : Time → Time → CommitRow → Bool
is_within since until c =
    (is_zero since || not (before c.committed_at since))
    && (is_zero until || before c.committed_at until)

abbrev pub by_date : CommitRow → CommitRow → Bool
by_date a b = leb a.committed_at b.committed_at

-- GetUnauditedCommits
unfoldable pub get_unaudited_commits : Text → Text → Time → Time → Store → List Commit
get_unaudited_commits org repo since until s = load_co_authors_for_commits org repo s (
    map scan_commit (
      order_by by_date (
        select (λ c. of_repo org repo c && is_unaudited s c && is_within since until c) s.commits)))

-- GetAllCommits
unfoldable pub get_all_commits : Text → Text → Store → List Commit
get_all_commits org repo s =
    load_co_authors_for_commits org repo s
      (map scan_commit (order_by by_date (select (of_repo org repo) s.commits)))

-- GetCommitsBySHA
unfoldable pub get_commits_by_sha : Text → Text → List Text → Store → List Commit
get_commits_by_sha org repo shas s =
    load_co_authors_for_commits org repo s (
      map scan_commit
        (select (λ c. of_repo org repo c && any (λ sha. sha == c.sha) shas) s.commits))
