-- ===== src/Tests/Samples.antt =====
-- A pull request that is squashed onto main, its branch, reviews and checks.
use gh_audit.Audit.Contributors.Kept.{IsLogin}
use gh_audit.Audit.Reviews.{commented, approved}
use gh_audit.Text.{text}
use gh_audit.Audit.Types.{RequiredCheck}
use gh_audit.Audit.Pr.{Rules}
use gh_audit.Model.{FileDiff, Commit, EnrichmentResult, ExemptAuthor, PullRequest, CheckRun, Review}
use gh_audit.Report.{DetailRow}
use gh_audit.Prelude.{refl, true, false, none, [], ◌∷◌, Memᴰ, nat_eq, text_eq}

abbrev pub some_commit : Commit
some_commit = record {
  org = text "acme";
  repo = text "web";
  sha = text "c0";
  author_login = text "ann";
  author_id = 11;
  author_email = [];
  committer_login = text "web-flow";
  committer_id = 0;
  co_authors = [];
  committed_at = 50;
  message = text "Add a page (#7)";
  is_verified = true;
  parent_count = 1;
  additions = 4;
  deletions = 0;
  files_changed = 1;
  stats_verified = true;
  parent_shas = [];
  branch = text "main";
  href = [];
}

-- Two commits of the branch: `a1`, and `a2` on top of it by a bot.
abbrev pub first_commit : Commit
first_commit = record some_commit { sha = text "a1"; parent_shas = text "a0" ∷ []; author_id = 11 }

abbrev pub bot_commit : Commit
bot_commit = record some_commit {
  sha = text "a2";
  parent_shas = text "a1" ∷ [];
  author_id = 99;
  author_login = text "sync[bot]";
}

abbrev pub some_pr : PullRequest
some_pr = record {
  org = text "acme";
  repo = text "web";
  number = 7;
  title = text "Add a page";
  merged = true;
  head_sha = text "a2";
  head_branch = text "page";
  base_branch = text "main";
  merge_commit_sha = text "c0";
  author_login = text "ann";
  author_id = 11;
  merged_by_login = text "ann";
  merged_by_id = 11;
  merged_at = 100;
  href = text "pr";
}

abbrev pub head_review : Review
head_review = record {
  org = text "acme";
  repo = text "web";
  pr_number = 7;
  review_id = 1;
  reviewer_login = text "bob";
  reviewer_id = 22;
  state = approved;
  commit_id = text "a2";
  submitted_at = 90;
  dismissed_at = 0;
  dismissed_state = [];
  href = [];
}

-- The approval of the commit below the head.
abbrev pub older_review : Review
older_review = record head_review { commit_id = text "a1"; submitted_at = 80 }

abbrev pub build_check : RequiredCheck
build_check = record { name = text "build"; conclusion = text "success" }

abbrev pub build_run : CheckRun
build_run = record {
  org = text "acme";
  repo = text "web";
  commit_sha = text "a2";
  check_run_id = 5;
  check_name = text "Build";
  status = text "completed";
  conclusion = text "success";
  completed_at = 95;
}

abbrev pub bot : ExemptAuthor
bot = record {
  login = text "sync[bot]";
  id = 99;
  kind = text "Bot";
  name = [];
  comment = [];
  verified_emails = [];
}

abbrev pub some_enrichment : EnrichmentResult
some_enrichment = record {
  commit = some_commit;
  prs = some_pr ∷ [];
  reviews = head_review ∷ [];
  check_runs = build_run ∷ [];
  pr_branch_commits = (7, first_commit ∷ bot_commit ∷ []) ∷ [];
  is_clean_revert = false;
  revert_verification = text "none";
  reverted_sha = [];
  is_clean_merge = false;
  merge_verification = text "none";
}

abbrev pub some_rules : Rules
some_rules = record {
  required_checks = build_check ∷ [];
  fetch_stats = none;
  exempt_authors = bot ∷ [];
  audited_branches = text "main" ∷ [];
  require_signing = false;
}

-- No review, so nothing passes.
abbrev pub bare_enrichment : EnrichmentResult
bare_enrichment = record some_enrichment { reviews = [] }

-- A second pull request of the same commit.
abbrev pub other_pr : PullRequest
other_pr = record some_pr { number = 8 }

abbrev pub comment_now : Review
comment_now = record head_review { state = commented; review_id = 2 }

pub logins : (c : Commit) → Memᴰ c (first_commit ∷ bot_commit ∷ []) → IsLogin c.author_login
logins c (Memᴰ.head e) = rw e refl
logins c (Memᴰ.tail (Memᴰ.head e)) = rw e refl
logins c (Memᴰ.tail (Memᴰ.tail m)) = elim m [ ]

-- A direct push by an account on the list, which no signature attests.
abbrev pub weak_row : DetailRow
weak_row = record {
  org = text "acme";
  repo = text "web";
  sha = text "c0";
  author_login = text "sync[bot]";
  committer_login = text "sync[bot]";
  committed_at = 50;
  message = text "Sync";
  is_bot = true;
  is_exempt_author = true;
  is_empty_commit = false;
  is_self_approved = false;
  has_stale_approval = false;
  has_post_merge_concern = false;
  is_clean_revert = false;
  revert_verification = text "none";
  reverted_sha = [];
  is_clean_merge = false;
  merge_verification = text "none";
  has_pr = false;
  pr_number = 0;
  pr_count = 0;
  pr_href = [];
  other_prs = [];
  author_id = 99;
  merged_by_id = 0;
  merged_by_login = [];
  has_final_approval = false;
  approver_logins = [];
  owner_approval_check = [];
  is_compliant = true;
  reasons = text "exempt: configured author";
  merge_strategy = text "direct-push";
  pr_commit_author_logins = [];
  commit_href = [];
  branch_name = text "main";
  annotations = text "trust:forgeable-exemption";
}

abbrev pub bare_row : DetailRow
bare_row = record weak_row { is_exempt_author = false; is_compliant = false; reasons = [] }

abbrev pub adding : FileDiff
adding = record {
  filename = text "page.txt";
  status = text "modified";
  additions = 1;
  deletions = 0;
  patch = 64 ∷ 64 ∷ 10 ∷ text "+line";
}

abbrev pub undoing : FileDiff
undoing = record adding { additions = 0; deletions = 1; patch = 64 ∷ 64 ∷ 10 ∷ text "-line" }
