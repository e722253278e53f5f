-- ===== src/Github/Caching.antt =====
-- internal/github/caching.go: the enrichment of commits, in front of the client and of the stored
-- rows. The client and the database are parameters; an answer of theirs depends on its arguments
-- alone during a run. The mutex is left out: one call runs at a time.
pub mod Fetch
pub mod Links
pub mod Classify
pub mod Enrich
pub mod Answers
pub mod Verified
use gh_audit.Prelude.{
  ℕ, ◌+◌, Bool, true, false, not, ◌||◌, Option, none, some, List, [], ◌∷◌, ◌++◌, map, arith,
  if◌then◌else◌, Equality, ◌==◌, nat_eq, text_eq, any, all, Outcome, ok, failed,
}
use gh_audit.Text.{Text, text, to_lower}
use gh_audit.Model.{Commit, PullRequest, Review, CheckRun, FileDiff, Time}

pub record ReviewDismissal : Type 0 where
  pub at : Time
  pub original_state : Text

-- Client, as the enricher calls it for one repository.
pub record Client : Type 0 where
  pub get_commit_detail : Text → Outcome Commit
  pub list_commit_pull_requests : Text → Outcome (List PullRequest)
  pub get_pull_request : ℕ → Outcome PullRequest
  pub list_reviews : ℕ → Outcome (List Review)
  pub list_review_dismissals : ℕ → Outcome (List (ℕ × ReviewDismissal))
  pub list_check_runs_for_ref : Text → Outcome (List CheckRun)
  pub list_status_contexts : Text → Outcome (List CheckRun)
  pub list_pr_commits : ℕ → Outcome (List Commit)
  pub get_commit_files : Text → Outcome (List FileDiff)

-- EnrichmentCache, for one repository.
pub record EnrichmentCache : Type 0 where
  pub db_pull_request : ℕ → Outcome (Option PullRequest)
  pub db_prs_for_commit : Text → Outcome (List PullRequest)
  pub db_reviews_for_pr : ℕ → Outcome (List Review)
  pub db_check_runs_for_commit : Text → Outcome (List CheckRun)
  pub db_commits_for_pr : ℕ → Outcome (List Commit)
  pub db_commit_by_sha : Text → Outcome (List Commit)

-- The counters of APIStats that the look-ups move; the durations are left out.
pub record ApiStats : Type 0 where
  pub commit_detail_eager : ℕ
  pub commit_prs : ℕ
  pub pr_detail : ℕ
  pub reviews : ℕ
  pub check_runs : ℕ
  pub pr_commits : ℕ
  pub cache_hits : ℕ
  pub db_hits : ℕ
  pub pr_recovered : ℕ

-- A map of the enricher, of one repository, so that the rest of a key is enough.
abbrev pub Cache {ℓ} : Type 0 → Type ℓ → Type ℓ
Cache K A = List (K × A)

unfoldable pub find {ℓ} : {K : Type 0} {A : Type ℓ} ⦃test : Equality K⦄ → K → Cache K A → Option A
find k [] = none
find k ((j, a) ∷ m) = let rest = find k m in if j == k then some a else rest

-- CachingEnricher
pub record CachingEnricher : Type 0 where
  pub stats : ApiStats
  pub required_check_names : List Text
  pub pr_cache : Cache ℕ PullRequest
  pub review_cache : Cache ℕ (List Review)
  pub check_run_cache : Cache Text (List CheckRun)
  pub pr_commit_cache : Cache ℕ (List Commit)
  pub commit_pr_cache : Cache Text (List PullRequest)
  pub merge_commit_idx : Cache Text (List ℕ)

-- NewCachingEnricher
abbrev pub new_caching_enricher : CachingEnricher
new_caching_enricher = record {
  stats = record {
    commit_detail_eager = 0;
    commit_prs = 0;
    pr_detail = 0;
    reviews = 0;
    check_runs = 0;
    pr_commits = 0;
    cache_hits = 0;
    db_hits = 0;
    pr_recovered = 0;
  };
  required_check_names = [];
  pr_cache = [];
  review_cache = [];
  check_run_cache = [];
  pr_commit_cache = [];
  commit_pr_cache = [];
  merge_commit_idx = [];
}

abbrev pub or_no_numbers : Option (List ℕ) → List ℕ
or_no_numbers none = []
or_no_numbers (some ns) = ns

-- indexPR
unfoldable pub index_pr : PullRequest → CachingEnricher → CachingEnricher
index_pr pr ce =
    let known = or_no_numbers (find pr.merge_commit_sha ce.merge_commit_idx) in
    if pr.merge_commit_sha == [] || any (λ n. n == pr.number) known then ce else record ce {
      merge_commit_idx = (pr.merge_commit_sha, known ++ pr.number ∷ []) ∷ ce.merge_commit_idx;
    }

abbrev pub on_stats : (ApiStats → ApiStats) → CachingEnricher → CachingEnricher
on_stats f ce = record ce { stats = f ce.stats }

abbrev pub cache_hit : CachingEnricher → CachingEnricher
cache_hit = on_stats (λ s. record s { cache_hits = s.cache_hits + 1 })

abbrev pub db_hit : CachingEnricher → CachingEnricher
db_hit = on_stats (λ s. record s { db_hits = s.db_hits + 1 })

-- SetRequiredCheckNames
abbrev pub set_required_check_names : List Text → CachingEnricher → CachingEnricher
set_required_check_names names ce = record ce { required_check_names = map to_lower names }

-- missingRequiredCheck
unfoldable pub missing_required_check : List Text → List CheckRun → Bool
missing_required_check names runs =
    any (λ name. not (any (λ (r : CheckRun). to_lower r.check_name == name) runs)) names

-- allCheckRunsCompleted
unfoldable pub all_check_runs_completed : List CheckRun → Bool
all_check_runs_completed runs = all (λ (r : CheckRun). r.status == text "completed") runs

-- The rows of the store, where there is one, as a call that succeeds gives them.
abbrev pub stored {ℓ} :
    {A : Type ℓ} → Option EnrichmentCache → (EnrichmentCache → Outcome A) → Option A
stored none f = none
stored (some db) f = elim (f db) [ failed ↦ none | ok a ↦ some a ]

abbrev pub merged_only : Option PullRequest → Option PullRequest
merged_only none = none
merged_only (some pr) = if pr.merged then some pr else none

-- A pull request that the store has as merged.
abbrev pub frozen_pr : Option EnrichmentCache → ℕ → Option PullRequest
frozen_pr db number = elim (stored db (λ d. d.db_pull_request number)) [
  | none ↦ none
  | some found ↦ merged_only found
]

-- isPRMerged
unfoldable pub is_pr_merged : Option EnrichmentCache → ℕ → Bool
is_pr_merged db number = elim (frozen_pr db number) [ none ↦ false | some pr ↦ true ]

-- The rows of a pull request that are final: those of a merged one.
abbrev pub if_merged {ℓ} : {A : Type ℓ} → Bool → Option A → Option A
if_merged merged none = none
if_merged merged (some rows) = if merged then some rows else none

-- The dismissals written into the reviews, in the loop of getReviews.
unfoldable pub resolve_dismissals : List (ℕ × ReviewDismissal) → List Review → List Review
resolve_dismissals dismissals [] = []
resolve_dismissals dismissals (r ∷ rs) =
    let rest = resolve_dismissals dismissals rs in
    elim (find r.review_id dismissals) [
      | none ↦ r ∷ rest
      | some d ↦ record r { dismissed_at = d.at; dismissed_state = d.original_state } ∷ rest
    ]

abbrev pub has_dismissed : List Review → Bool
has_dismissed rs = any (λ (r : Review). r.state == text "DISMISSED") rs
