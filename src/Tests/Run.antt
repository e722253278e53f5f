-- ===== src/Tests/Run.antt =====
-- The theorems on a whole run at a concrete input.
use gh_audit.Prelude.{
  arith, ap, ℕ, ◌+◌, ◌≡◌, refl, true, none, some, [], ◌∷◌, Memᴰ, text_eq, nat_eq,
}
use gh_audit.Text.{Text, text}
use gh_audit.Store.Table.{columns_eq, ◌&◌}
use gh_audit.Store.Table.Present.{IsThere}
use gh_audit.Store.Rows.{RepoInfo, audit_key}
use gh_audit.Pipeline.Sync.Total.{Ends}
use gh_audit.Pipeline.Fetch.{OrgConfig, SyncConfig}
use gh_audit.Pipeline.Branch.{sync_repo_branch}
use gh_audit.Pipeline.Branch.Total.{sync_repo_branch-Ends}
use gh_audit.Pipeline.Run.{
  RepoWithOrg, all_repos, org_repos, resolve_explicit_repos, resolve_each, sync_branches, sync_repo,
  sync_repos, stamp, run_repos, run,
}
use gh_audit.Pipeline.Run.Answered.{AnsweringRepos, all_repos-Ends}
use gh_audit.Pipeline.Run.Total.{all_alike, Succeeds, run-Ends}
use gh_audit.Pipeline.Run.Verdicts.{run-IsThere}
use gh_audit.Tests.Pipeline.{
  config, repo, source, enricher, answering, backlog_store, first-IsThere,
}

abbrev acme_web : OrgConfig
acme_web = record {
  name = text "acme";
  repos = text "web" ∷ [];
  exclude_repos = [];
  branches = text "main" ∷ [];
}

abbrev one_repo : SyncConfig
one_repo = record config { orgs = acme_web ∷ [] }

abbrev chosen : RepoWithOrg
chosen = record { repo = repo; org_cfg = acme_web }

ended :
    Ends
      (sync_repo_branch one_repo source enricher none 100 repo (text "main") (text "main" ∷ []))
      backlog_store
ended =
    (sync_repo_branch-Ends one_repo source enricher none 100 repo answering (text "main")
      (text "main" ∷ []) (text "a1") backlog_store refl refl first-IsThere).0

abbrev enough : RepoInfo → Text → ℕ
enough r branch = 0 + ended.cost

is_chosen :
    all_repos one_repo source 100 one_repo.orgs 1 backlog_store
    ≡ (backlog_store, some (1, chosen ∷ []))
unfolding all_repos org_repos resolve_explicit_repos resolve_each
is_chosen = refl

succeeds : (run one_repo source enricher none 100 enough 2 2 1 backlog_store).1 ≡ true
unfolding run run_repos sync_repos sync_repo sync_branches stamp all_repos org_repos
    resolve_explicit_repos resolve_each
succeeds = rw (ended.ends 0) refl

run-IsThere_example :
    IsThere audit_key
      (text "acme" & text "web" & text "a1")
      (run one_repo source enricher none 100 enough 2 2 1 backlog_store).0.audit_results
run-IsThere_example =
    run-IsThere one_repo source enricher none 100 enough 2 2 1 1 backlog_store backlog_store
      (chosen ∷ []) chosen (text "a1") refl refl is_chosen (Memᴰ.head refl) first-IsThere succeeds

abbrev chosen_ends : Ends (all_repos one_repo source 100 one_repo.orgs) backlog_store
unfolding all_repos org_repos resolve_explicit_repos resolve_each
chosen_ends = record {
  cost = 0;
  left = backlog_store;
  value = chosen ∷ [];
  ends = λ reach. ap (λ n. (backlog_store, some (n, chosen ∷ []))) (no_more reach);
}
  where
    no_more : (n : ℕ) → n + 0 ≡ n
    no_more n = omega arith

answering_repos : AnsweringRepos source
answering_repos = record { lists = λ org. (repo ∷ [], refl); gets = λ org name. (repo, refl) }

choice_ends : Ends (all_repos one_repo source 100 one_repo.orgs) backlog_store
choice_ends = all_repos-Ends one_repo source 100 answering_repos one_repo.orgs backlog_store

run-Ends_example :
    (e : Succeeds
      (λ n s. run one_repo source enricher none 100 (all_alike n) 2 2 n s)
      backlog_store)
    × IsThere audit_key (text "acme" & text "web" & text "a1") e.left.audit_results
unfolding chosen_ends
run-Ends_example =
    run-Ends one_repo source enricher none 100 answering 2 2 backlog_store chosen_ends chosen
      (text "a1") refl refl (Memᴰ.head refl) first-IsThere
