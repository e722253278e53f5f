-- ===== src/Pipeline/Run/Total.antt =====
-- A run ends where GitHub answers.
use gh_audit.Prelude.{
  ℕ, ◌+◌, ◌≡◌, refl, ap, ◌∙◌, subst, Bool, true, List, [], ◌∷◌, Memᴰ, arith, nat_eq, text_eq,
}
use gh_audit.Text.{Text}
use gh_audit.Model.{Time}
use gh_audit.Audit.Types.{StatsFetcher}
use gh_audit.Store.Table.{columns_eq, ◌&◌}
use gh_audit.Store.Table.Present.{IsThere}
use gh_audit.Store.Rows.{Store, RepoInfo, commit_key, audit_key}
use gh_audit.Store.Audits.{record_audit_run}
use gh_audit.Pipeline.Sync.Total.{Ends, try_write-Ends}
use gh_audit.Pipeline.Fetch.{SyncConfig, GithubSource}
use gh_audit.Pipeline.Branch.{Enricher, sync_repo_branch}
use gh_audit.Pipeline.Branch.Total.{Answering, sync-Ends}
use gh_audit.Pipeline.Run.{
  RepoWithOrg, all_repos, branches_to_sync, sync_branches, sync_repo, sync_repos, audit_run, stamp,
  run_repos, run,
}
use gh_audit.Pipeline.Run.Verdicts.{run-IsThere}

-- From these tables a part of a run that has `n` statements for each sync succeeds, and leaves the
-- same tables, whenever `n` is large enough.
pub record Succeeds (f : ℕ → Store → Store × Bool) (s : Store) : Type 0 where
  pub cost : ℕ
  pub left : Store
  pub succeeds : (spare : ℕ) → f (spare + cost) s ≡ (left, true)

-- The same number of statements for every sync.
abbrev pub all_alike : ℕ → RepoInfo → Text → ℕ
all_alike n repo branch = n

module _ (config : SyncConfig) (source : GithubSource) (enricher : Enricher)
    (fetch_stats : StatsFetcher) (now : Time) (answering : Answering source enricher) where
  sync_branches-Succeeds :
      (repo : RepoInfo) (audited bs : List Text) (s : Store)
      → Succeeds
          (λ n s.
            sync_branches config source enricher fetch_stats now (all_alike n) repo audited bs s)
          s
  unfolding sync_branches
  sync_branches-Succeeds repo audited [] s = record { cost = 0; left = s; succeeds = λ spare. refl }
  sync_branches-Succeeds repo audited (b ∷ bs) s =
      let one = sync-Ends config source enricher fetch_stats now repo answering b audited s in
      let others = sync_branches-Succeeds repo audited bs one.left in
      record {
        cost = others.cost + one.cost;
        left = others.left;
        succeeds = λ spare.
            let here : spare + (others.cost + one.cost) ≡ spare + others.cost + one.cost =
              omega arith in
            let there : spare + (others.cost + one.cost) ≡ spare + one.cost + others.cost =
              omega arith in
            let first =
              ap (λ n. sync_repo_branch config source enricher fetch_stats now repo b audited n s)
                here
              ∙ one.ends (spare + others.cost) in
            let next =
              ap
                (λ n.
                  sync_branches config source enricher fetch_stats now (all_alike n) repo audited bs
                    one.left)
                there
              ∙ others.succeeds (spare + one.cost) in
            rw (first, next) refl;
      }

  sync_repo-Succeeds :
      (r : RepoWithOrg) (s : Store)
      → Succeeds (λ n s. sync_repo config source enricher fetch_stats now (all_alike n) r s) s
  unfolding sync_repo
  sync_repo-Succeeds r s =
      let e = sync_branches-Succeeds r.repo (branches_to_sync r) (branches_to_sync r) s in
      record { cost = e.cost; left = e.left; succeeds = e.succeeds }

  sync_repos-Succeeds :
      (rs : List RepoWithOrg) (s : Store)
      → Succeeds (λ n s. sync_repos config source enricher fetch_stats now (all_alike n) rs s) s
  unfolding sync_repos
  sync_repos-Succeeds [] s = record { cost = 0; left = s; succeeds = λ spare. refl }
  sync_repos-Succeeds (r ∷ rs) s =
      let one = sync_repo-Succeeds r s in
      let others = sync_repos-Succeeds rs one.left in
      record {
        cost = others.cost + one.cost;
        left = others.left;
        succeeds = λ spare.
            let here : spare + (others.cost + one.cost) ≡ spare + others.cost + one.cost =
              omega arith in
            let there : spare + (others.cost + one.cost) ≡ spare + one.cost + others.cost =
              omega arith in
            let first =
              ap (λ n. sync_repo config source enricher fetch_stats now (all_alike n) r s) here
              ∙ one.succeeds (spare + others.cost) in
            let next =
              ap (λ n. sync_repos config source enricher fetch_stats now (all_alike n) rs one.left)
                there
              ∙ others.succeeds (spare + one.cost) in
            rw (first, next) refl;
      }

  run-Succeeds :
      (synced audited : ℕ) (s : Store)
      → Ends (all_repos config source now config.orgs) s
      → Succeeds
          (λ n s. run config source enricher fetch_stats now (all_alike n) synced audited n s)
          s
  unfolding run run_repos stamp
  run-Succeeds synced audited s chosen =
      let repos = sync_repos-Succeeds chosen.value chosen.left in
      let stamped =
        try_write-Ends
          (record_audit_run
              (audit_run config source enricher fetch_stats now (all_alike 0) synced audited)
            ∷ [])
          repos.left in
      record {
        cost = stamped.cost + (repos.cost + chosen.cost);
        left = stamped.left;
        succeeds = λ spare.
            let n = spare + (stamped.cost + (repos.cost + chosen.cost)) in
            let here : n ≡ spare + repos.cost + stamped.cost + chosen.cost = omega arith in
            let there : n ≡ spare + stamped.cost + chosen.cost + repos.cost = omega arith in
            let first =
              ap (λ k. all_repos config source now config.orgs k s) here
              ∙ chosen.ends (spare + repos.cost + stamped.cost) in
            let next =
              ap
                (λ k.
                  sync_repos config source enricher fetch_stats now (all_alike k) chosen.value
                    chosen.left)
                there
              ∙ repos.succeeds (spare + stamped.cost + chosen.cost) in
            rw (first, next) (ap (λ x. (x.0, true)) (stamped.ends (spare + repos.cost)));
      }

  -- Where GitHub answers and the choice of the repositories ends, a run without bounds of dates
  -- succeeds as soon as enough statements of each sync take effect, whatever failed runs left behind,
  -- and every commit of a chosen repository which was stored before it then has a verdict.
  pub run-Ends :
      (synced audited : ℕ) (s : Store) (chosen : Ends (all_repos config source now config.orgs) s)
      (r : RepoWithOrg) (sha : Text)
      → config.since ≡ 0
      → config.until ≡ 0
      → Memᴰ r chosen.value
      → IsThere commit_key (r.repo.org & r.repo.name & sha) s.commits
      → (e : Succeeds
          (λ n s. run config source enricher fetch_stats now (all_alike n) synced audited n s)
          s)
        × IsThere audit_key (r.repo.org & r.repo.name & sha) e.left.audit_results
  run-Ends synced audited s chosen r sha no_since no_until m there =
      let e = run-Succeeds synced audited s chosen in
      let n = chosen.cost + e.cost in
      let split : n ≡ e.cost + chosen.cost = omega arith in
      let chose =
        ap (λ k. all_repos config source now config.orgs k s) split ∙ chosen.ends e.cost in
      let done = e.succeeds chosen.cost in
      (
        e,
        subst (λ x. IsThere audit_key (r.repo.org & r.repo.name & sha) x.0.audit_results) done
            (run-IsThere config source enricher fetch_stats now (all_alike n) synced audited n
              e.cost s chosen.left chosen.value r sha no_since no_until chose m there
              (ap (λ x. x.1) done)),
      )
