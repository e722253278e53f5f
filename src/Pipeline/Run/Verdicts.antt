-- ===== src/Pipeline/Run/Verdicts.antt =====
-- A run that succeeds leaves a verdict for every stored commit of the repositories that it chose.
use gh_audit.Prelude.{
  ℕ, Bool, true, false, ◌&&◌, ◌≡◌, refl, sym, subst, Option, none, some, List, [], ◌∷◌, inl, Memᴰ,
  nat_eq, text_eq, ap, ◌∙◌,
}
use gh_audit.Text.{Text}
use gh_audit.Model.{Time}
use gh_audit.Audit.Types.{StatsFetcher}
use gh_audit.Store.Table.{columns_eq, ◌&◌}
use gh_audit.Store.Table.Present.{IsThere}
use gh_audit.Store.Rows.{Store, RepoInfo, commit_key, audit_key}
use gh_audit.Store.Audits.{record_audit_run}
use gh_audit.Pipeline.Sync.Kept.{try_write-Keeps}
use gh_audit.Pipeline.Fetch.{SyncConfig, GithubSource}
use gh_audit.Pipeline.Branch.{Enricher, sync_repo_branch}
use gh_audit.Pipeline.Branch.Drained.{sync_repo_branch-IsThere}
use gh_audit.Pipeline.Run.{
  RepoWithOrg, all_repos, or_default, branches_to_sync, is_ended, sync_branches, sync_repo,
  sync_repos, audit_run, stamp, run_repos, run,
}
use gh_audit.Pipeline.Run.Choice.{all_repos-Lasts}
use gh_audit.Pipeline.Branch.Growth.{Lasts, Lasts-same, lasting}
use gh_audit.Pipeline.Branch.Growth.Whole.{sync_repo_branch-Lasts}

is_ended-some :
    {A : Type 0} (x : Store × Option A)
    → is_ended x.1 ≡ true
    → (t : Store) × (a : A) × (x ≡ (t, some a))
is_ended-some (t, none) h = absurd (cc h)
is_ended-some (t, some a) h = (t, a, refl)

both_true : (a b : Bool) → (a && b) ≡ true → (a ≡ true) × (b ≡ true)
both_true true b h = (refl, h)
both_true false b h = absurd (cc h)

module _ (config : SyncConfig) (source : GithubSource) (enricher : Enricher)
    (fetch_stats : StatsFetcher) (now : Time) (reach_of : RepoInfo → Text → ℕ) where
  sync_branches-Lasts :
      (repo : RepoInfo) (audited bs : List Text) (s : Store)
      → Lasts s (sync_branches config source enricher fetch_stats now reach_of repo audited bs s).0
  unfolding sync_branches
  sync_branches-Lasts repo audited [] s = lasting.same s
  sync_branches-Lasts repo audited (b ∷ bs) s =
      lasting.chain s _ _
        (sync_repo_branch-Lasts config source enricher fetch_stats now repo b audited
          (reach_of repo b) s)
        (sync_branches-Lasts repo audited bs _)

  sync_repo-Lasts :
      (r : RepoWithOrg) (s : Store)
      → Lasts s (sync_repo config source enricher fetch_stats now reach_of r s).0
  unfolding sync_repo
  sync_repo-Lasts r s = sync_branches-Lasts r.repo (branches_to_sync r) (branches_to_sync r) s

  sync_repos-Lasts :
      (rs : List RepoWithOrg) (s : Store)
      → Lasts s (sync_repos config source enricher fetch_stats now reach_of rs s).0
  unfolding sync_repos
  sync_repos-Lasts [] s = lasting.same s
  sync_repos-Lasts (r ∷ rs) s = lasting.chain s _ _ (sync_repo-Lasts r s) (sync_repos-Lasts rs _)

  -- The first branch that is synced gives the commit its verdict.
  sync_branches-IsThere :
      (repo : RepoInfo) (audited : List Text) (b : Text) (bs : List Text) (sha : Text) (s : Store)
      → config.since ≡ 0
      → config.until ≡ 0
      → IsThere commit_key (repo.org & repo.name & sha) s.commits
      → (sync_branches config source enricher fetch_stats now reach_of repo audited (b ∷ bs) s).1
        ≡ true
      → IsThere audit_key
          (repo.org & repo.name & sha)
          (sync_branches config source enricher fetch_stats now reach_of repo audited
            (b ∷ bs)
            s).0.audit_results
  unfolding sync_branches
  sync_branches-IsThere repo audited b bs sha s no_since no_until there e =
      let x =
        sync_repo_branch config source enricher fetch_stats now repo b audited (reach_of repo b)
          s in
      let (first, others) = both_true (is_ended x.1) _ e in
      let (t, out, ran) = is_ended-some x first in
      let verdict : IsThere audit_key (repo.org & repo.name & sha) x.0.audit_results =
        subst (λ u. IsThere audit_key (repo.org & repo.name & sha) u.audit_results)
          (sym (ap (λ y. y.0) ran))
          (sync_repo_branch-IsThere config source enricher fetch_stats now repo b audited sha
            (reach_of repo b) s t out no_since no_until (record { stored_or_fetched = inl there })
            ran) in
      (sync_branches-Lasts repo audited bs x.0).verdicts _ verdict

  sync_repo-IsThere :
      (r : RepoWithOrg) (sha : Text) (s : Store)
      → config.since ≡ 0
      → config.until ≡ 0
      → IsThere commit_key (r.repo.org & r.repo.name & sha) s.commits
      → (sync_repo config source enricher fetch_stats now reach_of r s).1 ≡ true
      → IsThere audit_key
          (r.repo.org & r.repo.name & sha)
          (sync_repo config source enricher fetch_stats now reach_of r s).0.audit_results
  unfolding sync_repo
  sync_repo-IsThere r sha s no_since no_until there = some_branch r.org_cfg.branches
    where
      some_branch :
          (bs : List Text)
          → (sync_branches config source enricher fetch_stats now reach_of r.repo
              (or_default r.repo.default_branch bs)
              (or_default r.repo.default_branch bs)
              s).1
            ≡ true
          → IsThere audit_key
              (r.repo.org & r.repo.name & sha)
              (sync_branches config source enricher fetch_stats now reach_of r.repo
                (or_default r.repo.default_branch bs)
                (or_default r.repo.default_branch bs)
                s).0.audit_results
      some_branch [] =
          sync_branches-IsThere r.repo (r.repo.default_branch ∷ []) r.repo.default_branch [] sha s
            no_since no_until there
      some_branch (b ∷ bs) =
          sync_branches-IsThere r.repo (b ∷ bs) b bs sha s no_since no_until there

  sync_repos-IsThere :
      (rs : List RepoWithOrg) (r : RepoWithOrg) (sha : Text) (s : Store)
      → Memᴰ r rs
      → config.since ≡ 0
      → config.until ≡ 0
      → IsThere commit_key (r.repo.org & r.repo.name & sha) s.commits
      → (sync_repos config source enricher fetch_stats now reach_of rs s).1 ≡ true
      → IsThere audit_key
          (r.repo.org & r.repo.name & sha)
          (sync_repos config source enricher fetch_stats now reach_of rs s).0.audit_results
  unfolding sync_repos
  sync_repos-IsThere [] r sha s m no_since no_until there e = elim m [ ]
  sync_repos-IsThere (q ∷ rs) r sha s (Memᴰ.head same) no_since no_until there e =
      let x = sync_repo config source enricher fetch_stats now reach_of q s in
      let (first, others) = both_true x.1 _ e in
      let at_q =
        subst (λ y. IsThere commit_key (y.repo.org & y.repo.name & sha) s.commits) same there in
      let verdict = sync_repo-IsThere q sha s no_since no_until at_q first in
      (sync_repos-Lasts rs x.0).verdicts _ (
        subst (λ y. IsThere audit_key (y.repo.org & y.repo.name & sha) x.0.audit_results) (sym same)
          verdict)
  sync_repos-IsThere (q ∷ rs) r sha s (Memᴰ.tail m) no_since no_until there e =
      let x = sync_repo config source enricher fetch_stats now reach_of q s in
      let (first, others) = both_true x.1 _ e in
      sync_repos-IsThere rs r sha x.0 m no_since no_until ((sync_repo-Lasts q s).commits _ there)
        others

  stamp-true :
      (synced audited reach : ℕ) (x : Store × Bool)
      → (stamp config source enricher fetch_stats now reach_of synced audited reach x).1 ≡ true
      → x.1 ≡ true
  unfolding stamp
  stamp-true synced audited reach (s, true) h = refl
  stamp-true synced audited reach (s, false) h = h

  record-Lasts :
      (synced audited : ℕ) (s : Store)
      → Lasts s (
          record_audit_run
            (audit_run config source enricher fetch_stats now reach_of synced audited)
            s)
  unfolding record_audit_run
  record-Lasts synced audited s = Lasts-same refl refl

  stamp-Lasts :
      (synced audited reach : ℕ) (x : Store × Bool)
      → Lasts x.0 (stamp config source enricher fetch_stats now reach_of synced audited reach x).0
  unfolding stamp
  stamp-Lasts synced audited reach (s, false) = lasting.same s
  stamp-Lasts synced audited reach (s, true) =
      try_write-Keeps lasting
        (record_audit_run (audit_run config source enricher fetch_stats now reach_of synced audited)
          ∷ [])
        (record-Lasts synced audited, tt) reach s

  -- A run without bounds of dates that succeeds leaves, for each repository that it chose, a verdict
  -- for every commit of it that was stored before the run.
  pub run-IsThere :
      (synced audited reach left : ℕ) (s s1 : Store) (repos : List RepoWithOrg) (r : RepoWithOrg)
      (sha : Text)
      → config.since ≡ 0
      → config.until ≡ 0
      → all_repos config source now config.orgs reach s ≡ (s1, some (left, repos))
      → Memᴰ r repos
      → IsThere commit_key (r.repo.org & r.repo.name & sha) s.commits
      → (run config source enricher fetch_stats now reach_of synced audited reach s).1 ≡ true
      → IsThere audit_key
          (r.repo.org & r.repo.name & sha)
          (run config source enricher fetch_stats now reach_of synced audited reach
            s).0.audit_results
  unfolding run run_repos
  run-IsThere synced audited reach left s s1 repos r sha no_since no_until chosen m there e =
      let goes : Store × Option (ℕ × List RepoWithOrg) → Store × Bool =
        λ x. run_repos config source enricher fetch_stats now reach_of synced audited x in
      let ended : (goes (s1, some (left, repos))).1 ≡ true =
        sym (ap (λ x. (goes x).1) chosen) ∙ e in
      let at_s1 =
        subst (λ u. IsThere commit_key (r.repo.org & r.repo.name & sha) u.commits)
          (ap (λ x. x.0) chosen)
          ((all_repos-Lasts config source now config.orgs reach s).commits _ there) in
      let x = sync_repos config source enricher fetch_stats now reach_of repos s1 in
      let verdict =
        sync_repos-IsThere repos r sha s1 m no_since no_until at_s1
          (stamp-true synced audited left x ended) in
      subst (λ y. IsThere audit_key (r.repo.org & r.repo.name & sha) (goes y).0.audit_results)
        (sym chosen) ((stamp-Lasts synced audited left x).verdicts _ verdict)
