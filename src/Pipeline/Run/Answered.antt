-- ===== src/Pipeline/Run/Answered.antt =====
-- The choice of the repositories ends where GitHub answers.
use gh_audit.Prelude.{
  ◌≡◌, Bool, Option, none, some, List, [], ◌∷◌, ◌++◌, map, nat_eq, text_eq, ◌==◌, length, ltb, ok,
  on_if, if◌then◌else◌,
}
use gh_audit.Text.{Text}
use gh_audit.Model.{Time}
use gh_audit.Store.Table.{columns_eq}
use gh_audit.Store.Rows.{Store, RepoInfo}
use gh_audit.Store.OrgRepos.{clear_org_repos, cache_org_repos}
use gh_audit.Pipeline.Sync.{Sync, ◌>>=◌, ◌>>◌, pure, ask}
use gh_audit.Pipeline.Sync.Total.{Ends, pure-Ends, bind-Ends, try_write-Ends}
use gh_audit.Pipeline.Fetch.{SyncConfig, OrgConfig, GithubSource, filter_repos}
use gh_audit.Pipeline.Branch.Total.{ask-Ends}
use gh_audit.Pipeline.Run.{
  with_org, resolve_each, resolve_explicit_repos, cache_repos, list_repos, read_cache,
  discover_repos, org_repos, all_repos,
}

-- GitHub lists the repositories of an organisation, and gives each that is named.
pub record AnsweringRepos (source : GithubSource) : Type 0 where
  pub lists : (org : Text) → (rs : List RepoInfo) × (source.list_org_repos org ≡ ok rs)
  pub gets : (org name : Text) → (r : RepoInfo) × (source.get_repo org name ≡ ok r)

on_if-Ends :
    {A : Type 0} (b : Bool) {x y : Sync A} (s : Store)
    → Ends x s
    → Ends y s
    → Ends (if b then x else y) s
on_if-Ends {A} b s ex ey = on_if (λ (m : Sync A). Ends m s) b ex ey

module _ (config : SyncConfig) (source : GithubSource) (now : Time)
    (answering : AnsweringRepos source) where
  resolve_each-Ends :
      (org_cfg : OrgConfig) (names : List Text) (s : Store)
      → Ends (resolve_each config source now org_cfg names) s
  unfolding resolve_each
  resolve_each-Ends org_cfg [] s = pure-Ends [] s
  resolve_each-Ends org_cfg (name ∷ names) s =
      let info =
        ask-Ends (source.get_repo org_cfg.name name) s (answering.gets org_cfg.name name) in
      let rest = resolve_each-Ends org_cfg names info.left in
      bind-Ends (ask (source.get_repo org_cfg.name name))
        (λ info. resolve_each config source now org_cfg names >>= λ rest.
          pure (with_org org_cfg info ∷ rest))
        s info
        (bind-Ends (resolve_each config source now org_cfg names)
          (λ rest. pure (with_org org_cfg info.value ∷ rest)) info.left rest
          (pure-Ends (with_org org_cfg info.value ∷ rest.value) rest.left))

  cache_repos-Ends :
      (org_cfg : OrgConfig) (fetched : List RepoInfo) (s : Store)
      → Ends (cache_repos config source now org_cfg fetched) s
  cache_repos-Ends org_cfg fetched s =
      on_if-Ends (ltb 0 config.org_repos_cache_freshness) s
        (try_write-Ends
          (clear_org_repos org_cfg.name ∷ cache_org_repos now org_cfg.name fetched ∷ []) s)
        (pure-Ends tt s)

  list_repos-Ends :
      (org_cfg : OrgConfig) (cached : Option (List RepoInfo)) (s : Store)
      → Ends (list_repos config source now org_cfg cached) s
  unfolding list_repos
  list_repos-Ends org_cfg (some cached) s = pure-Ends cached s
  list_repos-Ends org_cfg none s =
      let fetched =
        ask-Ends (source.list_org_repos org_cfg.name) s (answering.lists org_cfg.name) in
      let kept = cache_repos-Ends org_cfg fetched.value fetched.left in
      bind-Ends (ask (source.list_org_repos org_cfg.name))
        (λ fetched. cache_repos config source now org_cfg fetched >> pure fetched) s fetched
        (bind-Ends (cache_repos config source now org_cfg fetched.value)
          (λ done. pure fetched.value) fetched.left kept (pure-Ends fetched.value kept.left))

  discover_repos-Ends :
      (org_cfg : OrgConfig) (s : Store) → Ends (discover_repos config source now org_cfg) s
  unfolding discover_repos
  discover_repos-Ends org_cfg s =
      let cached = read_cache config source now org_cfg s in
      let repos = list_repos-Ends org_cfg cached s in
      let e =
        bind-Ends (list_repos config source now org_cfg cached)
          (λ repos. pure (map (with_org org_cfg) (filter_repos repos org_cfg))) s repos
          (pure-Ends (map (with_org org_cfg) (filter_repos repos.value org_cfg)) repos.left) in
      record { cost = e.cost; left = e.left; value = e.value; ends = e.ends }

  org_repos-Ends : (org_cfg : OrgConfig) (s : Store) → Ends (org_repos config source now org_cfg) s
  unfolding org_repos resolve_explicit_repos
  org_repos-Ends org_cfg s =
      on_if-Ends (length org_cfg.repos == 0) s (discover_repos-Ends org_cfg s)
        (resolve_each-Ends org_cfg org_cfg.repos s)

  -- Where GitHub answers for the repositories, their choice ends.
  pub all_repos-Ends :
      (orgs : List OrgConfig) (s : Store) → Ends (all_repos config source now orgs) s
  unfolding all_repos
  all_repos-Ends [] s = pure-Ends [] s
  all_repos-Ends (org_cfg ∷ orgs) s =
      let resolved = org_repos-Ends org_cfg s in
      let rest = all_repos-Ends orgs resolved.left in
      bind-Ends (org_repos config source now org_cfg)
        (λ resolved. all_repos config source now orgs >>= λ rest. pure (resolved ++ rest)) s
        resolved
        (bind-Ends (all_repos config source now orgs) (λ rest. pure (resolved.value ++ rest))
          resolved.left rest (pure-Ends (resolved.value ++ rest.value) rest.left))
