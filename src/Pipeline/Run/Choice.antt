-- ===== src/Pipeline/Run/Choice.antt =====
-- The choice of the repositories removes no stored commit and no verdict.
use gh_audit.Prelude.{
  refl, Option, none, some, List, [], ◌∷◌, ◌++◌, nat_eq, text_eq, ltb, map, ◌==◌, length, on_if,
}
use gh_audit.Text.{Text}
use gh_audit.Model.{Time}
use gh_audit.Store.Table.{columns_eq}
use gh_audit.Store.Rows.{Store, RepoInfo}
use gh_audit.Store.OrgRepos.{clear_org_repos, cache_org_repos}
use gh_audit.Pipeline.Sync.{◌>>=◌, ◌>>◌, pure, ask}
use gh_audit.Pipeline.Sync.Kept.{Keeps, bind-Keeps, ask-Keeps, try_write-Keeps}
use gh_audit.Pipeline.Fetch.{SyncConfig, OrgConfig, GithubSource, filter_repos}
use gh_audit.Pipeline.Run.{
  RepoWithOrg, with_org, resolve_each, resolve_explicit_repos, cache_repos, list_repos, read_cache,
  discover_repos, org_repos, all_repos,
}
use gh_audit.Pipeline.Branch.Growth.{Lasts, Lasts-same, lasting}

module _ (config : SyncConfig) (source : GithubSource) (now : Time) where
  clear-Lasts : (org : Text) (s : Store) → Lasts s (clear_org_repos org s)
  unfolding clear_org_repos
  clear-Lasts org s = Lasts-same refl refl

  cache-Lasts :
      (org : Text) (repos : List RepoInfo) (s : Store) → Lasts s (cache_org_repos now org repos s)
  unfolding cache_org_repos clear_org_repos
  cache-Lasts org repos s = Lasts-same refl refl

  resolve_each-Lasts :
      (org_cfg : OrgConfig) (names : List Text)
      → Keeps lasting (resolve_each config source now org_cfg names)
  unfolding resolve_each
  resolve_each-Lasts org_cfg [] = λ reach s. lasting.same s
  resolve_each-Lasts org_cfg (name ∷ names) =
      bind-Keeps lasting (ask (source.get_repo org_cfg.name name))
        (λ info. resolve_each config source now org_cfg names >>= λ rest.
          pure (with_org org_cfg info ∷ rest))
        (ask-Keeps lasting _)
        (λ info.
          bind-Keeps lasting (resolve_each config source now org_cfg names)
            (λ rest. pure (with_org org_cfg info ∷ rest)) (resolve_each-Lasts org_cfg names)
            (λ rest r u. lasting.same u))

  cache_repos-Lasts :
      (org_cfg : OrgConfig) (fetched : List RepoInfo)
      → Keeps lasting (cache_repos config source now org_cfg fetched)
  cache_repos-Lasts org_cfg fetched =
      on_if (Keeps lasting {A = Unit {0}}) (ltb 0 config.org_repos_cache_freshness)
        (try_write-Keeps lasting
          (clear_org_repos org_cfg.name ∷ cache_org_repos now org_cfg.name fetched ∷ [])
          (clear-Lasts org_cfg.name, (cache-Lasts org_cfg.name fetched, tt)))
        (λ reach s. lasting.same s)

  list_repos-Lasts :
      (org_cfg : OrgConfig) (cached : Option (List RepoInfo))
      → Keeps lasting (list_repos config source now org_cfg cached)
  unfolding list_repos
  list_repos-Lasts org_cfg (some cached) = λ reach s. lasting.same s
  list_repos-Lasts org_cfg none =
      bind-Keeps lasting (ask (source.list_org_repos org_cfg.name))
        (λ fetched. cache_repos config source now org_cfg fetched >> pure fetched)
        (ask-Keeps lasting _)
        (λ fetched.
          bind-Keeps lasting (cache_repos config source now org_cfg fetched) (λ done. pure fetched)
            (cache_repos-Lasts org_cfg fetched) (λ done r u. lasting.same u))

  org_repos-Lasts : (org_cfg : OrgConfig) → Keeps lasting (org_repos config source now org_cfg)
  unfolding org_repos discover_repos resolve_explicit_repos
  org_repos-Lasts org_cfg =
      on_if (Keeps lasting {A = List RepoWithOrg}) (length org_cfg.repos == 0)
        (λ reach s.
          bind-Keeps lasting
            (list_repos config source now org_cfg (read_cache config source now org_cfg s))
            (λ repos. pure (map (with_org org_cfg) (filter_repos repos org_cfg)))
            (list_repos-Lasts org_cfg _) (λ repos r u. lasting.same u) reach s)
        (resolve_each-Lasts org_cfg org_cfg.repos)

  pub all_repos-Lasts : (orgs : List OrgConfig) → Keeps lasting (all_repos config source now orgs)
  unfolding all_repos
  all_repos-Lasts [] = λ reach s. lasting.same s
  all_repos-Lasts (org_cfg ∷ orgs) =
      bind-Keeps lasting (org_repos config source now org_cfg)
        (λ resolved. all_repos config source now orgs >>= λ rest. pure (resolved ++ rest))
        (org_repos-Lasts org_cfg)
        (λ resolved.
          bind-Keeps lasting (all_repos config source now orgs) (λ rest. pure (resolved ++ rest))
            (all_repos-Lasts orgs) (λ rest r u. lasting.same u))
