-- ===== src/Store/OrgRepos.antt =====
-- internal/db/org_repos.go: the cache of an organisation's repositories.
use gh_audit.Prelude.{
  ◌-◌, Option, none, some, List, [], ◌∷◌, map, ltb, if◌then◌else◌, ◌==◌, nat_eq, text_eq, ◌/=◌,
  select,
}
use gh_audit.Text.{Text}
use gh_audit.Model.{Time}
use gh_audit.Github.Diff.{text_leb}
use gh_audit.Store.Table.{columns_eq, as_staged, bulk_upsert, order_by}
use gh_audit.Store.Rows.{Store, RepoInfo, OrgRepoRow, org_repo_key}

-- DELETE FROM org_repos_cache WHERE org = ?
unfoldable pub clear_org_repos : Text → Store → Store
clear_org_repos org s = record s {
  org_repos = select (λ (r : OrgRepoRow). r.org /= org) s.org_repos;
}

abbrev pub org_repo_row : Text → Time → RepoInfo → OrgRepoRow
org_repo_row org now r = record {
  org = org;
  name = r.name;
  full_name = r.full_name;
  default_branch = r.default_branch;
  archived = r.archived;
  fetched_at = now;
}

-- CacheOrgRepos, at the time `now`
unfoldable pub cache_org_repos : Time → Text → List RepoInfo → Store → Store
unfolding clear_org_repos
cache_org_repos now org repos s =
    let cleared : Store = clear_org_repos org s in
    record cleared {
      org_repos =
          bulk_upsert org_repo_key as_staged (map (org_repo_row org now) repos) cleared.org_repos;
    }

-- SELECT MIN(fetched_at)
unfoldable pub oldest_fetch : List OrgRepoRow → Option Time
oldest_fetch [] = none
oldest_fetch (r ∷ rows) = elim (oldest_fetch rows) [
  | none ↦ some r.fetched_at
  | some t ↦ some (if ltb t r.fetched_at then t else r.fetched_at)
]

abbrev pub scan_org_repo : Text → OrgRepoRow → RepoInfo
scan_org_repo org r = record {
  org = org;
  name = r.name;
  full_name = r.full_name;
  default_branch = r.default_branch;
  archived = r.archived;
}

-- GetCachedOrgRepos, at the time `now`: `none` is a miss.
unfoldable pub get_cached_org_repos : Time → Text → Time → Store → Option (List RepoInfo)
unfolding oldest_fetch
get_cached_org_repos now org freshness s =
    let rows : List OrgRepoRow = select (λ (r : OrgRepoRow). r.org == org) s.org_repos in
    elim (oldest_fetch rows) [
      | none ↦ none
      | some oldest ↦
          if ltb freshness (now - oldest)
          then none
          else some (
              map (scan_org_repo org)
                (order_by (λ (a : OrgRepoRow) (b : OrgRepoRow). text_leb a.name b.name) rows))
    ]
