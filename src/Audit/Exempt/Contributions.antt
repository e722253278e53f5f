-- ===== src/Audit/Exempt/Contributions.antt =====
-- When the exemption of rule 1 is not lost to what a squash carries.
use gh_audit.Model.{ExemptAuthor, BranchCommits, Commit, EnrichmentResult, AuditResult}
use gh_audit.Audit.Pr.{Rules}
use gh_audit.Audit.Evaluate.{apply_exempt_author_rule}
use gh_audit.Text.{Text}
use gh_audit.Audit.Types.{Stats, FetchStats, exemption, has_content, StatsFetcher}
use gh_audit.Audit.Exempt.{
  contributes, is_exempt_commit, fetch_content, has_non_exempt_pr_contributors,
}
use gh_audit.Prelude.{
  any_none, ℕ, ◌≡◌, refl, ◌⊎◌, inl, inr, Bool, true, false, not, ◌&&◌, none, some, List, Memᴰ,
  arith, Bool-cases, ◌==◌, nat_eq, text_eq, any, Outcome, ok, failed,
}

-- A commit whose emptiness is known: by verified statistics, or by a fetch that
-- succeeded.
pub data IsEmpty (org repo : Text) (fetch_stats : StatsFetcher) (c : Commit) : Type 0 where
  stored :
      c.stats_verified ≡ true
      → has_content c.additions c.deletions c.files_changed ≡ false
      → IsEmpty org repo fetch_stats c
  fetched :
      {fetch : FetchStats} {s : Stats}
      → fetch_stats ≡ some fetch
      → c.additions ≡ 0
      → c.deletions ≡ 0
      → fetch exemption org repo c.sha ≡ ok s
      → has_content s.additions s.deletions s.files_changed ≡ false
      → IsEmpty org repo fetch_stats c

fetch_content-false :
    (fs : StatsFetcher) (org repo sha : Text)
    → fetch_content fs exemption org repo sha ≡ false
    → (fetch : FetchStats) × (s : Stats) × (fs ≡ some fetch)
      × (fetch exemption org repo sha ≡ ok s)
      × (has_content s.additions s.deletions s.files_changed ≡ false)
fetch_content-false none org repo sha h = cc
fetch_content-false (some f) org repo sha h = answered (f exemption org repo sha) refl
  where
    answered :
        (o : Outcome Stats)
        → f exemption org repo sha ≡ o
        → (fetch : FetchStats) × (s : Stats) × (some f ≡ some fetch)
          × (fetch exemption org repo sha ≡ ok s)
          × (has_content s.additions s.deletions s.files_changed ≡ false)
    answered failed e = absurd (ground arith)
    answered (ok s) e = (f, s, refl, e, ground arith)

-- Where the loops find no contributor, each commit is exempt or known to be empty.
no_contributors :
    (org repo : Text) (branches : BranchCommits) (es : List ExemptAuthor) (fs : StatsFetcher)
    (rs : Bool)
    → has_non_exempt_pr_contributors org repo branches es fs rs ≡ false
    → (n : ℕ) (cs : List Commit) (c : Commit) → Memᴰ (n, cs) branches
    → Memᴰ c cs
    → (is_exempt_commit c es rs ≡ true) ⊎ IsEmpty org repo fs c
unfolding has_non_exempt_pr_contributors
no_contributors org repo branches es fs rs h n cs c mb mc = nothing (
    any_none (contributes org repo es fs rs)
      (any_none (λ (e : ℕ × List Commit). any (contributes org repo es fs rs) e.1) h mb) mc)
  where
    nothing :
        contributes org repo es fs rs c ≡ false
        → (is_exempt_commit c es rs ≡ true) ⊎ IsEmpty org repo fs c
    nothing quiet = elim (Bool-cases (is_exempt_commit c es rs)) [
      | inl e ↦ inl e
      | inr e ↦ elim (Bool-cases (c.additions == 0 && c.deletions == 0 && not c.stats_verified)) [
        | inl ask ↦
            let (f, s, known, answer, empty) =
              fetch_content-false fs org repo c.sha (unfold contributes in ground arith) in
            inr (fetched known (ground arith) (ground arith) answer empty)
        | inr known ↦ inr (
            stored
              (elim (Bool-cases c.stats_verified) [
                | inl v ↦ v
                | inr u ↦ absurd (unfold contributes in ground arith)
              ])
              (unfold contributes in ground arith))
      ]
    ]

waived_lem :
    (result : AuditResult) (commit : Commit) (enrichment : EnrichmentResult) (rules : Rules)
    → (apply_exempt_author_rule result commit enrichment rules).1 ≡ true
    → has_non_exempt_pr_contributors commit.org commit.repo enrichment.pr_branch_commits
        rules.exempt_authors rules.fetch_stats rules.require_signing
      ≡ false
unfolding apply_exempt_author_rule
waived_lem result commit enrichment rules h = ground arith

-- Rule 1 waives a commit only where each commit of every branch of its pull requests is exempt too, or
-- its diff is known to be empty: by verified statistics without a line or a file, or, where no line is
-- stored, by a fetch that succeeded and shows none.
pub contributors_exempt :
    (result : AuditResult) (commit : Commit) (enrichment : EnrichmentResult) (rules : Rules)
    → (apply_exempt_author_rule result commit enrichment rules).1 ≡ true
    → (n : ℕ) (cs : List Commit) (c : Commit) → Memᴰ (n, cs) enrichment.pr_branch_commits
    → Memᴰ c cs
    → (is_exempt_commit c rules.exempt_authors rules.require_signing ≡ true)
      ⊎ IsEmpty commit.org commit.repo rules.fetch_stats c
contributors_exempt result commit enrichment rules h =
    no_contributors commit.org commit.repo enrichment.pr_branch_commits rules.exempt_authors
      rules.fetch_stats rules.require_signing (waived_lem result commit enrichment rules h)
