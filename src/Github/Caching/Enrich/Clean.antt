-- ===== src/Github/Caching/Enrich/Clean.antt =====
-- A clean revert in an enriched commit is one, as the client shows the two diffs.
use gh_audit.Prelude.{
  ◌≡◌, refl, ap, subst, true, Option, List, nat_eq, text_eq, Outcome, ok, failed,
}
use gh_audit.Prelude.{
  on_outcome, Outcome-cases, inl, inr, ℕ, zero, suc, some, [], ◌∷◌, ◌∙◌, sym, get_elem?, arith,
}
use gh_audit.Text.{Text}
use gh_audit.Model.{Commit, PullRequest, EnrichmentResult}
use gh_audit.Github.Caching.{Client, EnrichmentCache, CachingEnricher}
use gh_audit.Github.Caching.Fetch.{get_commit}
use gh_audit.Github.Caching.Links.{get_prs_for_commit}
use gh_audit.Github.Caching.Verified.{Inverse, classify_revert_and_merge-Inverse}
use gh_audit.Github.Caching.Enrich.{
  PrEnrichment, enrich_commits, assembled, classified, enrich_prs, enrich_one_commit, lookup_pr,
}

-- Whatever result is given, it calls no other revert clean.
record GivesClean (client : Client) (sha : Text) (x : Outcome EnrichmentResult × CachingEnricher)
    : Type 0 where
  pub gives :
      (r : EnrichmentResult)
      → x.0 ≡ ok r
      → r.is_clean_revert ≡ true
      → Inverse client.get_commit_files sha r.reverted_sha

gives_nothing :
    (client : Client) (sha : Text) (ce : CachingEnricher) → GivesClean client sha (failed, ce)
gives_nothing client sha ce = record { gives = λ r e h. absurd cc }

abbrev or_result : EnrichmentResult → Outcome EnrichmentResult → EnrichmentResult
or_result r failed = r
or_result r (ok q) = q

classified-GivesClean :
    (client : Client) (db : Option EnrichmentCache) (sha : Text) (detail : Commit)
    (es : List (PullRequest × PrEnrichment)) (ce : CachingEnricher)
    → GivesClean client sha (classified client db sha detail es ce)
unfolding classified assembled
classified-GivesClean client db sha detail es ce = record {
  gives = λ r e h.
      subst
        (λ (q : EnrichmentResult).
          q.is_clean_revert ≡ true → Inverse client.get_commit_files sha q.reverted_sha)
        (ap (or_result r) e)
        (classify_revert_and_merge-Inverse client.get_commit_files (lookup_pr client db ce) sha
          detail.parent_count (assembled detail es) refl)
        h;
}

enrich_one_commit-GivesClean :
    (client : Client) (db : Option EnrichmentCache) (sha : Text) (ce : CachingEnricher)
    → GivesClean client sha (enrich_one_commit client db sha ce)
unfolding enrich_one_commit
enrich_one_commit-GivesClean client db sha ce =
    let Goal = GivesClean client sha in
    on_outcome Goal (get_commit client db sha ce).0 (gives_nothing client sha _) (λ detail.
      let ce' = (get_commit client db sha ce).1 in
      on_outcome Goal (get_prs_for_commit client db sha ce').0 (gives_nothing client sha _) (λ prs.
        let ce'' = (get_prs_for_commit client db sha ce').1 in
        on_outcome Goal (enrich_prs client db prs ce'').0 (gives_nothing client sha _)
          (λ es. classified-GivesClean client db sha detail es (enrich_prs client db prs ce'').1)))

enrich_one_commit-Inverse :
    (client : Client) (db : Option EnrichmentCache) (sha : Text) (ce : CachingEnricher)
    (result : EnrichmentResult)
    → (enrich_one_commit client db sha ce).0 ≡ ok result
    → result.is_clean_revert ≡ true
    → Inverse client.get_commit_files sha result.reverted_sha
enrich_one_commit-Inverse client db sha ce result =
    (enrich_one_commit-GivesClean client db sha ce).gives result

or_none : {A : Type 0} → A → Outcome A → A
or_none a failed = a
or_none a (ok b) = b

module _ (client : Client) (db : Option EnrichmentCache) where
  -- A batch that succeeds has a result of its first commit, and those of the others.
  enrich_commits-ok :
      (sha : Text) (shas : List Text) (ce : CachingEnricher) (results : List EnrichmentResult)
      → (enrich_commits client db (sha ∷ shas) ce).0 ≡ ok results
      → (r : EnrichmentResult) × (rs : List EnrichmentResult) × (results ≡ r ∷ rs)
        × ((enrich_one_commit client db sha ce).0 ≡ ok r)
        × ((enrich_commits client db shas (enrich_one_commit client db sha ce).1).0 ≡ ok rs)
  unfolding enrich_commits
  enrich_commits-ok sha shas ce results h =
      let x = enrich_one_commit client db sha ce in
      elim (Outcome-cases x.0) [
        | inl bad ↦ absurd (ground (arith, h, bad))
        | inr (r, one) ↦ elim (Outcome-cases (enrich_commits client db shas x.1).0) [
          | inl bad ↦ absurd (ground (arith, h, one, bad))
          | inr (rs, others) ↦ (r, rs, ground (arith, h, one, others), one, others)
        ]
      ]

  -- Whatever a batch holds and the caches hold, the result at the place of a commit is marked as a
  -- clean revert only where the fetched diffs of that commit and of the one that the result names
  -- undo each other.
  pub enrich_commits-Inverse :
      (shas : List Text) (ce : CachingEnricher) (results : List EnrichmentResult) (i : ℕ)
      (sha : Text) (result : EnrichmentResult)
      → (enrich_commits client db shas ce).0 ≡ ok results
      → get_elem? shas i ≡ some sha
      → get_elem? results i ≡ some result
      → result.is_clean_revert ≡ true
      → Inverse client.get_commit_files sha result.reverted_sha
  enrich_commits-Inverse [] ce results i sha result h at_i is_i clean = absurd cc
  enrich_commits-Inverse (first ∷ shas) ce results zero sha result h at_i is_i clean =
      let (r, rs, e, one, others) = enrich_commits-ok first shas ce results h in
      let r_is : r ≡ result = ground (arith, e, is_i) in
      let sha_is : first ≡ sha = ground (arith, at_i) in
      subst (λ s. Inverse client.get_commit_files s result.reverted_sha) sha_is
        (enrich_one_commit-Inverse client db first ce result (one ∙ ap ok r_is) clean)
  enrich_commits-Inverse (first ∷ shas) ce results (suc i) sha result h at_i is_i clean =
      let (r, rs, e, one, others) = enrich_commits-ok first shas ce results h in
      enrich_commits-Inverse shas (enrich_one_commit client db first ce).1 rs i sha result others
        at_i (ap (λ l. get_elem? l (suc i)) (sym e) ∙ is_i) clean
