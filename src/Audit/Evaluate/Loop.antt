-- ===== src/Audit/Evaluate/Loop.antt =====
-- What the loop of EvaluateCommit over the pull requests ends with.
use gh_audit.Prelude.{
  true, false, ◌≡◌, refl, ◌⊎◌, inl, inr, List, [], ◌∷◌, Memᴰ, arith, Bool-cases, if◌then◌else◌,
  nat_eq,
}
use gh_audit.Model.{Commit, PullRequest, EnrichmentResult}
use gh_audit.Audit.Pr.{PrVerdict, Rules, evaluate_pr, better_verdict}
use gh_audit.Audit.Evaluate.{passed, best_of, passes, pr_loop}

module _ (commit : Commit) (enrichment : EnrichmentResult) (rules : Rules) where
  abbrev pub verdict : PullRequest → PrVerdict
  verdict pr = evaluate_pr commit enrichment pr rules

  abbrev pub Passing : List PullRequest → Type 0
  Passing prs = (pr : PullRequest) × Memᴰ pr prs × (passes (verdict pr) ≡ true)

  -- A loop that ends early has met a pull request that passes.
  pub pr_loop-passed :
      (best : PrVerdict) (prs : List PullRequest) {v : PrVerdict}
      → pr_loop commit enrichment rules best prs ≡ passed v
      → (pr : PullRequest) × Memᴰ pr prs × (v ≡ verdict pr) × (passes (verdict pr) ≡ true)
  unfolding pr_loop
  pr_loop-passed best [] h = cc
  pr_loop-passed best (pr ∷ prs) {v} h = elim (Bool-cases (passes (verdict pr))) [
    | inl e ↦ (pr, Memᴰ.head refl, ground arith, e)
    | inr e ↦
        let (q, m, eq, p) =
          pr_loop-passed (if better_verdict (verdict pr) best then verdict pr else best) prs
            (ground arith) in
        (q, Memᴰ.tail m, eq, p)
  ]

  abbrev pub leading : PrVerdict → PullRequest → PrVerdict
  leading best pr = if better_verdict (verdict pr) best then verdict pr else best

  pub best_step :
      (best : PrVerdict) (pr : PullRequest) (prs : List PullRequest) {b : PrVerdict}
      → pr_loop commit enrichment rules best (pr ∷ prs) ≡ best_of b
      → (passes (verdict pr) ≡ false)
        × (pr_loop commit enrichment rules (leading best pr) prs ≡ best_of b)
  unfolding pr_loop
  best_step best pr prs h = ground arith

  -- A loop that runs to its end has met none.
  pub pr_loop-best :
      (best : PrVerdict) (prs : List PullRequest) {b : PrVerdict}
      → pr_loop commit enrichment rules best prs ≡ best_of b
      → (pr : PullRequest) → Memᴰ pr prs
      → passes (verdict pr) ≡ false
  pr_loop-best best [] h q m = elim m [ ]
  pr_loop-best best (pr ∷ prs) h q (Memᴰ.head e) = rw e (best_step best pr prs h).0
  pr_loop-best best (pr ∷ prs) h q (Memᴰ.tail m) =
      pr_loop-best (leading best pr) prs (best_step best pr prs h).1 q m

  -- What the loop ends with is its first candidate or the verdict on one of the pull requests.
  pub pr_loop-source :
      (best : PrVerdict) (prs : List PullRequest) {b : PrVerdict}
      → pr_loop commit enrichment rules best prs ≡ best_of b
      → (b ≡ best) ⊎ ((pr : PullRequest) × Memᴰ pr prs × (b ≡ verdict pr))
  pr_loop-source best [] h = unfold pr_loop in inl (cc)
  pr_loop-source best (pr ∷ prs) h =
      elim (pr_loop-source (leading best pr) prs (best_step best pr prs h).1) [
        | inl e ↦ elim (Bool-cases (better_verdict (verdict pr) best)) [
          | inl won ↦ inr (pr, Memᴰ.head refl, ground arith)
          | inr lost ↦ inl (ground arith)
        ]
        | inr found ↦ inr (found.0, Memᴰ.tail found.1, found.2)
      ]
