-- ===== src/Audit/Evaluate/Best.antt =====
-- The verdict that EvaluateCommit reports where none of the pull requests passes.
use gh_audit.Prelude.{
  ◌≤◌, true, false, ◌≡◌, refl, inl, inr, none, some, List, [], ◌∷◌, Memᴰ, length, arith, Bool-cases,
  nat_eq,
}
use gh_audit.Model.{Commit, PullRequest, EnrichmentResult}
use gh_audit.Audit.Pr.{PrVerdict, Rules, no_verdict, evaluate_pr, better_verdict}
use gh_audit.Audit.Evaluate.{best_of, pr_loop}
use gh_audit.Audit.Finish.{pr_number_of}
use gh_audit.Audit.Evaluate.Loop.{verdict, leading, best_step}

-- `b` has no more reasons than `v`, and of as many the greater pull request number.
pub record Leads (b v : PrVerdict) : Type 0 where
  pub fewer : length b.reasons ≤ length v.reasons
  pub tie : length b.reasons ≡ length v.reasons → pr_number_of v.pr 0 ≤ pr_number_of b.pr 0

Leads-refl : (v : PrVerdict) → Leads v v
Leads-refl v = ground arith

Leads-trans : {u v w : PrVerdict} → Leads u v → Leads v w → Leads u w
Leads-trans h k = record { fewer = omega arith; tie = λ e. ground (arith, h.tie, k.tie) }

Leads-winner :
    (v b : PrVerdict) {p q : PullRequest}
    → v.pr ≡ some p
    → b.pr ≡ some q
    → better_verdict v b ≡ true
    → Leads v b
unfolding better_verdict
Leads-winner v b e f h = ground arith

Leads-loser :
    (v b : PrVerdict) {p q : PullRequest}
    → v.pr ≡ some p
    → b.pr ≡ some q
    → better_verdict v b ≡ false
    → Leads b v
unfolding better_verdict
Leads-loser v b e f h = ground arith

first_wins : (v b : PrVerdict) → b.pr ≡ none → better_verdict v b ≡ true
unfolding better_verdict
first_wins v b e = ground arith

module _ (commit : Commit) (enrichment : EnrichmentResult) (rules : Rules) where
  abbrev scored : PullRequest → PrVerdict
  scored = verdict commit enrichment rules

  pr-verdict : (pr : PullRequest) → (scored pr).pr ≡ some pr
  unfolding evaluate_pr
  pr-verdict pr = refl

  abbrev next : PrVerdict → PullRequest → PrVerdict
  next = leading commit enrichment rules

  -- A verdict on some pull request leads both its rivals.
  next-Leads :
      (best : PrVerdict) (pr q : PullRequest)
      → best.pr ≡ some q
      → Leads (next best pr) best
        × Leads (next best pr) (scored pr)
        × ((r : PullRequest) × ((next best pr).pr ≡ some r))
  next-Leads best pr q e = elim (Bool-cases (better_verdict (scored pr) best)) [
    | inl won ↦
        rw won
          (Leads-winner (scored pr) best (pr-verdict pr) e won, Leads-refl _, (pr, pr-verdict pr))
    | inr lost ↦ rw lost (Leads-refl _, Leads-loser (scored pr) best (pr-verdict pr) e lost, (q, e))
  ]

  loop-Leads :
      (best : PrVerdict) (prs : List PullRequest) {b : PrVerdict} (q : PullRequest)
      → best.pr ≡ some q
      → pr_loop commit enrichment rules best prs ≡ best_of b
      → Leads b best × ((pr : PullRequest) → Memᴰ pr prs → Leads b (scored pr))
  loop-Leads best [] {b} q e h =
      let same : best ≡ b = unfold pr_loop in cc in
      rw (← same) (Leads-refl best, λ pr m. elim m [ ])
  loop-Leads best (pr ∷ prs) {b} q e h =
      let (over_best, over_pr, named) = next-Leads best pr q e in
      let (over_next, over_rest) =
        loop-Leads (next best pr) prs named.0 named.1
          (best_step commit enrichment rules best pr prs h).1 in
      (Leads-trans over_next over_best, each over_next over_pr over_rest)
    where
      each :
          Leads b (next best pr)
          → Leads (next best pr) (scored pr)
          → ((p : PullRequest) → Memᴰ p prs → Leads b (scored p))
          → (p : PullRequest) → Memᴰ p (pr ∷ prs)
          → Leads b (scored p)
      each over_next over_pr over_rest p (Memᴰ.head e') = rw e' (Leads-trans over_next over_pr)
      each over_next over_pr over_rest p (Memᴰ.tail m) = over_rest p m

  -- The best verdict of a loop that no pull request passes leads the verdict on each of them.
  pub pr_loop-Leads :
      (prs : List PullRequest) {b : PrVerdict}
      → pr_loop commit enrichment rules no_verdict prs ≡ best_of b
      → (pr : PullRequest) → Memᴰ pr prs
      → Leads b (scored pr)
  pr_loop-Leads [] h pr m = elim m [ ]
  pr_loop-Leads (pr ∷ prs) {b} h q m = lead m
    where
      won : next no_verdict pr ≡ scored pr
      won = rw (first_wins (scored pr) no_verdict refl)

      rest : pr_loop commit enrichment rules (scored pr) prs ≡ best_of b
      rest = rw won at ((best_step commit enrichment rules no_verdict pr prs h).1)

      both : Leads b (scored pr) × ((p : PullRequest) → Memᴰ p prs → Leads b (scored p))
      both = loop-Leads (scored pr) prs pr (pr-verdict pr) rest

      lead : {p : PullRequest} → Memᴰ p (pr ∷ prs) → Leads b (scored p)
      lead (Memᴰ.head e) = rw e both.0
      lead (Memᴰ.tail k) = both.1 _ k
