-- ===== src/Audit/Pr/Independent.antt =====
-- What an approval that evaluatePR counts rests on.
use gh_audit.Audit.Reviews.Origin.{values-Origin}
use gh_audit.Audit.Contributors.{is_self_approval}
use gh_audit.Audit.Refresh.{is_approval_refreshable}
use gh_audit.Audit.Reviews.Fold.{as_of_merge}
use gh_audit.Audit.Contributors.Self.{is_self_approval_iff, IsAuthor}
use gh_audit.Audit.Reviews.{
  latest_review_states_on_final, approved, submitted_after_merge, values, ReviewMap,
}
use gh_audit.Model.{trusted_id, PullRequest, EnrichmentResult, Commit, Review}
use gh_audit.Audit.Pr.{
  no_approval, branch_commits, contributors_of, approve, Rules, off_head, counts, Approval,
  pr_approval, approval_of, stale_loop, fresh_loop, evaluate_pr,
}
use gh_audit.Prelude.{
  ℕ, ◌≡◌, refl, ◌⊎◌, inl, inr, Bool, true, false, not, ◌&&◌, ◌||◌, List, [], ◌∷◌, Memᴰ, arith,
  if◌then◌else◌, Bool-cases, nat_eq, text_beq_iff, text_eq,
}

module _ (is_self : Review → Bool) where
  fresh_loop-on_final :
      (a : Approval) (rs : List Review)
      → (fresh_loop is_self a rs).on_final ≡ true
      → (a.on_final ≡ true) ⊎ ((r : Review) × Memᴰ r rs × (counts r ≡ true) × (is_self r ≡ false))
  unfolding fresh_loop
  fresh_loop-on_final a [] h = inl h
  fresh_loop-on_final a (r ∷ rs) h = elim (fresh_loop-on_final (next a) rs h) [
    | inr found ↦ inr (found.0, Memᴰ.tail found.1, found.2, found.3)
    | inl e ↦ elim (Bool-cases (counts r && not (is_self r))) [
      | inl good ↦ inr (r, Memᴰ.head refl, ground arith, ground arith)
      | inr bad ↦ inl (ground arith)
    ]
  ]
    where
      next : Approval → Approval
      next b =
          if not (counts r) then b else if is_self r then record b { self = true } else approve r b

  stale_loop-on_final :
      (pr : PullRequest) (refreshable : Review → Bool) (a : Approval) (rs : List Review)
      → (stale_loop pr is_self refreshable a rs).on_final ≡ true
      → (a.on_final ≡ true)
        ⊎ ((r : Review) × Memᴰ r rs
            × (off_head pr r ≡ false)
            × (counts r ≡ true)
            × (is_self r ≡ false)
            × (refreshable r ≡ true))
  unfolding stale_loop
  stale_loop-on_final pr refreshable a [] h = inl h
  stale_loop-on_final pr refreshable a (r ∷ rs) h =
      elim (Bool-cases (off_head pr r || not (counts r) || is_self r)) [
        | inl skip ↦ elim (stale_loop-on_final pr refreshable a rs (ground arith)) [
          | inl e ↦ inl e
          | inr found ↦ inr (found.0, Memᴰ.tail found.1, found.2, found.3, found.4, found.5)
        ]
        | inr take_it ↦ elim (Bool-cases (refreshable r)) [
          | inl fresh ↦ inr (r, Memᴰ.head refl, ground arith, ground arith, ground arith, fresh)
          | inr stale ↦ inl (ground arith)
        ]
      ]

  approval_of-on_final :
      (pr : PullRequest) (refreshable : Review → Bool) (latest : ReviewMap) (rs : List Review)
      → (approval_of pr is_self refreshable latest rs).on_final ≡ true
      → ((r : Review) × Memᴰ r (values latest) × (counts r ≡ true) × (is_self r ≡ false))
        ⊎ ((r : Review) × Memᴰ r rs
            × (off_head pr r ≡ false)
            × (counts r ≡ true)
            × (is_self r ≡ false)
            × (refreshable r ≡ true))
  unfolding approval_of
  approval_of-on_final pr refreshable latest rs h =
      elim (Bool-cases (fresh_loop is_self no_approval (values latest)).on_final) [
        | inl e ↦ elim (fresh_loop-on_final no_approval (values latest) e) [
          | inl never ↦ absurd (cc)
          | inr found ↦ inl found
        ]
        | inr e ↦
            elim (stale_loop-on_final pr refreshable
              (fresh_loop is_self no_approval (values latest)) rs (ground arith)) [
                | inl never ↦ absurd (ground arith)
                | inr found ↦ inr found
              ]
      ]

-- An approval that stands: by a trusted account, not an author of the code, either of the head, as
-- of the merge and not sent after it, or of an older commit behind which nothing but exempt
-- commits came.
pub record Standing (commit : Commit) (enrichment : EnrichmentResult) (pr : PullRequest)
    (rules : Rules) : Type 0 where
  pub review : Review
  pub given : Memᴰ review enrichment.reviews
  pub of_pr : review.pr_number ≡ pr.number
  pub trusted : trusted_id review.reviewer_id ≡ true
  pub independent :
      ¬ IsAuthor review.reviewer_id commit pr
        (contributors_of commit enrichment pr rules.fetch_stats)
  pub stands :
      ((review.commit_id ≡ pr.head_sha)
        × (submitted_after_merge pr review ≡ false)
        × ((as_of_merge pr review).state ≡ approved))
      ⊎ ((review.state ≡ approved)
          × (is_approval_refreshable review
                (branch_commits pr.number enrichment.pr_branch_commits)
                pr.head_sha
                pr.merge_commit_sha
                rules.exempt_authors
                rules.require_signing
              ≡ true))

reviewer_id-as_of_merge :
    (pr : PullRequest) (r : Review) → (as_of_merge pr r).reviewer_id ≡ r.reviewer_id
unfolding as_of_merge
reviewer_id-as_of_merge pr r = ground arith

module _ (commit : Commit) (enrichment : EnrichmentResult) (pr : PullRequest) (rules : Rules) where
  abbrev authors : List Commit
  authors = contributors_of commit enrichment pr rules.fetch_stats

  not-IsAuthor :
      (r : Review) (reviewer : ℕ)
      → reviewer ≡ r.reviewer_id
      → trusted_id r.reviewer_id ≡ true
      → is_self_approval r commit pr authors ≡ false
      → ¬ IsAuthor reviewer commit pr authors
  not-IsAuthor r reviewer e trusted h w =
      ground (arith, (is_self_approval_iff r commit pr authors trusted).1 (rw e at w))

  fresh-Standing :
      (r : Review)
      → Memᴰ r (values (latest_review_states_on_final enrichment.reviews pr).0)
      → counts r ≡ true
      → is_self_approval r commit pr authors ≡ false
      → Standing commit enrichment pr rules
  fresh-Standing r m good other =
      let o = values-Origin enrichment.reviews pr r m in
      let same : o.review.reviewer_id ≡ r.reviewer_id =
        cc (o.as_then, reviewer_id-as_of_merge pr o.review) in
      let ok_id : trusted_id r.reviewer_id ≡ true = ground arith in
      record {
        review = o.review;
        given = o.given;
        of_pr = ground (arith, o.eligible);
        trusted = rw same ok_id;
        independent = not-IsAuthor r o.review.reviewer_id same ok_id other;
        stands = inl (
          ground (arith, o.eligible, text_beq_iff o.review.commit_id pr.head_sha),
          ground (arith, o.eligible),
          rw (← o.as_then) ((text_beq_iff r.state approved).0 (ground arith)),
        );
      }

  -- Whenever evaluatePR finds an independent approval, one of the reviews stands.
  pub approval-Standing :
      (evaluate_pr commit enrichment pr rules).approval_on_final ≡ true
      → Standing commit enrichment pr rules
  unfolding evaluate_pr pr_approval
  approval-Standing h = elim (approval_of-on_final _ pr _ _ enrichment.reviews h) [
    | inl found ↦ fresh-Standing found.0 found.1 found.2 found.3
    | inr found ↦ record {
      review = found.0;
      given = found.1;
      of_pr = ground (arith, found.2);
      trusted = ground (arith, found.3);
      independent = not-IsAuthor found.0 found.0.reviewer_id refl (ground (arith, found.3)) found.4;
      stands = inr ((text_beq_iff found.0.state approved).0 (ground (arith, found.3)), found.5);
    }
  ]
