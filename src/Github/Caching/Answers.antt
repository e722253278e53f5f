-- ===== src/Github/Caching/Answers.antt =====
-- The caches change no answer: each look-up gives what the store and the client alone would give.
use gh_audit.Prelude.{
  ℕ, ◌≡◌, refl, sym, ap, ◌∙◌, inl, inr, true, false, ◌||◌, Option, none, some, List, [], ◌∷◌, arith,
  Bool-cases, Option-cases, ◌==◌, nat_eq, text_eq, any, Outcome, ok, failed,
}
use gh_audit.Prelude.{on_if}
use gh_audit.Prelude.{Outcome-cases}
use gh_audit.Model.{Commit, PullRequest, Review}
use gh_audit.Github.Caching.{
  ApiStats, or_no_numbers, Client, EnrichmentCache, CachingEnricher, find, index_pr, stored,
  frozen_pr, is_pr_merged, if_merged, resolve_dismissals, has_dismissed,
}
use gh_audit.Github.Caching.Fetch.{
  keep_pr, keep_reviews, keep_commits, get_pr, get_reviews, fetch_reviews, get_pr_commits,
}

-- A cache that holds right answers only.
pub record IsRight {A : Type 0} (answer : ℕ → Outcome A) (cache : List (ℕ × A)) : Type 0 where
  pub right : (n : ℕ) (a : A) → find n cache ≡ some a → answer n ≡ ok a

put-IsRight :
    {A : Type 0} {answer : ℕ → Outcome A} {cache : List (ℕ × A)} (n : ℕ) (a : A)
    → answer n ≡ ok a
    → IsRight answer cache
    → IsRight answer ((n, a) ∷ cache)
put-IsRight {answer = answer} n a e r = record {
  right = λ m b h. elim (Bool-cases (n == m)) [
    | inl same ↦
        let numbers : n ≡ m = ground (arith, same) in
        let values : a ≡ b = unfold find in ground (arith, h, same) in
        ap answer (sym numbers) ∙ e ∙ ap ok values
    | inr other ↦ r.right m b (unfold find in ground (arith, h, other))
  ];
}

module _ (client : Client) (db : Option EnrichmentCache) where
  abbrev pub or_ask : {A : Type 0} → Option A → Outcome A → Outcome A
  or_ask none later = later
  or_ask (some a) later = ok a

  -- The answers without a cache: the row of a merged pull request, else the client's.
  abbrev pub pr_answer : ℕ → Outcome PullRequest
  pr_answer number = or_ask (frozen_pr db number) (client.get_pull_request number)

  abbrev pub fetched_reviews : ℕ → Outcome (List Review)
  fetched_reviews number = elim (client.list_reviews number) [
    | failed ↦ failed
    | ok rs ↦ elim (has_dismissed rs) [
      | false ↦ ok rs
      | true ↦ elim (client.list_review_dismissals number) [
        | failed ↦ failed
        | ok ds ↦ ok (resolve_dismissals ds rs)
      ]
    ]
  ]

  abbrev pub reviews_answer : ℕ → Outcome (List Review)
  reviews_answer number =
      or_ask (if_merged (is_pr_merged db number) (stored db (λ d. d.db_reviews_for_pr number)))
        (fetched_reviews number)

  abbrev pub commits_answer : ℕ → Outcome (List Commit)
  commits_answer number =
      or_ask (if_merged (is_pr_merged db number) (stored db (λ d. d.db_commits_for_pr number)))
        (client.list_pr_commits number)

  pub record IsCoherent (ce : CachingEnricher) : Type 0 where
    pub prs : IsRight pr_answer ce.pr_cache
    pub reviews : IsRight reviews_answer ce.review_cache
    pub commits : IsRight commits_answer ce.pr_commit_cache

  -- A look-up that gives an answer and leaves coherent caches behind.
  pub record Answers {A : Type 0} (answer : Outcome A) (x : Outcome A × CachingEnricher)
      : Type 0 where
    pub same : x.0 ≡ answer
    pub coherent : IsCoherent x.1

  index_pr-IsCoherent :
      (pr : PullRequest) (ce : CachingEnricher) → IsCoherent ce → IsCoherent (index_pr pr ce)
  unfolding index_pr
  index_pr-IsCoherent pr ce c =
      on_if IsCoherent
        (pr.merge_commit_sha == []
          || any (λ n. n == pr.number)
              (or_no_numbers (find pr.merge_commit_sha ce.merge_commit_idx)))
        c (record { prs = c.prs; reviews = c.reviews; commits = c.commits })

  -- What is kept of a pull request, a list of reviews or a list of commits is right.
  keep_pr-IsCoherent :
      (n : ℕ) (pr : PullRequest) (ce : CachingEnricher)
      → pr_answer n ≡ ok pr
      → IsCoherent ce
      → IsCoherent (keep_pr client db n pr ce)
  keep_pr-IsCoherent n pr ce e c =
      index_pr-IsCoherent pr (record ce { pr_cache = (n, pr) ∷ ce.pr_cache })
        (record { prs = put-IsRight n pr e c.prs; reviews = c.reviews; commits = c.commits })

  counted :
      {s : ApiStats} {ce : CachingEnricher} → IsCoherent ce → IsCoherent (record ce { stats = s })
  counted c = record { prs = c.prs; reviews = c.reviews; commits = c.commits }

  get_pr-Answers :
      (n : ℕ) (ce : CachingEnricher) → IsCoherent ce → Answers (pr_answer n) (get_pr client db n ce)
  unfolding get_pr
  get_pr-Answers n ce c = elim (Option-cases (find n ce.pr_cache)) [
    | inr (pr, e) ↦
        rw (e, get_pr) (record { same = sym (c.prs.right n pr e); coherent = counted c })
    | inl e ↦ elim (Option-cases (frozen_pr db n)) [
      | inr (pr, f) ↦
          rw (e, f, get_pr)
            (record { same = refl; coherent = counted (keep_pr-IsCoherent n pr ce (rw f refl) c) })
      | inl f ↦ elim (Outcome-cases (client.get_pull_request n)) [
        | inl g ↦ rw (e, f, g, get_pr) (record { same = refl; coherent = counted c })
        | inr (pr, g) ↦
            rw (e, f, g, get_pr)
              (record {
                same = refl;
                coherent = keep_pr-IsCoherent n pr _ (rw (f, g) refl) (counted c);
              })
      ]
    ]
  ]

  keep_reviews-IsCoherent :
      (n : ℕ) (rs : List Review) (ce : CachingEnricher)
      → reviews_answer n ≡ ok rs
      → IsCoherent ce
      → IsCoherent (keep_reviews client db n rs ce)
  keep_reviews-IsCoherent n rs ce e c = record {
    prs = c.prs;
    reviews = put-IsRight n rs e c.reviews;
    commits = c.commits;
  }

  fetch_reviews-Answers :
      (n : ℕ) (ce : CachingEnricher)
      → if_merged (is_pr_merged db n) (stored db (λ d. d.db_reviews_for_pr n)) ≡ none
      → IsCoherent ce
      → Answers (fetched_reviews n) (fetch_reviews client db n ce)
  unfolding fetch_reviews
  fetch_reviews-Answers n ce f c = elim (Outcome-cases (client.list_reviews n)) [
    | inl g ↦ rw (g, fetch_reviews, fetched_reviews) (record { same = refl; coherent = counted c })
    | inr (rs, g) ↦ elim (Bool-cases (has_dismissed rs)) [
      | inr d ↦
          rw (g, d, fetch_reviews, fetched_reviews)
            (record {
              same = refl;
              coherent =
                  keep_reviews-IsCoherent n rs _ (rw (f, g, d, fetched_reviews) refl) (counted c);
            })
      | inl d ↦ elim (Outcome-cases (client.list_review_dismissals n)) [
        | inl k ↦
            rw (g, d, k, fetch_reviews, fetched_reviews)
              (record { same = refl; coherent = counted c })
        | inr (ds, k) ↦
            rw (g, d, k, fetch_reviews, fetched_reviews)
              (record {
                same = refl;
                coherent =
                    keep_reviews-IsCoherent n (resolve_dismissals ds rs) _
                      (rw (f, g, d, k, fetched_reviews) refl) (counted c);
              })
      ]
    ]
  ]

  get_reviews-Answers :
      (n : ℕ) (ce : CachingEnricher)
      → IsCoherent ce
      → Answers (reviews_answer n) (get_reviews client db n ce)
  unfolding get_reviews
  get_reviews-Answers n ce c = elim (Option-cases (find n ce.review_cache)) [
    | inr (rs, e) ↦
        rw (e, get_reviews) (record { same = sym (c.reviews.right n rs e); coherent = counted c })
    | inl e ↦
        elim (Option-cases
          (if_merged (is_pr_merged db n) (stored db (λ d. d.db_reviews_for_pr n)))) [
            | inr (rs, f) ↦
                rw (e, f, get_reviews)
                  (record {
                    same = refl;
                    coherent = counted (keep_reviews-IsCoherent n rs ce (rw f refl) c);
                  })
            | inl f ↦ rw (e, f, get_reviews) (fetch_reviews-Answers n ce f c)
          ]
  ]

  keep_commits-IsCoherent :
      (n : ℕ) (cs : List Commit) (ce : CachingEnricher)
      → commits_answer n ≡ ok cs
      → IsCoherent ce
      → IsCoherent (keep_commits client db n cs ce)
  keep_commits-IsCoherent n cs ce e c = record {
    prs = c.prs;
    reviews = c.reviews;
    commits = put-IsRight n cs e c.commits;
  }

  get_pr_commits-Answers :
      (n : ℕ) (ce : CachingEnricher)
      → IsCoherent ce
      → Answers (commits_answer n) (get_pr_commits client db n ce)
  unfolding get_pr_commits
  get_pr_commits-Answers n ce c = elim (Option-cases (find n ce.pr_commit_cache)) [
    | inr (cs, e) ↦
        rw (e, get_pr_commits)
          (record { same = sym (c.commits.right n cs e); coherent = counted c })
    | inl e ↦
        elim (Option-cases
          (if_merged (is_pr_merged db n) (stored db (λ d. d.db_commits_for_pr n)))) [
            | inr (cs, f) ↦
                rw (e, f, get_pr_commits)
                  (record {
                    same = refl;
                    coherent = counted (keep_commits-IsCoherent n cs ce (rw f refl) c);
                  })
            | inl f ↦ elim (Outcome-cases (client.list_pr_commits n)) [
              | inl g ↦ rw (e, f, g, get_pr_commits) (record { same = refl; coherent = counted c })
              | inr (cs, g) ↦
                  rw (e, f, g, get_pr_commits)
                    (record {
                      same = refl;
                      coherent = keep_commits-IsCoherent n cs _ (rw (f, g) refl) (counted c);
                    })
            ]
          ]
  ]

-- With coherent caches the three look-ups give what the store and the client alone give, and leave
-- the caches coherent: the rows of a pull request come from the store only where it is merged there.
pub lookups-Answers :
    (client : Client) (db : Option EnrichmentCache) (n : ℕ) (ce : CachingEnricher)
    → IsCoherent client db ce
    → Answers client db (pr_answer client db n) (get_pr client db n ce)
      × Answers client db (reviews_answer client db n) (get_reviews client db n ce)
      × Answers client db (commits_answer client db n) (get_pr_commits client db n ce)
lookups-Answers client db n ce c = (
  get_pr-Answers client db n ce c,
  get_reviews-Answers client db n ce c,
  get_pr_commits-Answers client db n ce c,
)
