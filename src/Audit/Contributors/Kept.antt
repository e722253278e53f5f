-- ===== src/Audit/Contributors/Kept.antt =====
-- filterNonEmptyContributors loses no author who wrote code.
use gh_audit.Audit.Contributors.Groups.{group_by_author-Filed, group_by_author-Led}
use gh_audit.Audit.Contributors.Self.{of_branch, is_self_approval_iff}
use gh_audit.Text.Decimal.{atoi, atoi-itoa, itoa}
use gh_audit.Model.{trusted_id, Review, PullRequest, Commit}
use gh_audit.Audit.Types.{self_approval, FetchStats, StatsFetcher}
use gh_audit.Text.{text, to_lower, Text}
use gh_audit.Audit.Contributors.{
  is_self_approval, filter_non_empty_contributors, contributing, group_by_author, is_anonymous,
  author_key, refetched, AuthorGroup, positive_stats, has_non_empty_contribution,
}
use gh_audit.Prelude.{
  ℕ, ◌≡◌, refl, sym, ap, ◌∙◌, ◌≢◌, inl, inr, true, false, none, some, List, [], ◌∷◌, ◌++◌, Memᴰ,
  arith, Bool-cases, nat_eq, text_eq, ◌/=◌, all, any_intro,
}

-- A commit that is not known to be empty: it has content by its own statistics or by the fetched
-- ones, or nothing can be fetched.
pub data MayHaveCode (org repo : Text) (fetch_stats : StatsFetcher) (c : Commit) : Type 0 where
  by_stats :
      positive_stats c.additions c.deletions c.files_changed ≡ true
      → MayHaveCode org repo fetch_stats c
  offline : fetch_stats ≡ none → MayHaveCode org repo fetch_stats c
  by_fetch :
      {fetch : FetchStats}
      → fetch_stats ≡ some fetch
      → refetched (fetch self_approval org repo c.sha) ≡ true
      → MayHaveCode org repo fetch_stats c

contribution :
    (org repo : Text) (commits : List Commit) (fetch_stats : StatsFetcher) {c : Commit}
    → Memᴰ c commits
    → MayHaveCode org repo fetch_stats c
    → has_non_empty_contribution org repo commits fetch_stats ≡ true
unfolding has_non_empty_contribution
contribution org repo commits fs m (by_stats h) =
    ground (
      arith,
      any_intro (λ (c : Commit). positive_stats c.additions c.deletions c.files_changed) m h,
    )
contribution org repo commits fs m (offline e) = ground arith
contribution org repo commits fs m (by_fetch {fetch = f} e h) =
    ground (arith, any_intro (λ (c : Commit). refetched (f self_approval org repo c.sha)) m h)

contributing-mem :
    (org repo : Text) (fs : StatsFetcher) (gs : List AuthorGroup) (g : AuthorGroup)
    → Memᴰ g gs
    → has_non_empty_contribution org repo g.commits fs ≡ true
    → Memᴰ g.representative (contributing org repo fs gs)
unfolding contributing
contributing-mem org repo fs [] g m h = elim m [ ]
contributing-mem org repo fs (x ∷ gs) g (Memᴰ.head p) h = rw (← p, h) (Memᴰ.head refl)
contributing-mem org repo fs (x ∷ gs) g (Memᴰ.tail m) h =
    elim (Bool-cases (has_non_empty_contribution org repo x.commits fs)) [
      | inl e ↦ rw e (Memᴰ.tail (contributing-mem org repo fs gs g m h))
      | inr e ↦ rw e (contributing-mem org repo fs gs g m h)
    ]

-- An author whose commit may have code is represented, by a commit with the same key that was
-- given.
filter_non_empty_contributors-key :
    (org repo : Text) (cs : List Commit) (fs : StatsFetcher) (x : Commit)
    → is_anonymous x ≡ false
    → Memᴰ x cs
    → MayHaveCode org repo fs x
    → (c : Commit) × Memᴰ c (filter_non_empty_contributors org repo cs fs)
      × (author_key c ≡ author_key x)
      × Memᴰ c cs
unfolding filter_non_empty_contributors
filter_non_empty_contributors-key org repo cs fs x named m code =
    let (g, at, key, inside) = group_by_author-Filed [] cs x named m in
    let (led, given) =
      group_by_author-Led (λ c. Memᴰ c cs) [] cs (λ c n. n) (λ g n. elim n [ ]) g at in
    (
      g.representative,
      contributing-mem org repo fs (group_by_author [] cs) g at
          (contribution org repo g.commits fs inside code),
      led ∙ key,
      given,
    )

-- No login holds a colon.
abbrev pub IsLogin : Text → Type 0
IsLogin login = all (λ c. c /= b':') login ≡ true

itoa-injective : (a b : ℕ) → itoa a ≡ itoa b → a ≡ b
itoa-injective a b e = cc (atoi-itoa a, atoi-itoa b, ap atoi e)

lowered : (login rest : Text) → IsLogin login → to_lower login ≢ text "id:" ++ rest
unfolding to_lower
lowered [] rest h e = cc
lowered (a ∷ []) rest h e = cc
lowered (a ∷ b ∷ []) rest h e = cc
lowered (a ∷ b ∷ c ∷ s) rest h e = ground arith

-- The key tells accounts apart, as far as logins hold no colon.
author_key-id :
    (c x : Commit)
    → IsLogin c.author_login
    → x.author_id ≢ 0
    → author_key c ≡ author_key x
    → c.author_id ≡ x.author_id
unfolding author_key
author_key-id c x login known e =
    ground (
      arith,
      lowered c.author_login (itoa x.author_id) login,
      itoa-injective c.author_id x.author_id,
    )

-- Nobody approves code of their own: where the author logins of the pull request's branch hold no
-- colon, the approval of a trusted reviewer who wrote a commit of the branch that may have code is
-- a self-approval.
pub own_code_rejected :
    (commit : Commit) (pr : PullRequest) (branch : List Commit) (fs : StatsFetcher)
    (review : Review) (x : Commit)
    → ((c : Commit) → Memᴰ c branch → IsLogin c.author_login)
    → trusted_id review.reviewer_id ≡ true
    → Memᴰ x branch
    → review.reviewer_id ≡ x.author_id
    → MayHaveCode commit.org commit.repo fs x
    → is_self_approval review commit pr
        (filter_non_empty_contributors commit.org commit.repo branch fs)
      ≡ true
own_code_rejected commit pr branch fs review x logins trusted m wrote code =
    let known : x.author_id ≢ 0 = λ e. unfold trusted_id in ground arith in
    let (c, kept, key, given) =
      filter_non_empty_contributors-key commit.org commit.repo branch fs x (ground arith) m code in
    (is_self_approval_iff review commit pr _ trusted).1
      (of_branch c kept (wrote ∙ sym (author_key-id c x (logins c given) known key)))
