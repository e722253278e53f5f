-- ===== src/Audit/Contributors/Self.antt =====
-- Whose approval isSelfApproval rejects.
use gh_audit.Audit.Contributors.{is_self_approval}
use gh_audit.Audit.Types.{same_user}
use gh_audit.Model.{trusted_id, PullRequest, Review, Commit}
use gh_audit.Github.Merge.{is_clean, clean_merge, classify_merge, MergeKind}
use gh_audit.Prelude.{
  ℕ, ◌≡◌, ◌≢◌, ◌↔◌, inl, inr, Bool, true, not, ◌&&◌, List, Memᴰ, arith, Bool-cases, nat_eq, text_eq,
  any_elim, any_intro,
}

-- A trusted reviewer who wrote the pull request, or the commit unless it is a clean merge, or one
-- of the given branch commits.
pub data IsAuthor (reviewer : ℕ) (commit : Commit) (pr : PullRequest) (branch : List Commit)
    : Type 0 where
  of_pr : reviewer ≡ pr.author_id → IsAuthor reviewer commit pr branch
  of_commit :
      classify_merge commit.parent_count commit.message commit.committer_login commit.is_verified
        ≢ clean_merge
      → reviewer ≡ commit.author_id
      → IsAuthor reviewer commit pr branch
  of_branch :
      (c : Commit) → Memᴰ c branch → reviewer ≡ c.author_id → IsAuthor reviewer commit pr branch

same_user_iff : (a b : ℕ) → trusted_id a ≡ true → (same_user a b ≡ true) ↔ (a ≡ b)
unfolding same_user
same_user_iff a b h = ground arith

clean_iff : (k : MergeKind) → (is_clean k ≡ true) ↔ (k ≡ clean_merge)
clean_iff k = ground arith

-- The approval of a trusted reviewer is a self-approval exactly when the reviewer is an author.
pub is_self_approval_iff :
    (review : Review) (commit : Commit) (pr : PullRequest) (branch : List Commit)
    → trusted_id review.reviewer_id ≡ true
    → (is_self_approval review commit pr branch ≡ true)
      ↔ IsAuthor review.reviewer_id commit pr branch
unfolding is_self_approval
is_self_approval_iff review commit pr branch trusted = (found, rejected)
  where
    me : ℕ
    me = review.reviewer_id

    kind : MergeKind
    kind =
        classify_merge commit.parent_count commit.message commit.committer_login commit.is_verified

    wrote : Commit → Bool
    wrote c = same_user me c.author_id

    found : is_self_approval review commit pr branch ≡ true → IsAuthor me commit pr branch
    found h = elim (Bool-cases (same_user me pr.author_id)) [
      | inl a ↦ of_pr ((same_user_iff me pr.author_id trusted).0 a)
      | inr a ↦ elim (Bool-cases (not (is_clean kind) && same_user me commit.author_id)) [
        | inl b ↦
            of_commit (ground (arith, clean_iff kind))
              ((same_user_iff me commit.author_id trusted).0 (ground arith))
        | inr b ↦
            let hit = any_elim wrote branch (ground arith) in
            of_branch hit.0 hit.1 ((same_user_iff me hit.0.author_id trusted).0 hit.2)
      ]
    ]

    rejected : IsAuthor me commit pr branch → is_self_approval review commit pr branch ≡ true
    rejected (of_pr e) = ground (arith, (same_user_iff me pr.author_id trusted).1 e)
    rejected (of_commit n e) =
        ground (arith, clean_iff kind, (same_user_iff me commit.author_id trusted).1 e)
    rejected (of_branch c m e) =
        ground (arith, any_intro wrote m ((same_user_iff me c.author_id trusted).1 e))
