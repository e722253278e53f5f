-- ===== src/Audit/Refresh/Ancestry.antt =====
-- The walk along first parents, against the graph that the commits describe.
use gh_audit.Audit.Exempt.{is_exempt_commit}
use mathlib.Core.List.{append_assoc, append-nil}
use gh_audit.Text.{Text}
use gh_audit.Model.{ExemptAuthor, Review, Commit}
use gh_audit.Audit.Refresh.{covered, post_approval_by_graph, is_approval_refreshable, walk, by_sha}
use gh_audit.Prelude.{
  ℕ, zero, suc, ◌≡◌, refl, sym, ap, ◌∙◌, ◌≢◌, ◌⊎◌, inl, inr, Bool, true, false, Option, none, some,
  List, [], ◌∷◌, ◌++◌, Memᴰ, arith, Bool-cases, Option-cases, ◌==◌, nat_eq, text_beq_iff, text_eq,
  length, all, all_elim,
}

-- `Path commits from to post`: the first parents lead from `from` down to `to`, first met there,
-- through exactly the commits `post`.
pub data FirstParents (commits : List Commit) : Text → Text → List Commit → Type 0 where
  arrived : (sha to : Text) → sha ≡ to → FirstParents commits sha to []
  parent :
      (sha next to : Text) (c : Commit) (others : List Text) (post : List Commit)
      → sha ≢ to
      → by_sha commits sha ≡ some c
      → c.parent_shas ≡ next ∷ others
      → FirstParents commits next to post
      → FirstParents commits sha to (c ∷ post)

pub by_sha-mem :
    (commits : List Commit) (sha : Text) (c : Commit)
    → by_sha commits sha ≡ some c
    → Memᴰ c commits × (c.sha ≡ sha)
unfolding by_sha
by_sha-mem [] sha c h = cc
by_sha-mem (d ∷ ds) sha c h = elim (Option-cases (by_sha ds sha)) [
  | inl e ↦ (Memᴰ.head (ground arith), ground (arith, text_beq_iff d.sha sha))
  | inr found ↦ let (m, p) = by_sha-mem ds sha c (ground (arith, found.1)) in (Memᴰ.tail m, p)
]

-- One round of the walk that goes on.
record Steps (commits : List Commit) (to : Text) (rounds : ℕ) (cur : Text)
    (before post : List Commit) : Type 0 where
  commit : Commit
  next : Text
  others : List Text
  apart : cur ≢ to
  known : by_sha commits cur ≡ some commit
  parents : commit.parent_shas ≡ next ∷ others
  rest : walk commits to rounds next (before ++ commit ∷ []) ≡ some post

walk-Steps :
    (commits : List Commit) (to : Text) (n : ℕ) (cur : Text) (before post : List Commit)
    → (cur == to) ≡ false
    → walk commits to (suc n) cur before ≡ some post
    → Steps commits to n cur before post
unfolding walk
walk-Steps commits to n cur before post away h = elim (Option-cases (by_sha commits cur)) [
  | inl gone ↦ absurd (ground arith)
  | inr found ↦ on found.0 found.0.parent_shas found.1 refl
]
  where
    on :
        (c : Commit) (ps : List Text)
        → by_sha commits cur ≡ some c
        → c.parent_shas ≡ ps
        → Steps commits to n cur before post
    on c [] known e = absurd (ground arith)
    on c (p ∷ ps) known e = record {
      commit = c;
      next = p;
      others = ps;
      apart = λ same. ground (arith, text_beq_iff cur to);
      known = known;
      parents = e;
      rest = ground arith;
    }

walk-FirstParents :
    (commits : List Commit) (to : Text) (rounds : ℕ) (cur : Text) (before post : List Commit)
    → walk commits to rounds cur before ≡ some post
    → (passed : List Commit) × (post ≡ before ++ passed) × FirstParents commits cur to passed
walk-FirstParents commits to zero cur before post h = unfold walk in cc
walk-FirstParents commits to (suc n) cur before post h = elim (Bool-cases (cur == to)) [
  | inl e ↦
      let same : cur ≡ to = (text_beq_iff cur to).0 e in
      let done : before ≡ post = unfold walk in ground arith in
      ([], sym done ∙ sym (append-nil before), arrived cur to same)
  | inr e ↦
      let s = walk-Steps commits to n cur before post e h in
      let (passed, eq, path) =
        walk-FirstParents commits to n s.next (before ++ s.commit ∷ []) post s.rest in
      (
        s.commit ∷ passed,
        eq ∙ append_assoc before (s.commit ∷ []) passed,
        parent cur s.next to s.commit s.others passed s.apart s.known s.parents path,
      )
]

pub FirstParents-mem :
    {commits : List Commit} {sha to : Text} {post : List Commit}
    → FirstParents commits sha to post
    → (c : Commit) → Memᴰ c post
    → Memᴰ c commits
FirstParents-mem (arrived s t e) c m = elim m [ ]
FirstParents-mem {commits} (parent s next t d others post away known e rest) c (Memᴰ.head p) =
    rw p (by_sha-mem commits s d known).0
FirstParents-mem (parent s next t d others post away known e rest) c (Memᴰ.tail m) =
    FirstParents-mem rest c m

pub post_approval_by_graph-path :
    (approved_sha head_sha : Text) (commits : List Commit) {post : List Commit}
    → post_approval_by_graph approved_sha head_sha commits ≡ some post
    → FirstParents commits head_sha approved_sha post
post_approval_by_graph-path approved head commits {post} h =
    let (passed, same, path) =
      walk-FirstParents commits approved (suc (length commits)) head [] post
        (unfold post_approval_by_graph in ground arith) in
    rw same path

-- What the carve-out asks of the commits that came behind an approval: they are the first-parent
-- path from the head down to the approved commit, there is one at least, all are commits of the
-- branch, and each is the merge commit or exempt.
pub record OnlyExemptSince (approval : Review) (branch : List Commit)
    (head_sha merge_commit_sha : Text) (exempt_authors : List ExemptAuthor) (require_signing : Bool)
    : Type 0 where
  pub post : List Commit
  pub path : FirstParents branch head_sha approval.commit_id post
  pub some_came : post ≢ []
  pub of_branch : (c : Commit) → Memᴰ c post → Memᴰ c branch
  pub all_exempt :
      (c : Commit)
      → Memᴰ c post
      → ((merge_commit_sha ≢ []) × (c.sha ≡ merge_commit_sha))
        ⊎ (is_exempt_commit c exempt_authors require_signing ≡ true)

-- An approval of an older commit is refreshed only where a first-parent path of one or more
-- commits of the branch leads from the head down to the approved commit, and each of them is
-- exempt or the merge commit.
pub refreshable_sound :
    (approval : Review) (branch : List Commit) (head_sha merge_commit_sha : Text)
    (exempt_authors : List ExemptAuthor) (require_signing : Bool)
    → is_approval_refreshable approval branch head_sha merge_commit_sha exempt_authors
        require_signing
      ≡ true
    → OnlyExemptSince approval branch head_sha merge_commit_sha exempt_authors require_signing
refreshable_sound a branch head merge es rs h =
    found (post_approval_by_graph a.commit_id head branch) refl
  where
    found :
        (o : Option (List Commit))
        → post_approval_by_graph a.commit_id head branch ≡ o
        → OnlyExemptSince a branch head merge es rs
    found none e = absurd (unfold is_approval_refreshable in ground arith)
    found (some post) e =
        let whole : FirstParents branch head a.commit_id post =
          post_approval_by_graph-path a.commit_id head branch e in
        let every : all (covered merge es rs) post ≡ true =
          unfold is_approval_refreshable in ground arith in
        record {
          post = post;
          path = whole;
          some_came = λ none_came.
              unfold is_approval_refreshable in ground (arith, ap (length {A = Commit}) none_came);
          of_branch = FirstParents-mem whole;
          all_exempt = λ c m. elim (Bool-cases (is_exempt_commit c es rs)) [
            | inl exempt ↦ inr exempt
            | inr other ↦
                let own = all_elim (covered merge es rs) every m in
                inl (
                  ground (arith, own, text_beq_iff merge []),
                  ground (arith, own, text_beq_iff c.sha merge),
                )
          ];
        }
