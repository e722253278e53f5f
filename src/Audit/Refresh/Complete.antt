-- ===== src/Audit/Refresh/Complete.antt =====
-- The walk's guard against cycles cuts no path short.
use mathlib.Core.List.{append_assoc, append-nil}
use gh_audit.Audit.Refresh.Ancestry.{
  by_sha-mem, parent, arrived, FirstParents-mem, post_approval_by_graph-path, FirstParents,
}
use gh_audit.Audit.Refresh.{post_approval_by_graph, walk, has_parents}
use gh_audit.Text.{Text}
use gh_audit.Model.{Commit}
use gh_audit.Prelude.{
  subst, Apart, length-Apart, ℕ, zero, suc, ◌+◌, ◌≤◌, ◌<◌, ◌≡◌, sym, ap, ◌∙◌, ◌≢◌, ◌↔◌, true, false,
  some, List, [], ◌∷◌, ◌++◌, Memᴰ, arith, ◌==◌, nat_eq, text_beq_iff, text_eq, length, any,
}

-- With a round for each commit of the path, and one to see the end, the walk finds the path.
walk-path :
    (commits : List Commit) (rounds : ℕ) (before : List Commit) {sha to : Text} {post : List Commit}
    → FirstParents commits sha to post
    → length post < rounds
    → walk commits to rounds sha before ≡ some (before ++ post)
unfolding walk
walk-path commits zero before p h = absurd (omega arith)
walk-path commits (suc n) before (arrived s t e) h =
    let here : (s == t) ≡ true = (text_beq_iff s t).1 e in ground (arith, here, append-nil before)
walk-path commits (suc n) before (parent s next t c others post away known ps rest) h =
    let apart : (s == t) ≡ false = ground (arith, text_beq_iff s t) in
    let more = walk-path commits n (before ++ c ∷ []) rest (omega arith) in
    ground (arith, apart, known, ps, more, append_assoc before (c ∷ []) post)

some-inj : {A : Type 0} {x y : A} → some x ≡ some y → x ≡ y
some-inj e = cc

-- Two paths from one commit to another are one.
FirstParents-unique :
    (commits : List Commit) (sha to : Text) (p q : List Commit)
    → FirstParents commits sha to p
    → FirstParents commits sha to q
    → p ≡ q
FirstParents-unique commits sha to p q hp hq =
    let n : ℕ = suc (length p + length q) in
    some-inj
      (sym (walk-path commits n [] hp (omega arith)) ∙ walk-path commits n [] hq (omega arith))

-- From any commit on a path the rest of the path leads on.
FirstParents-from :
    {commits : List Commit} {sha to : Text} {post : List Commit}
    → FirstParents commits sha to post
    → (d : Commit) → Memᴰ d post
    → (rest : List Commit) × FirstParents commits d.sha to rest × (length rest ≤ length post)
FirstParents-from (arrived s t e) d m = elim m [ ]
FirstParents-from {commits} (parent s next t c others post away known ps rest) d (Memᴰ.head p) =
    let at : d.sha ≡ s = ap (λ (x : Commit). x.sha) p ∙ (by_sha-mem commits s c known).1 in
    (c ∷ post, rw at (parent s next t c others post away known ps rest), omega arith)
FirstParents-from (parent s next t c others post away known ps rest) d (Memᴰ.tail m) =
    let (r, path, short) = FirstParents-from rest d m in (r, path, omega arith)

-- No SHA comes twice on a path.
FirstParents-Apart :
    {commits : List Commit} {sha to : Text} {post : List Commit}
    → FirstParents commits sha to post
    → Apart (λ (c : Commit). c.sha) post
FirstParents-Apart (arrived s t e) = tt
FirstParents-Apart {commits} (parent s next t c others post away known ps rest) =
    (λ d m same. looped d m same, FirstParents-Apart rest)
  where
    looped : (d : Commit) → Memᴰ d post → d.sha ≡ c.sha → ⊥
    looped d m same =
        let (r, path, short) = FirstParents-from rest d m in
        let at : d.sha ≡ s = same ∙ (by_sha-mem commits s c known).1 in
        let one =
          FirstParents-unique commits s t r (c ∷ post)
            (subst (λ x. FirstParents commits x t r) at path)
            (parent s next t c others post away known ps rest) in
        absurd (omega (arith, ap (length {A = Commit}) one))

-- A path passes no more commits than there are.
length-FirstParents :
    {commits : List Commit} {sha to : Text} {post : List Commit}
    → FirstParents commits sha to post
    → length post ≤ length commits
length-FirstParents {commits} {post} p =
    length-Apart (λ (c : Commit). c.sha) post commits (FirstParents-Apart p) (FirstParents-mem p)

-- Where neither SHA is empty and some commit of the branch has its parents on record, the
-- positional check finds a list of commits exactly when it is the first-parent path from the head
-- to the approved commit.
pub post_approval_by_graph_iff :
    (approved_sha head_sha : Text) (commits : List Commit) (post : List Commit)
    → approved_sha ≢ []
    → head_sha ≢ []
    → any has_parents commits ≡ true
    → (post_approval_by_graph approved_sha head_sha commits ≡ some post)
      ↔ FirstParents commits head_sha approved_sha post
post_approval_by_graph_iff approved head commits post a h known = (
  post_approval_by_graph-path approved head commits,
  λ path.
      let walked =
        walk-path commits (suc (length commits)) [] path
          (omega (arith, length-FirstParents path)) in
      unfold post_approval_by_graph in
      ground (arith, walked, text_beq_iff approved [], text_beq_iff head []),
)
