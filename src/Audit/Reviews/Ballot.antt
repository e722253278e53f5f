-- ===== src/Audit/Reviews/Ballot.antt =====
-- What the latest review of one reviewer says, for reviews in the order in which they were sent.
use gh_audit.Text.{Text}
use gh_audit.Audit.Reviews.Fold.{
  get_review-review_loop, as_of_merge, is_eligible, displace, latest_of,
}
use gh_audit.Model.{Review, PullRequest}
use gh_audit.Prelude.{
  ℕ, ◌<◌, ◌≡◌, refl, ap, ◌≢◌, ◌⊎◌, inl, inr, Bool, true, false, not, ◌&&◌, Option, none, some, List,
  [], ◌∷◌, arith, if◌then◌else◌, Bool-cases, ◌==◌, nat_eq, text_beq_iff, text_eq, length,
}
use gh_audit.Audit.Reviews.{
  get_review, latest_review_states_on_final, supersedes, reviewer_key, commented, approved,
}

-- A reviewer's eligible reviews, as of the merge, in the order given.
unfoldable pub ballot : PullRequest → Text → List Review → List Review
ballot pr key [] = []
ballot pr key (review ∷ reviews) =
    let rest = ballot pr key reviews in
    if is_eligible pr review && reviewer_key review == key
    then as_of_merge pr review ∷ rest
    else rest

abbrev cast : Option Review → List Review → Option Review
cast latest [] = latest
cast latest (r ∷ rs) = cast (displace r latest) rs

latest_of-eq-cast :
    (pr : PullRequest) (key : Text) (latest : Option Review) (reviews : List Review)
    → latest_of pr key latest reviews ≡ cast latest (ballot pr key reviews)
unfolding latest_of ballot
latest_of-eq-cast pr key latest [] = refl
latest_of-eq-cast pr key latest (r ∷ rs) =
    elim (Bool-cases (is_eligible pr r && reviewer_key r == key)) [
      | inl e ↦ rw (e, latest_of-eq-cast pr key (displace (as_of_merge pr r) latest) rs)
      | inr e ↦ rw (e, latest_of-eq-cast pr key latest rs)
    ]

-- The last review that is not a comment.
unfoldable pub last_vote : Option Review → List Review → Option Review
last_vote vote [] = vote
last_vote vote (r ∷ rs) = last_vote (if r.state == commented then vote else some r) rs

abbrev pub is_approval : Option Review → Bool
is_approval none = false
is_approval (some r) = r.state == approved

-- Sent earlier; of two sent in one second the id tells.
abbrev pub Earlier : Review → Review → Type 0
Earlier r s =
    (r.submitted_at < s.submitted_at)
    ⊎ ((r.submitted_at ≡ s.submitted_at) × (r.review_id < s.review_id))

abbrev pub Ascending : List Review → Type 0
Ascending [] = Unit
Ascending (r ∷ []) = Unit
Ascending (r ∷ s ∷ rs) = Earlier r s × Ascending (s ∷ rs)

Earlier-trans : (r s t : Review) → Earlier r s → Earlier s t → Earlier r t
Earlier-trans r s t h k = ground arith

-- The latest review so far, against the last vote so far.
record Agrees (latest vote : Option Review) : Type 0 where
  approves : is_approval vote ≡ true → latest ≡ vote
  other : is_approval vote ≡ false → is_approval latest ≡ false

abbrev Before : Option Review → Review → Type 0
Before none s = Unit {0}
Before (some r) s = Earlier r s

approved-ne-commented : approved ≢ commented
approved-ne-commented e = absurd (omega (arith, ap (length {A = ℕ}) e))

-- A review is not both.
one_state : (t : Text) → (t == approved) ≡ true → (t == commented) ≡ false
one_state t h =
    ground (arith, text_beq_iff t approved, text_beq_iff t commented, approved-ne-commented)

displace-Before :
    (r s : Review) (latest : Option Review)
    → Before latest r
    → Earlier r s
    → Before (displace r latest) s
displace-Before r s none h k = k
displace-Before r s (some l) h k = elim (Bool-cases (supersedes r l)) [
  | inl e ↦ rw e k
  | inr e ↦ rw e (Earlier-trans l r s h k)
]

-- The next review, sent later, displaces the latest unless it comments on an approval.
supersedes_later :
    (r l : Review)
    → Earlier l r
    → supersedes r l ≡ not (r.state == commented && l.state == approved)
unfolding supersedes
supersedes_later r l h = ground (arith, one_state r.state, one_state l.state)

displace-Agrees :
    (r : Review) (latest vote : Option Review)
    → Before latest r
    → Agrees latest vote
    → Agrees (displace r latest) (if r.state == commented then vote else some r)
displace-Agrees r none none h a = ground (arith, one_state r.state)
displace-Agrees r none (some v) h a = ground (arith, one_state r.state)
displace-Agrees r (some l) none h a = ground (arith, one_state r.state, supersedes_later r l h)
displace-Agrees r (some l) (some v) h a = ground (arith, one_state r.state, supersedes_later r l h)

cast-Agrees :
    (latest vote : Option Review) (r : Review) (rs : List Review)
    → Before latest r
    → Ascending (r ∷ rs)
    → Agrees latest vote
    → is_approval (cast latest (r ∷ rs)) ≡ is_approval (last_vote vote (r ∷ rs))
unfolding last_vote
cast-Agrees latest vote r [] h asc a = agreed (displace-Agrees r latest vote h a)
  where
    agreed : {l v : Option Review} → Agrees l v → is_approval l ≡ is_approval v
    agreed {l} {v} b = elim (Bool-cases (is_approval v)) [
      | inl e ↦ rw (b.approves e)
      | inr e ↦ rw (e, b.other e)
    ]
cast-Agrees latest vote r (s ∷ rs) h asc a =
    cast-Agrees (displace r latest) (if r.state == commented then vote else some r) s rs
      (displace-Before r s latest h asc.0) asc.1 (displace-Agrees r latest vote h a)

cast-last_vote :
    (rs : List Review) → Ascending rs → is_approval (cast none rs) ≡ is_approval (last_vote none rs)
unfolding last_vote
cast-last_vote [] asc = refl
cast-last_vote (r ∷ rs) asc =
    cast-Agrees none none r rs tt asc (record { approves = λ e. cc; other = λ e. refl })

-- Where a reviewer's eligible reviews come in the order in which they were sent, that reviewer
-- counts as approving exactly when the last of them that is not a comment is an approval.
pub latest_review-is_approval :
    (pr : PullRequest) (key : Text) (reviews : List Review)
    → Ascending (ballot pr key reviews)
    → is_approval (get_review key (latest_review_states_on_final reviews pr).0)
      ≡ is_approval (last_vote none (ballot pr key reviews))
unfolding latest_review_states_on_final
latest_review-is_approval pr key reviews asc = rw (get_review-review_loop pr reviews [] false key) (
    unfold get_review in
    rw (latest_of-eq-cast pr key none reviews) (cast-last_vote (ballot pr key reviews) asc))

-- Of an approval and a later comment by one reviewer, the one that the loop meets first stays: the
-- comment does not displace the approval, nor the approval the comment.
first_stays :
    (approval comment : Review)
    → approval.state ≡ approved
    → comment.state ≡ commented
    → approval.submitted_at < comment.submitted_at
    → (supersedes comment approval ≡ false) × (supersedes approval comment ≡ false)
unfolding supersedes
first_stays a c ea ec h =
    ground (arith, text_beq_iff a.state approved, text_beq_iff c.state commented)

-- Of an approval and a comment by one reviewer sent at the same time, the approval stays, whichever
-- the loop meets first.
approval_stays :
    (approval comment : Review)
    → approval.state ≡ approved
    → comment.state ≡ commented
    → approval.submitted_at ≡ comment.submitted_at
    → (supersedes comment approval ≡ false) × (supersedes approval comment ≡ true)
unfolding supersedes
approval_stays a c ea ec h = ground (
  arith,
  text_beq_iff a.state approved,
  text_beq_iff a.state commented,
  text_beq_iff c.state commented,
  text_beq_iff c.state approved,
  approved-ne-commented,
)
