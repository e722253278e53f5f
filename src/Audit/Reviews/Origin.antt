-- ===== src/Audit/Reviews/Origin.antt =====
-- Where the entries of the map of latest reviews come from.
use gh_audit.Text.{Text}
use gh_audit.Audit.Reviews.Fold.{
  get_review-review_loop, displace, get_review-put_review, as_of_merge, is_eligible, latest_of,
}
use gh_audit.Model.{Review, PullRequest}
use gh_audit.Audit.Reviews.{
  supersedes, restored_state, latest_review_states_on_final, values, review_loop, review_step,
  reviewer_key, get_review, put_review, record_review, ReviewMap,
}
use gh_audit.Prelude.{
  ◌≡◌, refl, ap, ◌⊎◌, inl, inr, Bool, true, false, ◌&&◌, Option, none, some, List, [], ◌∷◌, Memᴰ,
  arith, if◌then◌else◌, Bool-cases, ◌==◌, nat_eq, text_beq_iff, text_eq,
}

-- What an entry rests on: a review of the list, of the head, by a trusted account, not submitted
-- after the merge, and taken with the state that it had at the merge.
pub record Origin (pr : PullRequest) (reviews : List Review) (r : Review) : Type 0 where
  pub review : Review
  pub given : Memᴰ review reviews
  pub eligible : is_eligible pr review ≡ true
  pub as_then : r ≡ as_of_merge pr review

Origin-tail :
    {pr : PullRequest} {reviews : List Review} {r : Review} (q : Review)
    → Origin pr reviews r
    → Origin pr (q ∷ reviews) r
Origin-tail q o = record {
  review = o.review;
  given = Memᴰ.tail o.given;
  eligible = o.eligible;
  as_then = o.as_then;
}

-- The reviewers' keys are all different.
abbrev Distinct : ReviewMap → Type 0
Distinct [] = Unit
Distinct ((k, r) ∷ m) = (get_review k m ≡ none) × Distinct m

put_review-Distinct :
    (k : Text) (r : Review) (m : ReviewMap) → Distinct m → Distinct (put_review k r m)
unfolding put_review
put_review-Distinct k r [] d = (unfold get_review in refl, tt)
put_review-Distinct k r ((j, q) ∷ m) d = elim (Bool-cases (j == k)) [
  | inl e ↦ rw e (ground (arith, text_beq_iff j k), d.1)
  | inr e ↦ rw e (
    ground (arith, get_review-put_review k j r m, text_beq_iff j k, text_beq_iff k j),
    put_review-Distinct k r m d.1,
  )
]

record_review-Distinct : (m : ReviewMap) (r : Review) → Distinct m → Distinct (record_review m r)
unfolding record_review
record_review-Distinct m r d = ground (arith, put_review-Distinct (reviewer_key r) r m d)

review_step-Distinct :
    (pr : PullRequest) (m : ReviewMap) (c : Bool) (r : Review)
    → Distinct m
    → Distinct (review_step pr (m, c) r).0
unfolding review_step
review_step-Distinct pr m c r d = ground (
  arith,
  record_review-Distinct m r d,
  record_review-Distinct m (record r { state = restored_state r }) d,
)

review_loop-Distinct :
    (pr : PullRequest) (m : ReviewMap) (c : Bool) (rs : List Review)
    → Distinct m
    → Distinct (review_loop pr (m, c) rs).0
unfolding review_loop
review_loop-Distinct pr m c [] d = d
review_loop-Distinct pr m c (r ∷ rs) d =
    let (m', c') = review_step pr (m, c) r in
    review_loop-Distinct pr m' c' rs (review_step-Distinct pr m c r d)

get_of_mem :
    (m : ReviewMap) (e : Text × Review) → Distinct m → Memᴰ e m → get_review e.0 m ≡ some e.1
unfolding get_review
get_of_mem [] e d h = elim h [ ]
get_of_mem ((k, r) ∷ m) e d (Memᴰ.head p) = ground (arith, p, text_beq_iff k e.0)
get_of_mem ((k, r) ∷ m) e d (Memᴰ.tail h) = ground (arith, get_of_mem m e d.1 h, text_beq_iff k e.0)

latest_of-Origin :
    (pr : PullRequest) (key : Text) (latest : Option Review) (reviews : List Review) (r : Review)
    → latest_of pr key latest reviews ≡ some r
    → (latest ≡ some r) ⊎ Origin pr reviews r
unfolding latest_of
latest_of-Origin pr key latest [] r h = inl h
latest_of-Origin pr key latest (q ∷ qs) r h = elim (latest_of-Origin pr key (next latest) qs r h) [
  | inr o ↦ inr (Origin-tail q o)
  | inl e ↦ elim (Bool-cases (is_eligible pr q && reviewer_key q == key)) [
    | inr off ↦ inl (ground arith)
    | inl on ↦ displaced latest e on
  ]
]
  where
    next : Option Review → Option Review
    next l = if is_eligible pr q && reviewer_key q == key then displace (as_of_merge pr q) l else l

    displaced :
        (l : Option Review)
        → (if is_eligible pr q && reviewer_key q == key then displace (as_of_merge pr q) l else l)
          ≡ some r
        → (is_eligible pr q && reviewer_key q == key) ≡ true
        → (l ≡ some r) ⊎ Origin pr (q ∷ qs) r
    displaced none e on = inr (record {
      review = q;
      given = Memᴰ.head refl;
      eligible = ground arith;
      as_then = ground arith;
    })
    displaced (some l) e on = elim (Bool-cases (supersedes (as_of_merge pr q) l)) [
      | inl won ↦ inr (record {
        review = q;
        given = Memᴰ.head refl;
        eligible = ground arith;
        as_then = ground arith;
      })
      | inr lost ↦ inl (ground arith)
    ]

mem-values : (m : ReviewMap) (r : Review) → Memᴰ r (values m) → (k : Text) × Memᴰ (k, r) m
mem-values [] r h = elim h [ ]
mem-values ((k, q) ∷ m) r (Memᴰ.head p) = (k, Memᴰ.head (ap (λ (x : Review). (k, x)) p))
mem-values ((k, q) ∷ m) r (Memᴰ.tail h) = let (j, h') = mem-values m r h in (j, Memᴰ.tail h')

-- Each entry of the map is an eligible review of the list, in its state as of the merge.
pub values-Origin :
    (reviews : List Review) (pr : PullRequest) (r : Review)
    → Memᴰ r (values (latest_review_states_on_final reviews pr).0)
    → Origin pr reviews r
unfolding latest_review_states_on_final
values-Origin reviews pr r h =
    let (k, h') = mem-values (review_loop pr ([], false) reviews).0 r h in
    let held = get_of_mem _ (k, r) (review_loop-Distinct pr [] false reviews tt) h' in
    let folded = rw (get_review-review_loop pr reviews [] false k) at held in
    elim (latest_of-Origin pr k (get_review k []) reviews r folded) [
      | inl e ↦ absurd (unfold get_review in ground arith)
      | inr o ↦ o
    ]
