-- ===== src/Audit/Reviews/Fold.antt =====
-- The map of latest reviews, one reviewer at a time.
use gh_audit.Prelude.{
  ◌≡◌, refl, Bool, not, ◌&&◌, Option, none, some, List, [], ◌∷◌, arith, if◌then◌else◌, ◌==◌, nat_eq,
  text_beq_iff, text_eq,
}
use gh_audit.Audit.Reviews.{
  restored_state, supersedes, submitted_after_merge, dismissed_after_merge, ◌∷◌, off_final, List,
  some, not, review_loop, review_step, reviewer_key, record_review, Option, Bool, ReviewMap,
  get_review, put_review,
}
use gh_audit.Model.{PullRequest, Review}
use gh_audit.Text.{Text}

pub get_review-put_review :
    (k j : Text) (r : Review) (m : ReviewMap)
    → get_review j (put_review k r m) ≡ (if k == j then some r else get_review j m)
unfolding get_review put_review
get_review-put_review k j r [] = refl
get_review-put_review k j r ((i, q) ∷ m) =
    ground
      (arith, text_beq_iff k j, text_beq_iff i k, text_beq_iff i j, get_review-put_review k j r m)

-- A review of the head, submitted before the merge, with the state that it had at the merge.
unfoldable pub as_of_merge : PullRequest → Review → Review
as_of_merge pr review =
    if dismissed_after_merge pr review
    then record review { state = restored_state review }
    else review

abbrev pub is_eligible : PullRequest → Review → Bool
is_eligible pr review = not (off_final pr review) && not (submitted_after_merge pr review)

abbrev pub displace : Review → Option Review → Option Review
displace review none = some review
displace review (some existing) = if supersedes review existing then some review else some existing

-- One reviewer's latest review: the eligible reviews of that key alone, in their order.
unfoldable pub latest_of : PullRequest → Text → Option Review → List Review → Option Review
latest_of pr key latest [] = latest
latest_of pr key latest (review ∷ reviews) =
    latest_of pr key
      (if is_eligible pr review && reviewer_key review == key
        then displace (as_of_merge pr review) latest
        else latest)
      reviews

get_review-record_review :
    (m : ReviewMap) (r : Review) (k : Text)
    → get_review k (record_review m r)
      ≡ (if reviewer_key r == k then displace r (get_review k m) else get_review k m)
unfolding record_review
get_review-record_review m r k =
    ground (arith, text_beq_iff (reviewer_key r) k, get_review-put_review (reviewer_key r) k r m)

key-restored : (r : Review) → reviewer_key (record r { state = restored_state r }) ≡ reviewer_key r
unfolding reviewer_key
key-restored r = refl

get_review-review_step :
    (pr : PullRequest) (m : ReviewMap) (c : Bool) (r : Review) (k : Text)
    → get_review k (review_step pr (m, c) r).0 ≡ (
        if is_eligible pr r && reviewer_key r == k
        then displace (as_of_merge pr r) (get_review k m)
        else get_review k m)
unfolding review_step as_of_merge
get_review-review_step pr m c r k = ground (
  arith,
  get_review-record_review m r k,
  get_review-record_review m (record r { state = restored_state r }) k,
  key-restored r,
)

-- The loop keeps the reviewers apart: what the map holds for one of them is the fold over that
-- reviewer's eligible reviews alone.
pub get_review-review_loop :
    (pr : PullRequest) (reviews : List Review) (m : ReviewMap) (c : Bool) (k : Text)
    → get_review k (review_loop pr (m, c) reviews).0 ≡ latest_of pr k (get_review k m) reviews
unfolding review_loop latest_of
get_review-review_loop pr [] m c k = refl
get_review-review_loop pr (r ∷ rs) m c k =
    let (m', c') = review_step pr (m, c) r in
    rw (← get_review-review_step pr m c r k) (get_review-review_loop pr rs m' c' k)
