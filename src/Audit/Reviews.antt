-- ===== src/Audit/Reviews.antt =====
-- Rule 4 of audit.go: each reviewer's latest review of a pull request's head, as of the merge.
pub mod Fold
pub mod Origin
pub mod Ballot
use gh_audit.Prelude.{
  Bool, true, false, not, ◌&&◌, ◌||◌, Option, none, some, List, [], ◌∷◌, ◌++◌, map, leb, ◌==◌, ◌/=◌,
  nat_eq, text_eq, if◌then◌else◌, any,
}
use gh_audit.Text.{Text, text, to_lower}
use gh_audit.Text.Decimal.{itoa}
use gh_audit.Model.{PullRequest, Review, trusted_id, is_zero, after, before}

abbrev pub approved : Text
approved = text "APPROVED"

abbrev pub changes_requested : Text
changes_requested = text "CHANGES_REQUESTED"

abbrev pub commented : Text
commented = text "COMMENTED"

abbrev pub dismissed : Text
dismissed = text "DISMISSED"

-- `map[string]model.Review`, in the order in which the keys came.
abbrev pub ReviewMap : Type 0
ReviewMap = List (Text × Review)

unfoldable pub get_review : Text → ReviewMap → Option Review
get_review key [] = none
get_review key ((k, r) ∷ m) = if k == key then some r else get_review key m

unfoldable pub put_review : Text → Review → ReviewMap → ReviewMap
put_review key review [] = (key, review) ∷ []
put_review key review ((k, r) ∷ m) =
    let rest = put_review key review m in if k == key then (key, review) ∷ m else (k, r) ∷ rest

-- reviewerKey
unfoldable pub reviewer_key : Review → Text
reviewer_key r = text "id:" ++ itoa r.reviewer_id

-- The `switch` on the state that a dismissed review held before.
unfoldable pub restored_state : Review → Text
restored_state review =
    let original = to_lower review.dismissed_state in
    if original == text "approved"
    then approved
    else if original == text "changes_requested"
    then changes_requested
    else if original == text "commented"
    then commented
    else review.state

abbrev pub dismissed_after_merge : PullRequest → Review → Bool
dismissed_after_merge pr review =
    review.state == dismissed
    && not (is_zero pr.merged_at)
    && not (is_zero review.dismissed_at)
    && after review.dismissed_at pr.merged_at

-- Whether `review` displaces `existing`, of the same reviewer: the four `continue`s of the loop.
unfoldable pub supersedes : Review → Review → Bool
supersedes review existing =
    if before review.submitted_at existing.submitted_at
    then false
    else if review.state == commented && existing.state == approved
    then false
    else if review.state == approved && existing.state == commented
    then true
    else not
        (review.submitted_at == existing.submitted_at && leb review.review_id existing.review_id)

unfoldable pub record_review : ReviewMap → Review → ReviewMap
record_review latest review = elim (get_review (reviewer_key review) latest) [
  | none ↦ put_review (reviewer_key review) review latest
  | some existing ↦
      if supersedes review existing then put_review (reviewer_key review) review latest else latest
]

abbrev pub off_final : PullRequest → Review → Bool
off_final pr review =
    review.pr_number /= pr.number
    || review.commit_id /= pr.head_sha
    || not (trusted_id review.reviewer_id)

abbrev pub submitted_after_merge : PullRequest → Review → Bool
submitted_after_merge pr review =
    not (is_zero pr.merged_at) && after review.submitted_at pr.merged_at

-- One round of the loop of latestReviewStatesOnFinal: the map and postMergeConcern.
unfoldable pub review_step : PullRequest → ReviewMap × Bool → Review → ReviewMap × Bool
review_step pr (latest, concern) review =
    if off_final pr review
    then (latest, concern)
    else if submitted_after_merge pr review
    then (latest, concern || review.state == changes_requested || review.state == dismissed)
    else if dismissed_after_merge pr review
    then (record_review latest (record review { state = restored_state review }), true)
    else (record_review latest review, concern)

unfoldable pub review_loop : PullRequest → ReviewMap × Bool → List Review → ReviewMap × Bool
unfolding review_step
review_loop pr s [] = s
review_loop pr s (review ∷ reviews) = review_loop pr (review_step pr s review) reviews

-- A dismissal whose time is not known, which leaves open whether it came before the merge.
abbrev pub is_ambiguous : Review → Bool
is_ambiguous r = r.state == dismissed && is_zero r.dismissed_at

abbrev pub values : ReviewMap → List Review
values = map (λ (e : Text × Review). e.1)

-- latestReviewStatesOnFinal
unfoldable pub latest_review_states_on_final : List Review → PullRequest → ReviewMap × Bool
unfolding review_loop
latest_review_states_on_final reviews pr =
    let (latest, concern) = review_loop pr ([], false) reviews in
    (latest, concern || not (is_zero pr.merged_at) && any is_ambiguous (values latest))
