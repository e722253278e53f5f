-- ===== src/History.antt =====
-- internal/sync/history.go: the moves of a branch's head between two runs, and their record.
pub mod Kept
use gh_audit.Prelude.{◌||◌, [], arith, if◌then◌else◌, ◌==◌, nat_eq, text_eq}
use gh_audit.Text.{Text, text}
use gh_audit.Model.{Time}

-- HistoryRewrite of internal/model/types.go
pub record HistoryRewrite : Type 0 where
  pub org : Text
  pub repo : Text
  pub branch : Text
  pub prior_sha : Text
  pub new_sha : Text
  pub compare_status : Text
  pub detected_at : Time

pub data HeadMove : Type 0 where
  head_unknown head_unchanged head_fast_forward head_rewritten : HeadMove

-- classifyHeadMove
unfoldable pub classify_head_move : Text → Text → Text → HeadMove
classify_head_move prior_sha current_sha compare_status =
    if prior_sha == []
    then head_unknown
    else if prior_sha == current_sha
    then head_unchanged
    else if compare_status == text "identical" || compare_status == text "ahead"
    then head_fast_forward
    else if compare_status == text "behind" || compare_status == text "diverged"
    then head_rewritten
    else head_unknown

-- recordIfRewritten, over a store whose RecordHistoryRewrite is a parameter; it fails or not, and
-- its error is logged only, so that what it leaves is the new store.
unfoldable pub record_if_rewritten :
    {Store : Type 0}
    → (HistoryRewrite → Store → Store)
    → Time
    → Text
    → Text
    → Text
    → Text
    → Text
    → Text
    → Store
    → Store
record_if_rewritten record_history_rewrite now org repo branch prior_sha new_sha compare_status s =
    elim (classify_head_move prior_sha new_sha compare_status) [
      | head_rewritten ↦
          record_history_rewrite
            (record {
              org = org;
              repo = repo;
              branch = branch;
              prior_sha = prior_sha;
              new_sha = new_sha;
              compare_status = compare_status;
              detected_at = now;
            })
            s
      | _ ↦ s
    ]
