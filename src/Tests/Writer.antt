-- ===== src/Tests/Writer.antt =====
-- The theorems on the queue of writes at concrete inputs.
use gh_audit.Prelude.{ℕ, ◌+◌, ◌≡◌, refl, true, false, [], ◌∷◌, arith}
use gh_audit.Pipeline.Writer.{
  WriteRequest, DbWriter, new_db_writer, submit, receive, respond, sent, received, answered,
  closing, Schedule, none_yet, one_more,
}
use gh_audit.Pipeline.Writer.Order.{InOrder, Schedule-InOrder}
use gh_audit.Pipeline.Writer.Drain.{steps_left, IsDrained, Schedule-Drains}

-- A write that succeeds and one that fails.
abbrev add_three : WriteRequest ℕ
add_three = record { caller = 1; fn = λ s. (s + 3, true) }

abbrev fail : WriteRequest ℕ
fail = record { caller = 2; fn = λ s. (s, false) }

abbrev both_sent : DbWriter ℕ
both_sent = submit fail (submit add_three (new_db_writer 0 0))

-- The first is served between the closing of the queue and the second.
abbrev shut : DbWriter ℕ
shut = record (receive add_three (fail ∷ []) both_sent) { closed = true }

abbrev half : DbWriter ℕ
half = respond add_three shut

until_shut : Schedule (new_db_writer 0 0) 4 shut
unfolding new_db_writer submit receive
until_shut =
    one_more
      (one_more
        (one_more (one_more none_yet (sent add_three refl (omega arith) refl))
          (sent fail refl (omega arith) refl))
        (received add_three (fail ∷ []) refl refl refl refl))
      (closing refl refl)

from_shut : Schedule shut 1 half
unfolding new_db_writer submit receive respond
from_shut = one_more none_yet (answered add_three refl refl refl)

Schedule-InOrder_example : InOrder 0 shut
Schedule-InOrder_example = Schedule-InOrder 0 0 4 until_shut

Schedule-Drains_example :
    (1 + steps_left half ≡ steps_left shut)
    × ((v : DbWriter ℕ) × Schedule half (steps_left half) v × IsDrained 0 shut.accepted v)
unfolding new_db_writer submit receive
Schedule-Drains_example = Schedule-Drains 0 0 4 1 until_shut refl refl from_shut
