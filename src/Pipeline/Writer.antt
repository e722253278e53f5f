-- ===== src/Pipeline/Writer.antt =====
-- internal/sync/dbwriter.go: the queue of writes and the goroutine that serves it, as steps that any
-- schedule may take. `S` is what the writes change.
pub mod Order
pub mod Drain
use gh_audit.Prelude.{
  ℕ, suc, ◌+◌, ◌<◌, ◌≡◌, Bool, true, false, Option, none, some, List, [], ◌∷◌, ◌++◌, arith,
  if◌then◌else◌, ◌==◌, nat_eq, text_eq, length,
}

-- writeRequest: the function, which may fail, and whom it answers.
pub record WriteRequest (S : Type 0) : Type 0 where
  pub caller : ℕ
  pub fn : S → S × Bool

-- DBWriter: the buffered channel, whether it is closed, and whether `done` is; the request that run
-- has received and not yet answered, what the writes have changed, the answers that were sent, and
-- for the record all requests that were taken.
pub record DbWriter (S : Type 0) : Type 0 where
  pub capacity : ℕ
  pub requests : List (WriteRequest S)
  pub closed : Bool
  pub done : Bool
  pub current : Option (WriteRequest S)
  pub state : S
  pub answers : List (ℕ × Bool)
  pub accepted : List (WriteRequest S)

module _ {S : Type 0} where
  -- NewDBWriter
  unfoldable pub new_db_writer : ℕ → S → DbWriter S
  new_db_writer buffer_size s = record {
    capacity = if buffer_size == 0 then 64 else buffer_size;
    requests = [];
    closed = false;
    done = false;
    current = none;
    state = s;
    answers = [];
    accepted = [];
  }

  -- The send in Write.
  unfoldable pub submit : WriteRequest S → DbWriter S → DbWriter S
  submit r w = record w { requests = w.requests ++ r ∷ []; accepted = w.accepted ++ r ∷ [] }

  -- The loop in run receives a request, and then runs and answers it.
  unfoldable pub receive : WriteRequest S → List (WriteRequest S) → DbWriter S → DbWriter S
  receive r rest w = record w { requests = rest; current = some r }

  unfoldable pub respond : WriteRequest S → DbWriter S → DbWriter S
  respond r w =
      let (s, result) = r.fn w.state in
      record w { current = none; state = s; answers = w.answers ++ (r.caller, result) ∷ [] }

  -- A send waits while the buffer is full, and no one sends after Close, as its comment asks. The
  -- loop ends when the channel is closed and empty. A caller that stops to wait changes nothing.
  pub data Step : DbWriter S → DbWriter S → Type 0 where
    sent :
        {w v : DbWriter S} (r : WriteRequest S)
        → w.closed ≡ false
        → length w.requests < w.capacity
        → v ≡ submit r w
        → Step w v
    received :
        {w v : DbWriter S} (r : WriteRequest S) (rest : List (WriteRequest S))
        → w.done ≡ false
        → w.current ≡ none
        → w.requests ≡ r ∷ rest
        → v ≡ receive r rest w
        → Step w v
    answered :
        {w v : DbWriter S} (r : WriteRequest S)
        → w.done ≡ false
        → w.current ≡ some r
        → v ≡ respond r w
        → Step w v
    closing : {w v : DbWriter S} → w.closed ≡ false → v ≡ record w { closed = true } → Step w v
    ended :
        {w v : DbWriter S}
        → w.closed ≡ true
        → w.done ≡ false
        → w.current ≡ none
        → w.requests ≡ []
        → v ≡ record w { done = true }
        → Step w v

  pub data Schedule (w : DbWriter S) : ℕ → DbWriter S → Type 0 where
    none_yet : Schedule w 0 w
    one_more : {n : ℕ} {v u : DbWriter S} → Schedule w n v → Step v u → Schedule w (suc n) u

  unfoldable pub in_hand : Option (WriteRequest S) → List (WriteRequest S)
  in_hand none = []
  in_hand (some r) = r ∷ []

  -- What requests do one after another, and what they are answered.
  unfoldable pub serve_all : List (WriteRequest S) → S → S
  serve_all [] s = s
  serve_all (r ∷ rs) s = serve_all rs (r.fn s).0

  unfoldable pub answers_of : List (WriteRequest S) → S → List (ℕ × Bool)
  answers_of [] s = []
  answers_of (r ∷ rs) s = (r.caller, (r.fn s).1) ∷ answers_of rs (r.fn s).0
