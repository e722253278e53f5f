-- ===== src/Pipeline/Writer/Order.antt =====
-- Every write is served once, in the order in which it was sent, and answers its own caller.
use gh_audit.Prelude.{
  ℕ, zero, suc, ◌≡◌, refl, sym, ap, ◌∙◌, subst, List, [], ◌∷◌, ◌++◌, nat_eq, text_eq,
}
use mathlib.Core.List.{append_assoc}
use gh_audit.Pipeline.Writer.{
  some, none, WriteRequest, DbWriter, new_db_writer, submit, receive, respond, in_hand, Step, sent,
  received, answered, closing, ended, Schedule, none_yet, one_more, serve_all, answers_of,
}

module _ {S : Type 0} (s : S) where
  -- Of the requests taken, some have been served from the state `s`, in their order, and those that
  -- remain wait in theirs.
  pub record InOrder (w : DbWriter S) : Type 0 where
    pub past : List (WriteRequest S)
    pub split : w.accepted ≡ past ++ (in_hand w.current ++ w.requests)
    pub state : w.state ≡ serve_all past s
    pub answers : w.answers ≡ answers_of past s

  serve_all-append :
      (rs : List (WriteRequest S)) (r : WriteRequest S) (t : S)
      → serve_all (rs ++ r ∷ []) t ≡ (r.fn (serve_all rs t)).0
  unfolding serve_all
  serve_all-append [] r t = refl
  serve_all-append (q ∷ rs) r t = serve_all-append rs r (q.fn t).0

  answers_of-append :
      (rs : List (WriteRequest S)) (r : WriteRequest S) (t : S)
      → answers_of (rs ++ r ∷ []) t ≡ answers_of rs t ++ (r.caller, (r.fn (serve_all rs t)).1) ∷ []
  unfolding answers_of serve_all
  answers_of-append [] r t = refl
  answers_of-append (q ∷ rs) r t =
      ap (λ l. (q.caller, (q.fn t).1) ∷ l) (answers_of-append rs r (q.fn t).0)

  submit-InOrder : (r : WriteRequest S) (w : DbWriter S) → InOrder w → InOrder (submit r w)
  unfolding submit
  submit-InOrder r w h = record {
    past = h.past;
    split =
        ap (λ l. l ++ r ∷ []) h.split
        ∙ append_assoc h.past (in_hand w.current ++ w.requests) (r ∷ [])
        ∙ ap (λ l. h.past ++ l) (append_assoc (in_hand w.current) w.requests (r ∷ []));
    state = h.state;
    answers = h.answers;
  }

  receive-InOrder :
      (r : WriteRequest S) (rest : List (WriteRequest S)) (w : DbWriter S)
      → w.current ≡ none
      → w.requests ≡ r ∷ rest
      → InOrder w
      → InOrder (receive r rest w)
  unfolding receive in_hand
  receive-InOrder r rest w idle next h =
      let same : in_hand w.current ++ w.requests ≡ r ∷ rest = rw (idle, next) refl in
      record {
        past = h.past;
        split = h.split ∙ ap (λ l. h.past ++ l) same;
        state = h.state;
        answers = h.answers;
      }

  respond-InOrder :
      (r : WriteRequest S) (w : DbWriter S) → w.current ≡ some r → InOrder w → InOrder (respond r w)
  unfolding respond in_hand
  respond-InOrder r w busy h =
      let same : in_hand w.current ++ w.requests ≡ r ∷ w.requests = rw busy refl in
      record {
        past = h.past ++ r ∷ [];
        split =
            h.split ∙ ap (λ l. h.past ++ l) same ∙ sym (append_assoc h.past (r ∷ []) w.requests);
        state = ap (λ t. (r.fn t).0) h.state ∙ sym (serve_all-append h.past r s);
        answers =
            ap (λ l. l ++ (r.caller, (r.fn w.state).1) ∷ []) h.answers
            ∙ ap (λ t. answers_of h.past s ++ (r.caller, (r.fn t).1) ∷ []) h.state
            ∙ sym (answers_of-append h.past r s);
      }

  pub Step-InOrder : {w v : DbWriter S} → Step w v → InOrder w → InOrder v
  Step-InOrder {w} (sent r open_ room e) h = subst InOrder (sym e) (submit-InOrder r w h)
  Step-InOrder {w} (received r rest running idle next e) h =
      subst InOrder (sym e) (receive-InOrder r rest w idle next h)
  Step-InOrder {w} (answered r running busy e) h =
      subst InOrder (sym e) (respond-InOrder r w busy h)
  Step-InOrder (closing open_ e) h =
      subst InOrder (sym e)
        (record { past = h.past; split = h.split; state = h.state; answers = h.answers })
  Step-InOrder (ended shut running idle empty e) h =
      subst InOrder (sym e)
        (record { past = h.past; split = h.split; state = h.state; answers = h.answers })

  new-InOrder : (buffer_size : ℕ) → InOrder (new_db_writer buffer_size s)
  unfolding new_db_writer serve_all answers_of in_hand
  new-InOrder buffer_size = record { past = []; split = refl; state = refl; answers = refl }

  -- However the callers and the goroutine are scheduled, the writes that were served are a first part
  -- of those that were sent, one after another in that order, and each answered its own caller with
  -- its own result; the others wait in the order in which they were sent.
  pub Schedule-InOrder :
      (buffer_size n : ℕ) {w : DbWriter S} → Schedule (new_db_writer buffer_size s) n w → InOrder w
  Schedule-InOrder buffer_size zero none_yet = new-InOrder buffer_size
  Schedule-InOrder buffer_size (suc n) (one_more r st) =
      Step-InOrder st (Schedule-InOrder buffer_size n r)
