-- ===== src/Pipeline/Writer/Drain.antt =====
-- Once it is closed the queue drains.
use gh_audit.Prelude.{
  ℕ, zero, suc, ◌+◌, ◌≡◌, refl, sym, ap, ◌∙◌, subst, inl, inr, Bool, true, false, none, some, List,
  [], ◌∷◌, ◌++◌, arith, if◌then◌else◌, Bool-cases, Option-cases, nat_eq, text_eq, length,
}
use mathlib.Core.List.{append-nil}
use gh_audit.Pipeline.Writer.{
  WriteRequest, DbWriter, new_db_writer, receive, respond, in_hand, Step, sent, received, answered,
  closing, ended, Schedule, none_yet, one_more, serve_all, answers_of,
}
use gh_audit.Pipeline.Writer.Order.{InOrder, Schedule-InOrder, Step-InOrder}

not_both : {A : Type 0} {b : Bool} → b ≡ true → b ≡ false → A
not_both e h = absurd (cc (sym e ∙ h))

module _ {S : Type 0} where
  -- The steps that a closed queue has left: two for each request that waits, one for the request in
  -- hand, and the one that ends the loop.
  unfoldable pub steps_for : List (WriteRequest S) → ℕ
  steps_for [] = 1
  steps_for (r ∷ rs) = suc (suc (steps_for rs))

  unfoldable pub steps_left : DbWriter S → ℕ
  steps_left w = if w.done then 0 else length (in_hand w.current) + steps_for w.requests

  -- What a run from a closed queue keeps.
  record IsClosing (w : DbWriter S) (n : ℕ) (u : DbWriter S) : Type 0 where
    closed : u.closed ≡ true
    accepted : u.accepted ≡ w.accepted
    left : n + steps_left u ≡ steps_left w
    emptied : u.done ≡ true → (u.current ≡ none) × (u.requests ≡ [])

  receive-IsClosing :
      (w : DbWriter S) (n : ℕ) (r : WriteRequest S) (rest : List (WriteRequest S)) (u : DbWriter S)
      → u.done ≡ false
      → u.current ≡ none
      → u.requests ≡ r ∷ rest
      → IsClosing w n u
      → IsClosing w (suc n) (receive r rest u)
  unfolding receive steps_left steps_for in_hand
  receive-IsClosing w n r rest u running idle next h =
      let before : steps_left u ≡ steps_for rest + 2 = rw (running, idle, next) omega arith in
      let after : steps_left (receive r rest u) ≡ steps_for rest + 1 = rw running omega arith in
      record {
        closed = h.closed;
        accepted = h.accepted;
        left = omega (arith, before, after, h.left);
        emptied = λ over. not_both over running;
      }

  respond-IsClosing :
      (w : DbWriter S) (n : ℕ) (r : WriteRequest S) (u : DbWriter S)
      → u.done ≡ false
      → u.current ≡ some r
      → IsClosing w n u
      → IsClosing w (suc n) (respond r u)
  unfolding respond steps_left in_hand
  respond-IsClosing w n r u running busy h =
      let before : steps_left u ≡ steps_for u.requests + 1 = rw (running, busy) omega arith in
      let after : steps_left (respond r u) ≡ steps_for u.requests = rw running (omega arith) in
      record {
        closed = h.closed;
        accepted = h.accepted;
        left = omega (arith, before, after, h.left);
        emptied = λ over. not_both over running;
      }

  end-IsClosing :
      (w : DbWriter S) (n : ℕ) (u : DbWriter S)
      → u.done ≡ false
      → u.current ≡ none
      → u.requests ≡ []
      → IsClosing w n u
      → IsClosing w (suc n) (record u { done = true })
  unfolding steps_left steps_for in_hand
  end-IsClosing w n u running idle empty h =
      let before : steps_left u ≡ 1 = rw (running, idle, empty) refl in
      record {
        closed = h.closed;
        accepted = h.accepted;
        left = omega (arith, before, h.left);
        emptied = λ _. (idle, empty);
      }

  Step-IsClosing :
      (w : DbWriter S) (n : ℕ) {u v : DbWriter S}
      → Step u v
      → IsClosing w n u
      → IsClosing w (suc n) v
  Step-IsClosing w n (sent r open_ room e) h = not_both h.closed open_
  Step-IsClosing w n {u} (received r rest running idle next e) h =
      subst (IsClosing w (suc n)) (sym e) (receive-IsClosing w n r rest u running idle next h)
  Step-IsClosing w n {u} (answered r running busy e) h =
      subst (IsClosing w (suc n)) (sym e) (respond-IsClosing w n r u running busy h)
  Step-IsClosing w n (closing open_ e) h = not_both h.closed open_
  Step-IsClosing w n {u} (ended shut running idle empty e) h =
      subst (IsClosing w (suc n)) (sym e) (end-IsClosing w n u running idle empty h)

  Schedule-IsClosing :
      (w : DbWriter S) (n : ℕ) {u : DbWriter S}
      → w.closed ≡ true
      → w.done ≡ false
      → Schedule w n u
      → IsClosing w n u
  Schedule-IsClosing w zero c running none_yet = record {
    closed = c;
    accepted = refl;
    left = omega arith;
    emptied = λ over. not_both over running;
  }
  Schedule-IsClosing w (suc n) c running (one_more r st) =
      Step-IsClosing w n st (Schedule-IsClosing w n c running r)

  first_step :
      {w v : DbWriter S} (n : ℕ)
      → Step w v
      → {u : DbWriter S} → Schedule v n u
      → Schedule w (suc n) u
  first_step zero st none_yet = one_more none_yet st
  first_step (suc n) st (one_more r last) = one_more (first_step n st r) last

  Schedule-InOrder_from :
      (s : S) {w : DbWriter S} (n : ℕ) {u : DbWriter S} → InOrder s w → Schedule w n u → InOrder s u
  Schedule-InOrder_from s zero h none_yet = h
  Schedule-InOrder_from s (suc n) h (one_more r st) =
      Step-InOrder s st (Schedule-InOrder_from s n h r)

  -- All that was taken has been served, and the goroutine has ended.
  pub record IsDrained (s : S) (accepted : List (WriteRequest S)) (v : DbWriter S) : Type 0 where
    pub done : v.done ≡ true
    pub state : v.state ≡ serve_all accepted s
    pub answers : v.answers ≡ answers_of accepted s

  drained :
      (s : S) (v : DbWriter S)
      → v.done ≡ true
      → v.current ≡ none
      → v.requests ≡ []
      → InOrder s v
      → IsDrained s v.accepted v
  unfolding in_hand
  drained s v over idle empty h =
      let nothing : in_hand v.current ++ v.requests ≡ [] = rw (idle, empty) refl in
      let all : h.past ≡ v.accepted =
        sym (h.split ∙ ap (λ l. h.past ++ l) nothing ∙ append-nil h.past) in
      record {
        done = over;
        state = h.state ∙ ap (λ l. serve_all l s) all;
        answers = h.answers ∙ ap (λ l. answers_of l s) all;
      }

  -- A queue that can be drained in `n` steps.
  abbrev Drains : S → ℕ → DbWriter S → Type 0
  Drains s n u = (v : DbWriter S) × Schedule u n v × IsDrained s u.accepted v

  step-Drains :
      (s : S) (n : ℕ) (u v : DbWriter S)
      → Step u v
      → v.accepted ≡ u.accepted
      → Drains s n v
      → Drains s (suc n) u
  step-Drains s n u v st same (x, rest, over) =
      (x, first_step n st rest, subst (λ l. IsDrained s l x) same over)

  idle-Drains :
      (s : S) (rs : List (WriteRequest S)) (u : DbWriter S)
      → u.closed ≡ true
      → u.done ≡ false
      → u.current ≡ none
      → u.requests ≡ rs
      → InOrder s u
      → Drains s (steps_for rs) u
  unfolding steps_for receive respond
  idle-Drains s [] u shut running idle empty h =
      let last : Step u (record u { done = true }) = ended shut running idle empty refl in
      (
        record u { done = true },
        one_more none_yet last,
        drained s _ refl idle empty (Step-InOrder s last h),
      )
  idle-Drains s (r ∷ rs) u shut running idle next h =
      let v : DbWriter S = receive r rs u in
      let first : Step u v = received r rs running idle next refl in
      let second : Step v (respond r v) = answered r running refl refl in
      let rest =
        idle-Drains s rs (respond r v) shut running refl refl
          (Step-InOrder s second (Step-InOrder s first h)) in
      step-Drains s _ u v first refl (step-Drains s _ v (respond r v) second refl rest)

  busy-Drains :
      (s : S) (r : WriteRequest S) (u : DbWriter S)
      → u.closed ≡ true
      → u.done ≡ false
      → u.current ≡ some r
      → InOrder s u
      → Drains s (suc (steps_for u.requests)) u
  unfolding respond
  busy-Drains s r u shut running busy h =
      let st : Step u (respond r u) = answered r running busy refl in
      step-Drains s _ u (respond r u) st refl
        (idle-Drains s u.requests (respond r u) shut running refl refl (Step-InOrder s st h))

  on_Drains :
      (s : S) (u : DbWriter S)
      → u.closed ≡ true
      → u.done ≡ false
      → InOrder s u
      → Drains s (steps_left u) u
  unfolding steps_left in_hand
  on_Drains s u shut running h = elim (Option-cases u.current) [
    | inl idle ↦
        let left : steps_left u ≡ steps_for u.requests = rw (running, idle) (omega arith) in
        subst (λ k. Drains s k u) (sym left) (idle-Drains s u.requests u shut running idle refl h)
    | inr (r, busy) ↦
        let left : steps_left u ≡ suc (steps_for u.requests) = rw (running, busy) (omega arith) in
        subst (λ k. Drains s k u) (sym left) (busy-Drains s r u shut running busy h)
  ]

  over_Drains :
      (s : S) (w : DbWriter S) (n : ℕ) (u : DbWriter S)
      → InOrder s u
      → IsClosing w n u
      → u.done ≡ true
      → Drains s (steps_left u) u
  unfolding steps_left
  over_Drains s w n u h c over =
      let (idle, empty) = c.emptied over in
      let left : steps_left u ≡ 0 = rw over refl in
      subst (λ k. Drains s k u) (sym left) (u, none_yet, drained s u over idle empty h)

  -- Once the queue is closed, no schedule keeps it from draining: every step brings the end nearer by
  -- one, and after any of them the goroutine can still go on, to the state in which exactly the
  -- writes that had been sent have been made, in their order, and answered, and the loop has ended.
  pub Schedule-Drains :
      (s : S) (buffer_size n m : ℕ) {w u : DbWriter S}
      → Schedule (new_db_writer buffer_size s) n w
      → w.closed ≡ true
      → w.done ≡ false
      → Schedule w m u
      → (m + steps_left u ≡ steps_left w)
        × ((v : DbWriter S) × Schedule u (steps_left u) v × IsDrained s w.accepted v)
  Schedule-Drains s buffer_size n m {w} {u} before shut running after =
      let c : IsClosing w m u = Schedule-IsClosing w m shut running after in
      let h : InOrder s u =
        Schedule-InOrder_from s m (Schedule-InOrder s buffer_size n before) after in
      let (v, rest, end) : Drains s (steps_left u) u = elim (Bool-cases u.done) [
        | inl over ↦ over_Drains s w m u h c over
        | inr on ↦ on_Drains s u c.closed on h
      ] in
      (c.left, (v, rest, subst (λ l. IsDrained s l v) c.accepted end))
