-- ===== src/Github/TokenPool/RoundTrip/Balance.antt =====
-- A round trip takes one request of its token out of flight, however often it moves to another token.
use gh_audit.Prelude.{
  ℕ, zero, suc, ◌<◌, ◌≡◌, refl, sym, ap, ◌∙◌, subst, inl, inr, true, false, arith, ltb, Bool-cases,
  ◌==◌, nat_eq, text_eq, length,
}
use gh_audit.Text.{Text, text}
use gh_audit.Github.TokenPool.{TokenPool, on_token}
use gh_audit.Github.TokenPool.Pick.{
  Picked, token_at, none_serves, pick_cancelled, out_of_rounds, reserve, reserved, pick_rounds,
  pick_fuel, pick,
}
use gh_audit.Github.TokenPool.RoundTrip.{
  Outside, World, Trip, responded, refused, other_error, of_pool, with_slot, finish, hold, release,
  do_round_trip,
}
use gh_audit.Github.TokenPool.RoundTrip.Reassign.{
  reassign, round_trip, is_rate_limit, count_reassign, max_rate_limit_reassigns,
  parse_org_repo_from_path, repick_failed,
}
use gh_audit.Github.TokenPool.RoundTrip.Flights.{with_slot-Quiet}
use gh_audit.Github.TokenPool.RoundTrip.Totals.{
  Net-trans, same_count, Quiet-Net, settle-Net, reserve-total, reserve-identities, Net, Net-length,
  reserved-length, hit, none_due, one_of,
}

-- The result of a step of one request, with what the tokens gave back.
abbrev After : (ℕ → ℕ) → World → Trip × World → Type 0
After n w x = Net n w.pool x.1.pool

module _ (o : Outside) where
  finish-Net :
      (i : ℕ) (w : World) (x : Trip × World)
      → After none_due w x
      → After (hit i (length w.pool.tokens)) w (finish o i x)
  finish-Net i w x n =
      let size = Net-length n in
      same_count (λ j. omega (arith, ap (λ k. hit i k j) size))
        (Net-trans n (settle-Net i x.1.pool))

  slot-Net : (i : ℕ) (w : World) → After none_due w (release o i (with_slot o i (of_pool hold w)))
  slot-Net i w =
      let q =
        Quiet-Net (of_pool hold w).pool (with_slot o i (of_pool hold w)).1.pool
          (with_slot-Quiet o i (of_pool hold w)).quiet in
      record { settled = q.settled; held = omega (arith, q.held); cap = q.cap; tokens = q.tokens }

  -- One request on one token: it is settled, on every path, and its slot is freed.
  do_round_trip-Net :
      (i : ℕ) (w : World) → Net (hit i (length w.pool.tokens)) w.pool (do_round_trip o i w).1.pool
  unfolding do_round_trip
  do_round_trip-Net i w = elim (Bool-cases (w.pool.cap == 0)) [
    | inl e ↦
        rw (e, do_round_trip)
          (finish-Net i w (with_slot o i w)
            (Quiet-Net w.pool (with_slot o i w).1.pool (with_slot-Quiet o i w).quiet))
    | inr e ↦ elim (Bool-cases (ltb w.pool.held w.pool.cap)) [
      | inl f ↦
          rw (e, f, do_round_trip)
            (finish-Net i w (release o i (with_slot o i (of_pool hold w))) (slot-Net i w))
      | inr f ↦
          rw (e, f, do_round_trip)
            (finish-Net i w (refused (other_error (text "context cancelled")), w)
              (Quiet-Net w.pool w.pool (refl, refl, refl)))
    ]
  ]

  -- A move to another token reserves a request there, and settles it.
  moved-Net :
      (j later : ℕ) (w : World)
      → let v : World = record w {
        pool = count_reassign (on_token j reserve w.pool);
        now = later;
      } in
        Net none_due w.pool (do_round_trip o j v).1.pool
  moved-Net j later w =
      let v : World = record w { pool = count_reassign (on_token j reserve w.pool); now = later } in
      let size = reserved-length j w.pool.tokens in
      let n =
        subst (λ k. Net (hit j k) v.pool (do_round_trip o j v).1.pool) size
          (do_round_trip-Net j v) in
      record {
        settled = λ k. omega (
          arith,
          (reserve-total j w.pool.tokens k).0,
          (reserve-total j w.pool.tokens k).1,
          n.settled k,
        );
        held = n.held;
        cap = n.cap;
        tokens = n.tokens ∙ reserve-identities j w.pool.tokens;
      }

  same_pool : (w v : World) (t : Trip) → v.pool ≡ w.pool → After none_due w (t, v)
  same_pool w v t e =
      subst (λ p. Net none_due w.pool p) (sym e) (Quiet-Net w.pool w.pool (refl, refl, refl))

  -- What follows one request: its response, its error, or the moves to other tokens.
  goes_on :
      (n : ℕ → ℕ) (w : World) (x : Trip × World) (more : World → Trip × World)
      → After n w x
      → After none_due x.1 (more x.1)
      → After n w (elim x.0 [
        | responded resp ↦ (responded resp, x.1)
        | refused e ↦ elim (is_rate_limit e) [ true ↦ more x.1 | false ↦ (refused e, x.1) ]
      ])
  goes_on n w (responded resp, v) more a b = a
  goes_on n w (refused e, v) more a b = elim (Bool-cases (is_rate_limit e)) [
    | inl h ↦ rw h (same_count (λ j. omega arith) (Net-trans a b))
    | inr h ↦ rw h a
  ]

  -- One move, where the moves that may follow it keep their count.
  move-Net :
      (org repo : Text) (left : ℕ) (w : World)
      → ((v : World) → After none_due v (reassign o org repo left v))
      → After none_due w (reassign o org repo (suc left) w)
  unfolding reassign pick
  move-Net org repo left w =
      moves (pick_rounds o.clock org repo w.pool (pick_fuel w.pool) w.now).0
        (pick_rounds o.clock org repo w.pool (pick_fuel w.pool) w.now).1
    where
      Moves : Picked → ℕ → TokenPool → Type 0
      Moves r later p = After none_due w (elim r [
        | token_at j ↦
            let (t, v) = do_round_trip o j (record w { pool = count_reassign p; now = later }) in
            elim t [
              | responded resp ↦ (responded resp, v)
              | refused e ↦ elim (is_rate_limit e) [
                | true ↦ reassign o org repo left v
                | false ↦ (refused e, v)
              ]
            ]
        | none_serves ↦ (refused repick_failed, record w { now = later })
        | pick_cancelled ↦ (refused repick_failed, record w { now = later })
        | out_of_rounds ↦ (refused repick_failed, record w { now = later })
      ])

      moves :
          (r : Picked) (later : ℕ)
          → ((v : World) → After none_due v (reassign o org repo left v))
          → Moves r later (reserved r w.pool)
      moves (token_at j) later more =
          goes_on none_due w
            (do_round_trip o j
              (record w { pool = count_reassign (on_token j reserve w.pool); now = later }))
            (reassign o org repo left) (moved-Net j later w) (more _)
      moves none_serves later more =
          same_pool w (record w { now = later }) (refused repick_failed) refl
      moves pick_cancelled later more =
          same_pool w (record w { now = later }) (refused repick_failed) refl
      moves out_of_rounds later more =
          same_pool w (record w { now = later }) (refused repick_failed) refl

  reassign-Net :
      (org repo : Text) (left : ℕ) (w : World) → After none_due w (reassign o org repo left w)
  unfolding reassign
  reassign-Net org repo zero w =
      same_pool w w (refused (other_error (text "rate limit exhausted across 30 token reassigns")))
        refl
  reassign-Net org repo (suc left) w = move-Net org repo left w (λ v. reassign-Net org repo left v)

  -- Where its token is in the pool a round trip settles one request, the one of that token: whatever
  -- it answers, and however often it moves to another token, that token gives back one request more
  -- than it is picked for meanwhile, every other token gives back as many as it is picked for, no slot
  -- stays taken, and the tokens and their scopes are what they were.
  pub round_trip-Net :
      (path : Text) (i : ℕ) (w : World)
      → i < length w.pool.tokens
      → Net (one_of i) w.pool (round_trip o path i w).1.pool
  unfolding round_trip
  round_trip-Net path i w valid =
      let (org, repo) = parse_org_repo_from_path path in
      let one = do_round_trip-Net i w in
      let n : Net (one_of i) w.pool (do_round_trip o i w).1.pool =
        same_count (λ j. ground (arith, valid)) one in
      goes_on (one_of i) w (do_round_trip o i w) (reassign o org repo max_rate_limit_reassigns) n
        (reassign-Net org repo max_rate_limit_reassigns (do_round_trip o i w).1)
