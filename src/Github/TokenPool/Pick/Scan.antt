-- ===== src/Github/TokenPool/Pick/Scan.antt =====
-- What the loop of tryPick knows of the tokens that it has passed.
use mathlib.Core.List.{append_assoc, append-nil}
use gh_audit.Prelude.{
  sym, subst, Option-cases, Bool-cases, ℕ, ◌≤◌, ◌≡◌, refl, inl, inr, Bool, true, false, not, ◌&&◌,
  ◌||◌, Option, none, some, List, [], ◌∷◌, ◌++◌, Memᴰ, arith, if◌then◌else◌, nat_eq, text_eq,
  length,
}
use gh_audit.Text.{Text}
use gh_audit.Github.TokenPool.{nth, ltb, ManagedToken, exhausted, cooling}
use gh_audit.Github.TokenPool.Pick.{
  no_choice, pick_loop, pick_step, better, earlier, Choice, serves, outscores,
}
use gh_audit.Github.TokenPool.Pick.Positions.{
  nth-append, nth-length, mem-snoc, snoc-mem, length-snoc,
}
use gh_audit.Github.TokenPool.Pick.Scores.{better_cases, better-some}

module _ (now : ℕ) (org repo : Text) where
  -- A token that can take a request for the repository now.
  abbrev pub is_ready : ManagedToken → Bool
  is_ready t = serves org repo t && not (exhausted now t) && not (cooling now t)

  -- The instant until which a token that is not ready is skipped.
  abbrev pub blocked_until : ManagedToken → ℕ
  blocked_until t = if exhausted now t then t.rate_reset_at else t.abuse_cooldown_until

  abbrev pub is_blocked : ManagedToken → Bool
  is_blocked t = serves org repo t && (exhausted now t || cooling now t)

  pub record Scanned (passed : List ManagedToken) (c : Choice) : Type 0 where
    pub unserved : c.found ≡ false → (u : ManagedToken) → Memᴰ u passed → serves org repo u ≡ false
    pub served : c.found ≡ true → (u : ManagedToken) × Memᴰ u passed × (serves org repo u ≡ true)
    pub none_ready : c.best ≡ none → (u : ManagedToken) → Memᴰ u passed → is_ready u ≡ false
    pub chosen :
        (i : ℕ) (t : ManagedToken)
        → c.best ≡ some (i, t)
        → (nth i passed ≡ some t) × (is_ready t ≡ true)
    pub most :
        (i : ℕ) (t : ManagedToken)
        → c.best ≡ some (i, t)
        → (u : ManagedToken) → Memᴰ u passed
        → is_ready u ≡ true
        → outscores u t ≡ false
    pub least :
        (u : ManagedToken)
        → Memᴰ u passed
        → is_blocked u ≡ true
        → (e : ℕ) × (c.earliest ≡ some e) × (e ≤ blocked_until u)
    pub reached :
        (e : ℕ)
        → c.earliest ≡ some e
        → (u : ManagedToken) × Memᴰ u passed × (is_blocked u ≡ true) × (blocked_until u ≡ e)

  -- A token that is not in the pool for the repository changes nothing.
  skip_unserved :
      (ts : List ManagedToken) (t : ManagedToken) (c : Choice)
      → serves org repo t ≡ false
      → Scanned ts c
      → Scanned (ts ++ t ∷ []) c
  skip_unserved ts t c out v = record {
    unserved = λ f u m. elim (mem-snoc ts m) [ inl n ↦ v.unserved f u n | inr e ↦ rw e out ];
    served = λ f. let (u, m, s) = v.served f in (u, snoc-mem ts (inl m), s);
    none_ready = λ b u m. elim (mem-snoc ts m) [
      | inl n ↦ v.none_ready b u n
      | inr e ↦ rw e (ground (arith, out))
    ];
    chosen = λ i b h. let (at, r) = v.chosen i b h in (nth-append i ts (t ∷ []) at, r);
    most = λ i b h u m r. elim (mem-snoc ts m) [
      | inl n ↦ v.most i b h u n r
      | inr e ↦ absurd (ground (arith, out, r, e))
    ];
    least = λ u m b. elim (mem-snoc ts m) [
      | inl n ↦ v.least u n b
      | inr e ↦ absurd (ground (arith, out, b, e))
    ];
    reached = λ e h. let (u, m, b, at) = v.reached e h in (u, snoc-mem ts (inl m), b, at);
  }

  -- A blocked token moves the earliest instant forward.
  pass_blocked :
      (ts : List ManagedToken) (t : ManagedToken) (c : Choice)
      → is_blocked t ≡ true
      → Scanned ts c
      → Scanned
          (ts ++ t ∷ [])
          (record c { found = true; earliest = earlier (blocked_until t) c.earliest })
  pass_blocked ts t c block v = record {
    unserved = λ f. absurd (ground arith);
    served = λ f. (t, snoc-mem ts (inr refl), ground (arith, block));
    none_ready = λ b u m. elim (mem-snoc ts m) [
      | inl n ↦ v.none_ready b u n
      | inr e ↦ rw e (ground (arith, block))
    ];
    chosen = λ i b h. let (at, r) = v.chosen i b h in (nth-append i ts (t ∷ []) at, r);
    most = λ i b h u m r. elim (mem-snoc ts m) [
      | inl n ↦ v.most i b h u n r
      | inr e ↦ absurd (ground (arith, block, r, e))
    ];
    least = λ u m b. elim (mem-snoc ts m) [
      | inl n ↦ sooner u (v.least u n b)
      | inr e ↦ rw e (own c.earliest)
    ];
    reached = λ e h. elim (Option-cases c.earliest) [
      | inl none_yet ↦ (t, snoc-mem ts (inr refl), block, ground (arith, h, none_yet))
      | inr (f, old) ↦ elim (Bool-cases (ltb (blocked_until t) f)) [
        | inl first ↦ (t, snoc-mem ts (inr refl), block, ground (arith, h, old, first))
        | inr later ↦
            let (u, m, b, at) = v.reached f old in
            (u, snoc-mem ts (inl m), b, ground (arith, h, old, later, at))
      ]
    ];
  }
    where
      own :
          (o : Option ℕ) → (e : ℕ) × (earlier (blocked_until t) o ≡ some e) × (e ≤ blocked_until t)
      own none = (blocked_until t, refl, omega arith)
      own (some f) = elim (Bool-cases (ltb (blocked_until t) f)) [
        | inl first ↦ (blocked_until t, rw first refl, omega arith)
        | inr later ↦ (f, rw later refl, ground (arith, later))
      ]

      sooner :
          (u : ManagedToken)
          → (e : ℕ) × (c.earliest ≡ some e) × (e ≤ blocked_until u)
          → (e : ℕ) × (earlier (blocked_until t) c.earliest ≡ some e) × (e ≤ blocked_until u)
      sooner u (e, old, le) = elim (Bool-cases (ltb (blocked_until t) e)) [
        | inl first ↦ (blocked_until t, rw (old, first) refl, ground (arith, first, le))
        | inr later ↦ (e, rw (old, later) refl, le)
      ]

  -- A token that is ready is chosen if its score is the greatest so far.
  pass_ready :
      (ts : List ManagedToken) (t : ManagedToken) (c : Choice)
      → is_ready t ≡ true
      → Scanned ts c
      → Scanned (ts ++ t ∷ []) (record c { found = true; best = better (length ts) t c.best })
  pass_ready ts t c ready v = record {
    unserved = λ f. absurd (ground arith);
    served = λ f. (t, snoc-mem ts (inr refl), ground (arith, ready));
    none_ready = λ b. absurd (better-some (length ts) t c.best b);
    chosen = λ i b h. elim (better_cases (length ts) t c.best i b h) [
      | inl (own, e, _) ↦ rw (own, e) (nth-length ts t, ready)
      | inr (old, _) ↦ let (at, r) = v.chosen i b old in (nth-append i ts (t ∷ []) at, r)
    ];
    most = λ i b h u m r. elim (better_cases (length ts) t c.best i b h) [
      | inl (own, e, wins) ↦
          subst (λ x. outscores u x ≡ false) (sym e)
            (elim (mem-snoc ts m) [
              | inl n ↦ under_old u n r wins
              | inr f ↦ subst (λ x. outscores x t ≡ false) (sym f) (ground arith)
            ])
      | inr (old, low) ↦ elim (mem-snoc ts m) [
        | inl n ↦ v.most i b old u n r
        | inr f ↦ subst (λ x. outscores x b ≡ false) (sym f) low
      ]
    ];
    least = λ u m b. elim (mem-snoc ts m) [
      | inl n ↦ v.least u n b
      | inr e ↦ absurd (ground (arith, ready, b, e))
    ];
    reached = λ e h. let (u, m, b, at) = v.reached e h in (u, snoc-mem ts (inl m), b, at);
  }
    where
      under_old :
          (u : ManagedToken)
          → Memᴰ u ts
          → is_ready u ≡ true
          → ((j : ℕ) (d : ManagedToken) → c.best ≡ some (j, d) → outscores t d ≡ true)
          → outscores u t ≡ false
      under_old u n r wins = elim (Option-cases c.best) [
        | inl first ↦ absurd (ground (arith, v.none_ready first u n, r))
        | inr ((j, d), old) ↦ ground (arith, v.most j d old u n r, wins j d old)
      ]

  pick_step-Scanned :
      (ts : List ManagedToken) (t : ManagedToken) (c : Choice)
      → Scanned ts c
      → Scanned (ts ++ t ∷ []) (pick_step now org repo (length ts) t c)
  unfolding pick_step
  pick_step-Scanned ts t c v = elim (Bool-cases (serves org repo t)) [
    | inr out ↦ rw out (skip_unserved ts t c out v)
    | inl here ↦ elim (Bool-cases (exhausted now t)) [
      | inl spent ↦
          rw (here, spent)
            (let r = pass_blocked ts t c (ground (arith, here, spent)) v in rw spent at r)
      | inr left ↦ elim (Bool-cases (cooling now t)) [
        | inl cool ↦
            rw (here, left, cool)
              (let r = pass_blocked ts t c (ground (arith, here, cool)) v in rw left at r)
        | inr free ↦ rw (here, left, free) (pass_ready ts t c (ground (arith, here, left, free)) v)
      ]
    ]
  ]

  pick_loop-Scanned :
      (passed ts : List ManagedToken) (c : Choice)
      → Scanned passed c
      → Scanned (passed ++ ts) (pick_loop now org repo (length passed) c ts)
  unfolding pick_loop
  pick_loop-Scanned passed [] c v = rw (append-nil passed) v
  pick_loop-Scanned passed (t ∷ ts) c v =
      let more =
        pick_loop-Scanned (passed ++ t ∷ []) ts (pick_step now org repo (length passed) t c)
          (pick_step-Scanned passed t c v) in
      rw (append_assoc passed (t ∷ []) ts, length-snoc passed t) at more

  nothing_yet : Scanned [] no_choice
  nothing_yet = record {
    unserved = λ f u m. elim m [ ];
    served = λ f. absurd (ground arith);
    none_ready = λ b u m. elim m [ ];
    chosen = λ i t h. absurd (ground arith);
    most = λ i t h u m. elim m [ ];
    least = λ u m. elim m [ ];
    reached = λ e h. absurd (ground arith);
  }

  pub scanned : (ts : List ManagedToken) → Scanned ts (pick_loop now org repo 0 no_choice ts)
  scanned ts = pick_loop-Scanned [] ts no_choice nothing_yet
