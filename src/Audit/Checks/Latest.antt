-- ===== src/Audit/Checks/Latest.antt =====
-- The run of a required check that counts, and when the checks are satisfied.
use gh_audit.Model.{CheckRun}
use gh_audit.Audit.Checks.{pick_run, newer_run, is_run_of, latest_run}
use gh_audit.Audit.Types.{RequiredCheck}
use gh_audit.Text.{Text, equal_fold}
use gh_audit.Prelude.{
  ◌≤◌, ◌<◌, ◌≡◌, ◌≢◌, ◌↔◌, ◌⊎◌, inl, inr, true, false, ◌&&◌, Option, none, some, List, [], ◌∷◌,
  Memᴰ, arith, if◌then◌else◌, Bool-cases, nat_eq, text_beq_iff, text_eq,
}

module _ (head_sha : Text) (rc : RequiredCheck) where
  -- The run is one of the check, whose name is compared without case, on the head commit.
  abbrev pub IsRunOf : CheckRun → Type 0
  IsRunOf cr = (cr.commit_sha ≡ head_sha) × (equal_fold cr.check_name rc.name ≡ true)

  -- The first completed before the second, or with it and has no greater id; a run that has not
  -- completed has the time 0.
  abbrev pub NotAfter : CheckRun → CheckRun → Type 0
  NotAfter a b =
      (a.completed_at < b.completed_at)
      ⊎ ((a.completed_at ≡ b.completed_at) × (a.check_run_id ≤ b.check_run_id))

  -- `cr` is a run of the check on the head, and no other comes after it.
  pub record IsLatest (runs : List CheckRun) (cr : CheckRun) : Type 0 where
    pub given : Memᴰ cr runs
    pub of_check : IsRunOf cr
    pub newest : (other : CheckRun) → Memᴰ other runs → IsRunOf other → NotAfter other cr

  pub is_run_of_iff : (cr : CheckRun) → (is_run_of head_sha rc cr ≡ true) ↔ IsRunOf cr
  is_run_of_iff cr = ground (arith, text_beq_iff cr.commit_sha head_sha)

  newer_run_lem : (a b : CheckRun) → newer_run a b ≡ false → NotAfter a b
  newer_run_lem a b h = unfold newer_run in ground arith

  newer_irrefl : (a : CheckRun) → newer_run a a ≡ false
  newer_irrefl a = unfold newer_run in ground arith

  newer_below :
      (a b c : CheckRun) → newer_run a b ≡ true → newer_run a c ≡ false → newer_run b c ≡ false
  newer_below a b c h k = unfold newer_run in ground arith

  not_newer_trans :
      (a b c : CheckRun) → newer_run a b ≡ false → newer_run b c ≡ false → newer_run a c ≡ false
  not_newer_trans a b c h k = unfold newer_run in ground arith

  -- What the inner loop ends with is none older than what it began with, or than any run it passed.
  record Ends (latest : Option CheckRun) (runs : List CheckRun) (cr : CheckRun) : Type 0 where
    source : (latest ≡ some cr) ⊎ (Memᴰ cr runs × (is_run_of head_sha rc cr ≡ true))
    over_start : (l : CheckRun) → latest ≡ some l → newer_run l cr ≡ false
    over_runs :
        (o : CheckRun) → Memᴰ o runs → is_run_of head_sha rc o ≡ true → newer_run o cr ≡ false

  abbrev next_run : CheckRun → Option CheckRun → Option CheckRun
  next_run r latest = if is_run_of head_sha rc r then pick_run r latest else latest

  Ends-source :
      (r : CheckRun) (latest : Option CheckRun) (cr : CheckRun)
      → next_run r latest ≡ some cr
      → (latest ≡ some cr) ⊎ ((cr ≡ r) × (is_run_of head_sha rc r ≡ true))
  Ends-source r none cr h = elim (Bool-cases (is_run_of head_sha rc r)) [
    | inl on ↦ inr (ground arith, on)
    | inr off ↦ inl (ground arith)
  ]
  Ends-source r (some l) cr h = elim (Bool-cases (is_run_of head_sha rc r && newer_run r l)) [
    | inl on ↦ inr (ground arith, ground arith)
    | inr off ↦ inl (ground arith)
  ]

  Ends-cons :
      (r : CheckRun) (latest : Option CheckRun) (rs : List CheckRun) (cr : CheckRun)
      → Ends (next_run r latest) rs cr
      → Ends latest (r ∷ rs) cr
  Ends-cons r latest rs cr e = record {
    source = elim e.source [
      | inl start ↦ elim (Ends-source r latest cr start) [
        | inl old ↦ inl old
        | inr new ↦ inr (Memᴰ.head new.0, rw new.0 new.1)
      ]
      | inr m ↦ inr (Memᴰ.tail m.0, m.1)
    ];
    over_start = λ l p. kept latest l p e.over_start;
    over_runs = λ o m f. each o m f;
  }
    where
      kept :
          (latest' : Option CheckRun) (l : CheckRun)
          → latest' ≡ some l
          → ((x : CheckRun) → next_run r latest' ≡ some x → newer_run x cr ≡ false)
          → newer_run l cr ≡ false
      kept none l p over = cc
      kept (some q) l p over = ground (arith, over r, over l, newer_below r l cr)

      passed :
          (latest' : Option CheckRun)
          → is_run_of head_sha rc r ≡ true
          → ((x : CheckRun) → next_run r latest' ≡ some x → newer_run x cr ≡ false)
          → newer_run r cr ≡ false
      passed none f over = ground (arith, over r)
      passed (some q) f over = ground (arith, over r, over q, not_newer_trans r q cr)

      each :
          (o : CheckRun) → Memᴰ o (r ∷ rs) → is_run_of head_sha rc o ≡ true → newer_run o cr ≡ false
      each o (Memᴰ.head p) f = rw p (passed latest (rw p at f) e.over_start)
      each o (Memᴰ.tail m) f = e.over_runs o m f

  latest_run-Ends :
      (latest : Option CheckRun) (runs : List CheckRun) (cr : CheckRun)
      → latest_run head_sha rc latest runs ≡ some cr
      → Ends latest runs cr
  unfolding latest_run
  latest_run-Ends latest [] cr h = record {
    source = inl h;
    over_start = λ l e. ground (arith, newer_irrefl cr);
    over_runs = λ o m. elim m [ ];
  }
  latest_run-Ends latest (r ∷ rs) cr h =
      Ends-cons r latest rs cr (latest_run-Ends (next_run r latest) rs cr h)

  -- The run that counts is the latest.
  pub latest_run-IsLatest :
      (runs : List CheckRun) (cr : CheckRun)
      → latest_run head_sha rc none runs ≡ some cr
      → IsLatest runs cr
  latest_run-IsLatest runs cr h = elim (latest_run-Ends none runs cr h).source [
    | inl never ↦ absurd (cc)
    | inr m ↦ record {
      given = m.0;
      of_check = (is_run_of_iff cr).0 m.1;
      newest = λ o mo on.
          newer_run_lem o cr
            ((latest_run-Ends none runs cr h).over_runs o mo ((is_run_of_iff o).1 on));
    }
  ]

  some_run :
      (runs : List CheckRun) (latest : Option CheckRun)
      → latest ≢ none
      → latest_run head_sha rc latest runs ≢ none
  unfolding latest_run
  some_run [] latest n = n
  some_run (r ∷ rs) latest n = some_run rs (next_run r latest) (λ e. ground arith)

  -- Only where the check has no run on the head does none count.
  pub latest_run-none :
      (runs : List CheckRun) (latest : Option CheckRun) (cr : CheckRun)
      → latest_run head_sha rc latest runs ≡ none
      → Memᴰ cr runs
      → is_run_of head_sha rc cr ≡ false
  unfolding latest_run
  latest_run-none [] latest cr h m = elim m [ ]
  latest_run-none (r ∷ rs) latest cr h (Memᴰ.head p) =
      elim (Bool-cases (is_run_of head_sha rc cr)) [
        | inl on ↦ absurd (some_run rs (next_run r latest) (λ e. ground arith) h)
        | inr off ↦ off
      ]
  latest_run-none (r ∷ rs) latest cr h (Memᴰ.tail m) = latest_run-none rs (next_run r latest) cr h m
