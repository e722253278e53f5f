-- ===== src/Audit/Glob/Correct.antt =====
-- globMatch decides whether the pattern matches the text.
use gh_audit.Audit.Glob.Invariant.{IsPlain, StarOk, Kept, cost, Good, Answer}
use gh_audit.Audit.Glob.Scanning.{byte_taken, star-Kept, back-Kept, byte-Kept}
use gh_audit.Audit.Glob.Matches.{
  Somewhere-star, take_one, there, here, skip, byte, IsSuffix, done, length-IsSuffix, Matches,
}
use gh_audit.Audit.Glob.{
  answer, scan_fuel, glob_match, Scan, only_stars, scan_step, scan_loop, go_back,
}
use gh_audit.Text.{text, Text}
use gh_audit.Prelude.{
  ℕ, zero, suc, ◌-◌, ◌<◌, ◌≡◌, refl, ap, subst, ◌≢◌, ◌↔◌, ◌⊎◌, inl, inr, Bool, true, false, ◌||◌,
  Option, none, some, [], ◌∷◌, arith, Bool-cases, ◌==◌, nat_eq, text_eq, length,
}

only_stars-Matches : (p : Text) → only_stars p ≡ true → Matches p []
unfolding only_stars
only_stars-Matches [] h = done
only_stars-Matches (q ∷ p) h = elim (Bool-cases (q == b'*')) [
  | inl e ↦ skip q p [] (ground arith) (only_stars-Matches p (ground arith))
  | inr e ↦ absurd (ground arith)
]

Matches-only_stars : {p s : Text} → Matches p s → s ≡ [] → only_stars p ≡ true
unfolding only_stars
Matches-only_stars done e = refl
Matches-only_stars (byte q c p s n h m) e = cc
Matches-only_stars (skip q p s star m) e = ground (arith, Matches-only_stars m e)
Matches-only_stars (take_one q c p s star m) e = cc

at_end : {p t s : Text} → IsSuffix t s → s ≡ [] → Matches p t → Matches p []
at_end {p} (here s) e m = subst (Matches p) e m
at_end (there t c s h) e m = absurd (cc)

module _ (big_p big_s : ℕ) where
  go_back-Stepped :
      (p : Text) (c : ℕ) (s : Text) (star : Option (Text × Text))
      → ¬ Matches p (c ∷ s)
      → Good big_p big_s p (c ∷ s) star
      → ((go_back star ≡ none) × ¬ Answer p (c ∷ s) star)
        ⊎ ((u : Scan) × (go_back star ≡ some u) × Kept big_p big_s p (c ∷ s) star u)
  unfolding go_back
  go_back-Stepped p c s none n g = inl (refl, n)
  go_back-Stepped p c s (some (a, [])) n g = absurd (omega (arith, length-IsSuffix g.star_ok.3))
  go_back-Stepped p c s (some (a, d ∷ mark)) n g =
      inr (_, refl, back-Kept big_p big_s p c s a d mark n g)

  scan_step-Stepped :
      (p : Text) (c : ℕ) (s : Text) (star : Option (Text × Text))
      → Good big_p big_s p (c ∷ s) star
      → ((scan_step p c s star ≡ none) × ¬ Answer p (c ∷ s) star)
        ⊎ ((u : Scan) × (scan_step p c s star ≡ some u) × Kept big_p big_s p (c ∷ s) star u)
  unfolding scan_step
  scan_step-Stepped [] c s star g = go_back-Stepped [] c s star (λ m. elim m [ ]) g
  scan_step-Stepped (q ∷ p) c s star g = elim (Bool-cases (q == b'?' || q == c)) [
    | inl fit ↦
        let plain : q ≢ b'*' = λ e. ground (arith, g.plain.0) in
        inr (_, rw fit refl, byte-Kept big_p big_s q c p s star plain (ground arith) g)
    | inr off ↦ elim (Bool-cases (q == b'*')) [
      | inl star_here ↦
          inr (_, rw (off, star_here) refl, star-Kept big_p big_s q c p s star (ground arith) g)
      | inr other ↦ rw (off, other) (go_back-Stepped (q ∷ p) c s star (no_match off other) g)
    ]
  ]
    where
      no_match : (q == b'?' || q == c) ≡ false → (q == b'*') ≡ false → ¬ Matches (q ∷ p) (c ∷ s)
      no_match off other m =
          let (d, r, e, fit, m') = byte_taken (λ e. ground arith) m in ground arith

  -- With enough fuel the scan answers, and answers the question.
  scan_loop_lem :
      (f : ℕ) (p s : Text) (star : Option (Text × Text))
      → Good big_p big_s p s star
      → cost big_p big_s p s star < f
      → (b : Bool) × (scan_loop f (record { pat = p; txt = s; star = star }) ≡ some b)
        × ((b ≡ true) ↔ Answer p s star)
  unfolding scan_loop
  scan_loop_lem zero p s star g h = absurd (omega arith)
  scan_loop_lem (suc f) p [] star g h = (only_stars p, refl, ended star g.star_ok)
    where
      ended :
          (o : Option (Text × Text))
          → StarOk big_p big_s p [] o
          → (only_stars p ≡ true) ↔ Answer p [] o
      ended none k = (only_stars-Matches p, λ m. Matches-only_stars m refl)
      ended (some (a, mark)) k = (
        λ e. inl (only_stars-Matches p e),
        λ j. elim j [
          | inl m ↦ Matches-only_stars m refl
          | inr w ↦
              let (t, suffix, m) = k.4 w.0 w.1 w.2 in Matches-only_stars (at_end suffix refl m) refl
        ],
      )
  scan_loop_lem (suc f) p (c ∷ s) star g h = elim (scan_step-Stepped p c s star g) [
    | inl stop ↦ (false, ground (arith, stop.0), (λ e. cc, λ a. absurd (stop.1 a)))
    | inr step ↦
        let (u, e, k) = step in
        let (b, found, same) =
          scan_loop_lem f u.pat u.txt u.star k.good (omega (arith, k.cheaper)) in
        (b, ground (arith, e, found), (λ x. k.same.0 (same.0 x), λ x. same.1 (k.same.1 x)))
  ]

-- On a text that holds no `*` globMatch says exactly whether the pattern matches it: its greedy
-- scan, which goes back to the last `*` only, ends, with an answer and before its fuel is used up, and
-- the answer misses no match.
pub glob_match_iff :
    (pattern s : Text)
    → IsPlain s
    → (scan_loop (scan_fuel pattern s) (record { pat = pattern; txt = s; star = none })
        ≡ some (glob_match pattern s))
      × ((glob_match pattern s ≡ true) ↔ Matches pattern s)
unfolding glob_match
glob_match_iff pattern s plain =
    let (b, found, same) =
      scan_loop_lem (length pattern) (length s) (scan_fuel pattern s) pattern s none
        (record { pat_le = omega arith; txt_le = omega arith; plain = plain; star_ok = tt })
        (unfold scan_fuel in omega arith) in
    rw (found, answer) (refl, same)

nil-IsSuffix : (s : Text) → IsSuffix [] s
nil-IsSuffix [] = here []
nil-IsSuffix (c ∷ s) = there [] c s (nil-IsSuffix s)

stops :
    (n c : ℕ) (s : Text)
    → scan_loop (suc (suc n)) (record { pat = text "*"; txt = b'*' ∷ c ∷ s; star = none })
      ≡ some false
unfolding scan_loop scan_step go_back
stops n c s = refl

-- A text of two bytes or more that starts with a `*` is not matched by the pattern `*`, though it
-- should be: the scan takes the two for equal bytes before it looks for a wildcard.
pub glob_match-literal_star :
    (c : ℕ) (s : Text)
    → (glob_match (text "*") (b'*' ∷ c ∷ s) ≡ false) × Matches (text "*") (b'*' ∷ c ∷ s)
glob_match-literal_star c s =
    (missed, Somewhere-star b'*' [] (b'*' ∷ c ∷ s) refl ([], nil-IsSuffix _, done))
  where
    fuel : ℕ
    fuel = scan_fuel (text "*") (b'*' ∷ c ∷ s)

    enough : fuel ≡ suc (suc (fuel - 2))
    enough = unfold scan_fuel in omega arith

    missed : glob_match (text "*") (b'*' ∷ c ∷ s) ≡ false
    missed = unfold glob_match in rw enough (ap answer (stops (fuel - 2) c s))
