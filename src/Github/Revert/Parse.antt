-- ===== src/Github/Revert/Parse.antt =====
-- The texts that git and GitHub write for a revert are read back.
use gh_audit.Text.Prefix.{strip_prefix_sound, positive_int-itoa, span_digits-append}
use gh_audit.Text.Decimal.{atoi, digits-itoa, itoa}
use gh_audit.Text.{has_prefix, positive_int, leftmost, strip_prefix, text, Text}
use gh_audit.Github.Revert.{
  trailer_sha, manual_revert, auto_revert_sha, trailer_at, reverts_a_revert, numbered, auto_revert,
  is_hex, hex_run, parse_revert_branch_name, parse_revert,
}
use gh_audit.Prelude.{
  ℕ, zero, suc, ◌^◌, ◌<◌, ◌≡◌, refl, ap, ◌∙◌, ◌≢◌, inl, inr, true, false, some, [], ◌∷◌, ◌++◌,
  arith, Option-cases, nat_eq, text_eq, length, all,
}

-- A commit's hash: forty hexadecimal digits.
abbrev pub IsSha : Text → Type 0
IsSha sha = (length sha ≡ 40) × (all is_hex sha ≡ true)

hex_run-append :
    (n : ℕ) (h s : Text) → length h ≡ n → all is_hex h ≡ true → hex_run n (h ++ s) ≡ some (h, s)
unfolding hex_run
hex_run-append zero [] s e a = refl
hex_run-append zero (c ∷ h) s e a = absurd (omega arith)
hex_run-append (suc n) [] s e a = absurd (omega arith)
hex_run-append (suc n) (c ∷ h) s e a = ground (arith, hex_run-append n h s)

numbered_lem :
    (ds base : Text) (n : ℕ) → positive_int ds ≡ some n → numbered ds (b'-' ∷ base) ≡ some n
unfolding numbered
numbered_lem [] base n h = unfold positive_int atoi in cc
numbered_lem (d ∷ ds) base n h = h

-- `revert-<N>-<base>` names the pull request N, where N is positive and fits an int.
parse_revert_branch_name_lem :
    (n : ℕ) (base : Text)
    → 0 < n
    → n < 2 ^ 63
    → parse_revert_branch_name (text "revert-" ++ itoa n ++ b'-' ∷ base) ≡ some n
unfolding parse_revert_branch_name strip_prefix
parse_revert_branch_name_lem n base pos small =
    rw (span_digits-append (itoa n) b'-' base (digits-itoa n) refl)
      (numbered_lem (itoa n) base n (positive_int-itoa n pos small))

-- A bot's message, "Automatic revert of <new>..<old>" with two hashes of forty digits, gives the
-- first of them, whatever follows.
pub parse_revert-auto :
    (new_sha old_sha rest : Text)
    → IsSha new_sha
    → IsSha old_sha
    → parse_revert (text "Automatic revert of " ++ (new_sha ++ (text ".." ++ (old_sha ++ rest))))
      ≡ (auto_revert, new_sha)
unfolding parse_revert reverts_a_revert auto_revert_sha strip_prefix has_prefix
parse_revert-auto new_sha old_sha rest a b = rw (
  hex_run-append 40 new_sha (text ".." ++ (old_sha ++ rest)) a.0 a.1,
  hex_run-append 40 old_sha rest b.0 b.1,
)

hex_run_sound :
    (n : ℕ) (s h r : Text)
    → hex_run n s ≡ some (h, r)
    → (s ≡ h ++ r) × (length h ≡ n) × (all is_hex h ≡ true)
unfolding hex_run
hex_run_sound zero s h r e = ground arith
hex_run_sound (suc n) [] h r e = cc
hex_run_sound (suc n) (c ∷ s) h r e = elim (Option-cases (hex_run n s)) [
  | inl gone ↦ absurd (ground arith)
  | inr found ↦ ground (arith, found.1, hex_run_sound n s found.0.0 found.0.1 found.1)
]

-- The trailer with a hash stands somewhere in the text.
pub record HoldsTrailer (message sha : Text) : Type 0 where
  pub before : Text
  pub behind : Text
  pub text_eq : message ≡ before ++ (text "This reverts commit " ++ (sha ++ behind))
  pub hash : IsSha sha

trailer_at_sound : (s sha : Text) → trailer_at s ≡ some sha → HoldsTrailer s sha
trailer_at_sound s sha h =
    unfold trailer_at in
    elim (Option-cases (strip_prefix (text "This reverts commit ") s)) [
      | inl gone ↦ absurd (ground arith)
      | inr found ↦ elim (Option-cases (hex_run 40 found.0)) [
        | inl gone ↦ absurd (ground (arith, found.1))
        | inr run ↦
            let (split, len, hex) = hex_run_sound 40 found.0 run.0.0 run.0.1 run.1 in
            let same : run.0.0 ≡ sha = ground (arith, found.1, run.1) in
            record {
              before = [];
              behind = run.0.1;
              text_eq =
                  strip_prefix_sound (text "This reverts commit ") s found.0 found.1
                  ∙ ap (λ x. text "This reverts commit " ++ x) (rw (← same) split);
              hash = (rw (← same) len, rw (← same) hex);
            }
      ]
    ]

-- What a search finds stands in the text.
trailer_sha_sound : (s sha : Text) → trailer_sha s ≡ some sha → HoldsTrailer s sha
unfolding trailer_sha leftmost
trailer_sha_sound [] sha h = trailer_at_sound [] sha h
trailer_sha_sound (c ∷ s) sha h = elim (Option-cases (trailer_at (c ∷ s))) [
  | inr found ↦ trailer_at_sound (c ∷ s) sha (ground (arith, found.1))
  | inl none_here ↦
      let t = trailer_sha_sound s sha (ground (arith, none_here)) in
      record {
        before = c ∷ t.before;
        behind = t.behind;
        text_eq = ap (λ x. c ∷ x) t.text_eq;
        hash = t.hash;
      }
]

-- A hash that a manual revert's message yields is forty hexadecimal digits, and stands behind
-- "This reverts commit " in a message that starts as a revert's.
parse_revert-manual :
    (message sha : Text)
    → sha ≢ []
    → parse_revert message ≡ (manual_revert, sha)
    → HoldsTrailer message sha
      × (has_prefix message (text "Revert \"") ≡ true)
      × (reverts_a_revert message ≡ false)
unfolding parse_revert
parse_revert-manual message sha some_sha h = elim (Option-cases (trailer_sha message)) [
  | inl gone ↦ absurd (ground arith)
  | inr found ↦
      let same : trailer_sha message ≡ some sha = ground arith in
      (trailer_sha_sound message sha same, ground arith, ground arith)
]
