-- ===== src/Text/Prefix.antt =====
-- Literals at the front of a text.
use gh_audit.Text.Decimal.{atoi-itoa, is_digit, itoa}
use gh_audit.Text.{Text, strip_prefix, span_digits, positive_int, has_prefix}
use gh_audit.Prelude.{
  ℕ, ◌^◌, ◌<◌, ◌≡◌, refl, true, false, some, [], ◌∷◌, ◌++◌, arith, nat_beq_iff, nat_eq, text_eq,
  all,
}

strip_prefix-append : (p s : Text) → strip_prefix p (p ++ s) ≡ some s
unfolding strip_prefix
strip_prefix-append [] s = refl
strip_prefix-append (c ∷ p) s = rw ((nat_beq_iff c c).1 refl) (strip_prefix-append p s)

has_prefix-append : (p s : Text) → has_prefix (p ++ s) p ≡ true
unfolding has_prefix
has_prefix-append [] s = refl
has_prefix-append (c ∷ p) s = rw ((nat_beq_iff c c).1 refl) (has_prefix-append p s)

-- A run of digits that something else follows is read whole.
pub span_digits-append :
    (ds : Text) (c : ℕ) (s : Text)
    → all is_digit ds ≡ true
    → is_digit c ≡ false
    → span_digits (ds ++ c ∷ s) ≡ (ds, c ∷ s)
unfolding span_digits
span_digits-append [] c s h k = ground arith
span_digits-append (d ∷ ds) c s h k = ground (arith, span_digits-append ds c s)

pub positive_int-itoa : (n : ℕ) → 0 < n → n < 2 ^ 63 → positive_int (itoa n) ≡ some n
unfolding positive_int
positive_int-itoa n pos small = rw (atoi-itoa n) (ground arith)

pub strip_prefix_sound : (p s r : Text) → strip_prefix p s ≡ some r → s ≡ p ++ r
unfolding strip_prefix
strip_prefix_sound [] s r h = cc
strip_prefix_sound (c ∷ p) [] r h = cc
strip_prefix_sound (c ∷ p) (d ∷ s) r h = ground (arith, strip_prefix_sound p s r)
