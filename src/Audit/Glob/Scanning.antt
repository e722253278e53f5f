-- ===== src/Audit/Glob/Scanning.antt =====
-- What each step of globMatch's scan keeps of its invariant.
use gh_audit.Audit.Glob.Invariant.{rest_of, StarOk, Good, Answer, cost, Kept}
use gh_audit.Audit.Glob.Matches.{
  length-IsSuffix, IsSuffix-trans, star-Somewhere, Somewhere-cons, Somewhere-star, take_one, skip,
  there, byte, here, Matches, IsSuffix, Somewhere,
}
use gh_audit.Text.{Text}
use gh_audit.Prelude.{
  ℕ, suc, ◌+◌, ◌*◌, ◌≤◌, ◌<◌, ◌≡◌, refl, ap, subst, ◌≢◌, ◌↔◌, ◌⊎◌, inl, inr, Bool, ◌||◌, Option,
  none, some, [], ◌∷◌, arith, ◌==◌, nat_eq, text_eq, length,
}

fits : ℕ → ℕ → Bool
fits q c = q == b'?' || q == c

-- A byte that is no `*` takes one byte of the text.
pub byte_taken :
    {q : ℕ} {p t : Text}
    → q ≢ b'*'
    → Matches (q ∷ p) t
    → (c : ℕ) × (s : Text) × (t ≡ c ∷ s) × ((q ≡ b'?') ⊎ (q ≡ c)) × Matches p s
byte_taken n (byte q c p s n' h m) = (c, s, refl, h, m)
byte_taken n (skip q p s e m) = absurd (n e)
byte_taken n (take_one q c p s e m) = absurd (n e)

IsSuffix-tail : {t s : Text} (c : ℕ) (r : Text) → t ≡ c ∷ r → IsSuffix t s → IsSuffix r s
IsSuffix-tail c r e (here t) = rw e (there r c r (here r))
IsSuffix-tail c r e (there t d s h) = there r d s (IsSuffix-tail c r e h)

byte-Somewhere : (q c : ℕ) (p s : Text) → q ≢ b'*' → Somewhere (q ∷ p) (c ∷ s) → Somewhere p s
byte-Somewhere q c p s plain (t, h, m) =
    let (d, r, e, fit, m') = byte_taken plain m in (r, later d r e h, m')
  where
    later : {t' : Text} (d : ℕ) (r : Text) → t' ≡ d ∷ r → IsSuffix t' (c ∷ s) → IsSuffix r s
    later d r e (here s') = subst (λ x. IsSuffix x s) (ap rest_of e) (here s)
    later d r e (there t' c' s' h') = IsSuffix-tail d r e h'

byte_iff :
    (q c : ℕ) (p s : Text) → q ≢ b'*' → (q ≡ b'?') ⊎ (q ≡ c) → Matches p s ↔ Matches (q ∷ p) (c ∷ s)
byte_iff q c p s plain fit = (byte q c p s plain fit, back)
  where
    back : Matches (q ∷ p) (c ∷ s) → Matches p s
    back m = let (d, r, e, _, m') = byte_taken plain m in rw (ap rest_of e) m'

module _ (big_p big_s : ℕ) where
  times : (a b : ℕ) → a ≤ b → a * (big_s + big_p + 2) ≤ b * (big_s + big_p + 2)
  times a b h = grind arith

  -- The byte fits.
  pub byte-Kept :
      (q c : ℕ) (p s : Text) (star : Option (Text × Text))
      → q ≢ b'*'
      → (q ≡ b'?') ⊎ (q ≡ c)
      → Good big_p big_s (q ∷ p) (c ∷ s) star
      → Kept big_p big_s (q ∷ p) (c ∷ s) star (record { pat = p; txt = s; star = star })
  byte-Kept q c p s none plain fit g = record {
    good = record {
      pat_le = omega (arith, g.pat_le);
      txt_le = omega (arith, g.txt_le);
      plain = g.plain.1;
      star_ok = tt;
    };
    cheaper = omega arith;
    same = byte_iff q c p s plain fit;
  }
  byte-Kept q c p s (some (a, mark)) plain fit g = record {
    good = record {
      pat_le = omega (arith, g.pat_le);
      txt_le = omega (arith, g.txt_le);
      plain = g.plain.1;
      star_ok = (
        g.star_ok.0,
        g.star_ok.1,
        g.star_ok.2,
        IsSuffix-tail c s refl g.star_ok.3,
        λ t h m. byte-Somewhere q c p s plain (g.star_ok.4 t h m),
      );
    };
    cheaper = omega arith;
    same = (
      λ j. elim j [ inl m ↦ inl ((byte_iff q c p s plain fit).0 m) | inr w ↦ inr w ],
      λ j. elim j [ inl m ↦ inl ((byte_iff q c p s plain fit).1 m) | inr w ↦ inr w ],
    );
  }

  Somewhere-iff :
      (q c : ℕ) (p s : Text)
      → q ≡ b'*'
      → (Matches p (c ∷ s) ⊎ Somewhere p s) ↔ Matches (q ∷ p) (c ∷ s)
  Somewhere-iff q c p s e = (
    λ j. elim j [
      | inl m ↦ skip q p (c ∷ s) e m
      | inr w ↦ Somewhere-star q p (c ∷ s) e (Somewhere-cons p c s w)
    ],
    λ m. split (star-Somewhere e m),
  )
    where
      at : {t : Text} → IsSuffix t (c ∷ s) → Matches p t → Matches p (c ∷ s) ⊎ Somewhere p s
      at (here t) m = inl m
      at (there t d s' h) m = inr (t, h, m)

      split : Somewhere p (c ∷ s) → Matches p (c ∷ s) ⊎ Somewhere p s
      split (t, h, m) = at h m

  -- A `*`: what came before it is settled, since a later match would go through this `*` too.
  pub star-Kept :
      (q c : ℕ) (p s : Text) (star : Option (Text × Text))
      → q ≡ b'*'
      → Good big_p big_s (q ∷ p) (c ∷ s) star
      → Kept big_p big_s
          (q ∷ p)
          (c ∷ s)
          star
          (record { pat = p; txt = c ∷ s; star = some (p, c ∷ s) })
  star-Kept q c p s star e g = record {
    good = record {
      pat_le = omega (arith, g.pat_le);
      txt_le = g.txt_le;
      plain = g.plain;
      star_ok = (
        omega (arith, g.pat_le),
        g.txt_le,
        g.plain,
        here (c ∷ s),
        λ t h m. (t, there t c s h, m),
      );
    };
    cheaper = less star g.star_ok;
    same = (
      λ j. up star ((Somewhere-iff q c p s e).0 j),
      λ j. (Somewhere-iff q c p s e).1 (down star g.star_ok j),
    );
  }
    where
      up : (o : Option (Text × Text)) → Matches (q ∷ p) (c ∷ s) → Answer (q ∷ p) (c ∷ s) o
      up none m = m
      up (some (a, mark)) m = inl m

      down :
          (o : Option (Text × Text))
          → StarOk big_p big_s (q ∷ p) (c ∷ s) o
          → Answer (q ∷ p) (c ∷ s) o
          → Matches (q ∷ p) (c ∷ s)
      down none held m = m
      down (some (a, mark)) held (inl m) = m
      down (some (a, mark)) held (inr w) =
          let (t, h, m) = held.4 w.0 w.1 w.2 in
          Somewhere-star q p (c ∷ s) e (flat (star-Somewhere e m) h)
        where
          flat : {t : Text} → Somewhere p t → IsSuffix t (c ∷ s) → Somewhere p (c ∷ s)
          flat (t, k, m) h = (t, IsSuffix-trans k h, m)

      less :
          (o : Option (Text × Text))
          → StarOk big_p big_s (q ∷ p) (c ∷ s) o
          → cost big_p big_s p (c ∷ s) (some (p, c ∷ s)) < cost big_p big_s (q ∷ p) (c ∷ s) o
      less none held = omega (arith, times (suc (length s)) big_s g.txt_le)
      less (some (a, mark)) held =
          omega (arith, times (suc (length s)) (length mark) (length-IsSuffix held.3))

  -- Back to the last `*`: what is left does not match, so it takes one byte more.
  pub back-Kept :
      (p : Text) (c : ℕ) (s : Text) (a : Text) (d : ℕ) (mark : Text)
      → ¬ Matches p (c ∷ s)
      → Good big_p big_s p (c ∷ s) (some (a, d ∷ mark))
      → Kept big_p big_s p
          (c ∷ s)
          (some (a, d ∷ mark))
          (record { pat = a; txt = mark; star = some (a, mark) })
  back-Kept p c s a d mark no_match g = record {
    good = record {
      pat_le = g.star_ok.0;
      txt_le = omega (arith, g.star_ok.1);
      plain = g.star_ok.2.1;
      star_ok = (
        g.star_ok.0,
        omega (arith, g.star_ok.1),
        g.star_ok.2.1,
        here mark,
        λ t h m. (t, widen mark h, m),
      );
    };
    cheaper = omega (arith, g.star_ok.0, g.star_ok.1);
    same = (
      λ j. elim j [ inl m ↦ inr (mark, here mark, m) | inr w ↦ inr (w.0, widen mark w.1, w.2) ],
      λ j. elim j [ inl m ↦ absurd (no_match m) | inr w ↦ split w.1 w.2 ],
    );
  }
    where
      widen : {t : Text} (x : Text) → IsSuffix t (rest_of x) → IsSuffix t x
      widen [] h = h
      widen (e ∷ x) h = there _ e x h

      split : {t x : Text} → IsSuffix t x → Matches a t → Matches a x ⊎ Somewhere a (rest_of x)
      split (here x) m = inl m
      split (there t e x h) m = inr (t, h, m)
