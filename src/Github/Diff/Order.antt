-- ===== src/Github/Diff/Order.antt =====
-- Go's order of strings is total, so two sorted lists that hold the same strings are one list.
use gh_audit.Prelude.{
  ℕ, suc, ◌<◌, ◌≡◌, refl, sym, inl, inr, true, false, List, [], ◌∷◌, Memᴰ, arith, if◌then◌else◌,
  nat_beq_iff, Bool-cases, ◌==◌, nat_eq, text_beq_iff, text_eq,
}
use gh_audit.Text.{Text}
use gh_audit.Github.Diff.{text_leb}

text_leb_refl : (s : Text) → text_leb s s ≡ true
unfolding text_leb
text_leb_refl [] = refl
text_leb_refl (c ∷ s) = ground (arith, text_leb_refl s, nat_beq_iff c c)

pub text_leb_total : (s t : Text) → text_leb s t ≡ false → text_leb t s ≡ true
unfolding text_leb
text_leb_total [] t h = absurd (ground arith)
text_leb_total (c ∷ s) [] h = refl
text_leb_total (c ∷ s) (d ∷ t) h = ground (arith, text_leb_total s t)

pub text_leb_antisym : (s t : Text) → text_leb s t ≡ true → text_leb t s ≡ true → s ≡ t
unfolding text_leb
text_leb_antisym [] [] h k = refl
text_leb_antisym [] (d ∷ t) h k = absurd (ground arith)
text_leb_antisym (c ∷ s) [] h k = absurd (ground arith)
text_leb_antisym (c ∷ s) (d ∷ t) h k = ground (arith, text_leb_antisym s t)

pub text_leb_trans :
    (s t u : Text) → text_leb s t ≡ true → text_leb t u ≡ true → text_leb s u ≡ true
unfolding text_leb
text_leb_trans [] t u h k = refl
text_leb_trans (c ∷ s) [] u h k = absurd (ground arith)
text_leb_trans (c ∷ s) (d ∷ t) [] h k = absurd (ground arith)
text_leb_trans (c ∷ s) (d ∷ t) (e ∷ u) h k = ground (arith, text_leb_trans s t u)

-- How often a text stands in a list.
unfoldable pub count : Text → List Text → ℕ
count t [] = 0
count t (s ∷ ss) = let rest = count t ss in if s == t then suc rest else rest

count-mem : (t : Text) (ss : List Text) → 0 < count t ss → Memᴰ t ss
unfolding count
count-mem t [] h = absurd (omega arith)
count-mem t (s ∷ ss) h = elim (Bool-cases (s == t)) [
  | inl e ↦ Memᴰ.head (sym ((text_beq_iff s t).0 e))
  | inr e ↦ Memᴰ.tail (count-mem t ss (ground (arith, e)))
]

-- Each text is followed by greater ones only.
unfoldable pub Sorted : List Text → Type 0
Sorted [] = Unit
Sorted (s ∷ ss) = ((t : Text) → Memᴰ t ss → text_leb s t ≡ true) × Sorted ss

count_head : (s : Text) (ss : List Text) → 0 < count s (s ∷ ss)
unfolding count
count_head s ss = ground (arith, text_beq_iff s s)

least_first :
    (s t : Text) (ss : List Text) → Sorted (t ∷ ss) → Memᴰ s (t ∷ ss) → text_leb t s ≡ true
unfolding Sorted
least_first s t ss sorted (Memᴰ.head e) = rw e (text_leb_refl t)
least_first s t ss sorted (Memᴰ.tail m) = sorted.0 s m

same_heads :
    (s t : Text) (ss ts : List Text)
    → Sorted (s ∷ ss)
    → Sorted (t ∷ ts)
    → ((u : Text) → count u (s ∷ ss) ≡ count u (t ∷ ts))
    → s ≡ t
same_heads s t ss ts hs ht same =
    let there = count-mem s (t ∷ ts) (omega (arith, count_head s ss, same s)) in
    let here = count-mem t (s ∷ ss) (omega (arith, count_head t ts, same t)) in
    text_leb_antisym s t (least_first t s ss hs here) (least_first s t ts ht there)

-- Two sorted lists that hold each text as often are one list.
pub Sorted-unique :
    (a b : List Text) → Sorted a → Sorted b → ((t : Text) → count t a ≡ count t b) → a ≡ b
unfolding Sorted
Sorted-unique [] [] ha hb same = refl
Sorted-unique [] (t ∷ b) ha hb same = absurd (unfold count in omega (arith, count_head t b, same t))
Sorted-unique (s ∷ a) [] ha hb same = absurd (unfold count in omega (arith, count_head s a, same s))
Sorted-unique (s ∷ a) (t ∷ b) ha hb same =
    let heads : s ≡ t = same_heads s t a b ha hb same in
    let tails = Sorted-unique a b ha.1 hb.1 (λ u. unfold count in ground (arith, same u, heads)) in
    rw (heads, tails) refl
