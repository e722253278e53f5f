-- ===== src/Github/Diff/Multiset.antt =====
-- multisetEqual compares two lists of lines without regard to their order.
use gh_audit.Prelude.{
  suc, ◌≡◌, refl, sym, ap, ◌∙◌, ◌↔◌, ◌⊎◌, inl, inr, true, false, List, [], ◌∷◌, Memᴰ, arith,
  Bool-cases, nat_eq, text_beq_iff, text_eq, length,
}
use gh_audit.Text.{Text}
use gh_audit.Github.Diff.{insert_sorted, sort_texts, same_texts, multiset_equal, text_leb}
use gh_audit.Github.Diff.Order.{count, Sorted, text_leb_total, text_leb_trans, Sorted-unique}

count-insert_sorted :
    (t s : Text) (ss : List Text) → count t (insert_sorted s ss) ≡ count t (s ∷ ss)
unfolding insert_sorted count
count-insert_sorted t s [] = refl
count-insert_sorted t s (x ∷ ss) = ground (arith, count-insert_sorted t s ss)

count_cons :
    (t s : Text) (a b : List Text) → count t a ≡ count t b → count t (s ∷ a) ≡ count t (s ∷ b)
unfolding count
count_cons t s a b h = ground (arith, h)

-- Sorting keeps how often each text stands in a list, and its length.
count-sort_texts : (t : Text) (ss : List Text) → count t (sort_texts ss) ≡ count t ss
unfolding sort_texts
count-sort_texts t [] = refl
count-sort_texts t (s ∷ ss) =
    rw (count-insert_sorted t s (sort_texts ss))
      (count_cons t s (sort_texts ss) ss (count-sort_texts t ss))

length-insert_sorted : (s : Text) (ss : List Text) → length (insert_sorted s ss) ≡ suc (length ss)
unfolding insert_sorted
length-insert_sorted s [] = refl
length-insert_sorted s (x ∷ ss) = ground (arith, length-insert_sorted s ss)

length-sort_texts : (ss : List Text) → length (sort_texts ss) ≡ length ss
unfolding sort_texts
length-sort_texts [] = refl
length-sort_texts (s ∷ ss) =
    omega (arith, length-insert_sorted s (sort_texts ss), length-sort_texts ss)

mem-insert_sorted :
    (t s : Text) (ss : List Text) → Memᴰ t (insert_sorted s ss) → (t ≡ s) ⊎ Memᴰ t ss
unfolding insert_sorted
mem-insert_sorted t s [] (Memᴰ.head e) = inl e
mem-insert_sorted t s [] (Memᴰ.tail m) = elim m [ ]
mem-insert_sorted t s (x ∷ ss) m = elim (Bool-cases (text_leb s x)) [
  | inl e ↦ first (rw e at m)
  | inr e ↦ later (mem-insert_sorted t s ss) (rw e at m)
]
  where
    first : Memᴰ t (s ∷ x ∷ ss) → (t ≡ s) ⊎ Memᴰ t (x ∷ ss)
    first (Memᴰ.head e) = inl e
    first (Memᴰ.tail m) = inr m

    later :
        (Memᴰ t (insert_sorted s ss) → (t ≡ s) ⊎ Memᴰ t ss)
        → Memᴰ t (x ∷ insert_sorted s ss)
        → (t ≡ s) ⊎ Memᴰ t (x ∷ ss)
    later deeper (Memᴰ.head e) = inr (Memᴰ.head e)
    later deeper (Memᴰ.tail m) = elim (deeper m) [ inl e ↦ inl e | inr m ↦ inr (Memᴰ.tail m) ]

insert_sorted-Sorted : (s : Text) (ss : List Text) → Sorted ss → Sorted (insert_sorted s ss)
unfolding insert_sorted Sorted
insert_sorted-Sorted s [] h = (λ t m. elim m [ ], tt)
insert_sorted-Sorted s (x ∷ ss) (least, h) = elim (Bool-cases (text_leb s x)) [
  | inl e ↦ rw e (below e, (least, h))
  | inr e ↦ rw e (above e, insert_sorted-Sorted s ss h)
]
  where
    below : text_leb s x ≡ true → (t : Text) → Memᴰ t (x ∷ ss) → text_leb s t ≡ true
    below e t (Memᴰ.head p) = rw p e
    below e t (Memᴰ.tail m) = text_leb_trans s x t e (least t m)

    above : text_leb s x ≡ false → (t : Text) → Memᴰ t (insert_sorted s ss) → text_leb x t ≡ true
    above e t m = elim (mem-insert_sorted t s ss m) [
      | inl p ↦ rw p (text_leb_total s x e)
      | inr m ↦ least t m
    ]

sort_texts-Sorted : (ss : List Text) → Sorted (sort_texts ss)
unfolding sort_texts
sort_texts-Sorted [] = unfold Sorted in tt
sort_texts-Sorted (s ∷ ss) = insert_sorted-Sorted s (sort_texts ss) (sort_texts-Sorted ss)

same_texts_iff : (a b : List Text) → length a ≡ length b → (same_texts a b ≡ true) ↔ (a ≡ b)
unfolding same_texts
same_texts_iff [] [] h = (λ _. refl, λ _. refl)
same_texts_iff [] (t ∷ b) h = absurd (omega arith)
same_texts_iff (s ∷ a) [] h = absurd (omega arith)
same_texts_iff (s ∷ a) (t ∷ b) h = ground (arith, same_texts_iff a b, text_beq_iff s t)

-- multisetEqual says exactly whether each line stands as often in one list as in the other.
pub multiset_equal_iff :
    (a b : List Text) → (multiset_equal a b ≡ true) ↔ ((t : Text) → count t a ≡ count t b)
multiset_equal_iff a b = (counted, sorted)
  where
    counted : multiset_equal a b ≡ true → (t : Text) → count t a ≡ count t b
    counted h t =
        let lengths : length a ≡ length b = unfold multiset_equal in ground arith in
        let one : sort_texts a ≡ sort_texts b =
          (same_texts_iff (sort_texts a) (sort_texts b)
              (omega (arith, length-sort_texts a, length-sort_texts b))).0
            (unfold multiset_equal in ground arith) in
        sym (count-sort_texts t a) ∙ ap (count t) one ∙ count-sort_texts t b

    sorted : ((t : Text) → count t a ≡ count t b) → multiset_equal a b ≡ true
    sorted same =
        let one : sort_texts a ≡ sort_texts b =
          Sorted-unique (sort_texts a) (sort_texts b) (sort_texts-Sorted a) (sort_texts-Sorted b)
            (λ t. count-sort_texts t a ∙ same t ∙ sym (count-sort_texts t b)) in
        let lengths : length a ≡ length b =
          omega (arith, length-sort_texts a, length-sort_texts b, ap (length {A = Text}) one) in
        let equal =
          (same_texts_iff (sort_texts a) (sort_texts b)
              (omega (arith, length-sort_texts a, length-sort_texts b))).1
            one in
        unfold multiset_equal in ground (arith, equal, lengths)
