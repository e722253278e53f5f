-- ===== src/Github/TokenPool/Pick/Positions.antt =====
-- Positions and members of the tokens that a loop has passed.
use gh_audit.Prelude.{
  ap, ℕ, zero, suc, ◌≡◌, refl, ◌⊎◌, inl, inr, some, List, [], ◌∷◌, ◌++◌, Memᴰ, arith, nat_eq,
  text_eq, length,
}
use gh_audit.Github.TokenPool.{nth, ManagedToken}

pub nth-append :
    (i : ℕ) (ts us : List ManagedToken) {t : ManagedToken}
    → nth i ts ≡ some t
    → nth i (ts ++ us) ≡ some t
unfolding nth
nth-append i [] us h = absurd (ground arith)
nth-append zero (t ∷ ts) us h = h
nth-append (suc i) (t ∷ ts) us h = nth-append i ts us h

pub nth-length :
    (ts : List ManagedToken) (t : ManagedToken) → nth (length ts) (ts ++ t ∷ []) ≡ some t
unfolding nth
nth-length [] t = refl
nth-length (u ∷ ts) t = nth-length ts t

pub mem-snoc :
    (ts : List ManagedToken) {t u : ManagedToken} → Memᴰ u (ts ++ t ∷ []) → Memᴰ u ts ⊎ (u ≡ t)
mem-snoc [] (Memᴰ.head e) = inr e
mem-snoc [] (Memᴰ.tail m) = elim m [ ]
mem-snoc (v ∷ ts) (Memᴰ.head e) = inl (Memᴰ.head e)
mem-snoc (v ∷ ts) (Memᴰ.tail m) = elim (mem-snoc ts m) [ inl n ↦ inl (Memᴰ.tail n) | inr e ↦ inr e ]

pub snoc-mem :
    (ts : List ManagedToken) {t u : ManagedToken} → Memᴰ u ts ⊎ (u ≡ t) → Memᴰ u (ts ++ t ∷ [])
snoc-mem [] (inl m) = elim m [ ]
snoc-mem [] (inr e) = Memᴰ.head e
snoc-mem (v ∷ ts) (inl (Memᴰ.head e)) = Memᴰ.head e
snoc-mem (v ∷ ts) (inl (Memᴰ.tail m)) = Memᴰ.tail (snoc-mem ts (inl m))
snoc-mem (v ∷ ts) (inr e) = Memᴰ.tail (snoc-mem ts (inr e))

pub length-snoc :
    (ts : List ManagedToken) (t : ManagedToken) → length (ts ++ t ∷ []) ≡ suc (length ts)
length-snoc [] t = refl
length-snoc (u ∷ ts) t = ap suc (length-snoc ts t)
