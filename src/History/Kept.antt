-- ===== src/History/Kept.antt =====
-- What a classified move says about the history of a branch.
use gh_audit.Prelude.{
  ◌≡◌, subst, inl, inr, Bool, true, false, ◌&&◌, List, [], ◌∷◌, arith, Bool-cases, ◌==◌, nat_eq,
  text_beq_iff, text_eq,
}
use gh_audit.Text.{Text, text}
use gh_audit.History.{
  HeadMove, head_unchanged, head_fast_forward, head_rewritten, classify_head_move,
}

-- What GitHub documents of its comparison of a base and a head, where `Ancestor b h` is that the
-- commit `b` is reachable from `h`.
pub record Documented (Ancestor : Text → Text → Type 0) (compare : Text → Text → Text)
    : Type 0 where
  pub self : (h : Text) → Ancestor h h
  pub trans : (a b c : Text) → Ancestor a b → Ancestor b c → Ancestor a c
  pub identical : (b h : Text) → compare b h ≡ text "identical" → b ≡ h
  pub ahead : (b h : Text) → compare b h ≡ text "ahead" → Ancestor b h
  pub behind : (b h : Text) → compare b h ≡ text "behind" → ¬ Ancestor b h
  pub diverged : (b h : Text) → compare b h ≡ text "diverged" → ¬ Ancestor b h

abbrev pub is_safe : HeadMove → Bool
is_safe head_unchanged = true
is_safe head_fast_forward = true
is_safe _ = false

-- Every move along a list of heads is unchanged or a fast-forward.
unfoldable pub all_safe : (Text → Text → Text) → Text → List Text → Bool
all_safe compare prior [] = true
all_safe compare prior (h ∷ hs) =
    is_safe (classify_head_move prior h (compare prior h)) && all_safe compare h hs

unfoldable pub last_head : Text → List Text → Text
last_head prior [] = prior
last_head prior (h ∷ hs) = last_head h hs

module _ {Ancestor : Text → Text → Type 0} {compare : Text → Text → Text}
    (docs : Documented Ancestor compare) where
  safe_move : (b h : Text) → is_safe (classify_head_move b h (compare b h)) ≡ true → Ancestor b h
  unfolding classify_head_move
  safe_move b h safe = elim (Bool-cases (b == h)) [
    | inl e ↦ subst (Ancestor b) ((text_beq_iff b h).0 e) (docs.self b)
    | inr e ↦ elim (Bool-cases (compare b h == text "identical")) [
      | inl i ↦
          subst (Ancestor b)
            (docs.identical b h ((text_beq_iff (compare b h) (text "identical")).0 i)) (docs.self b)
      | inr n ↦
          docs.ahead b h ((text_beq_iff (compare b h) (text "ahead")).0 (ground (arith, e, n)))
    ]
  ]

  -- Where all the moves along a list of heads are unchanged or fast-forwards, by the comparison
  -- that GitHub documents, no history was lost: the first head is an ancestor of the last.
  pub all_safe-Ancestor :
      (prior : Text) (heads : List Text)
      → all_safe compare prior heads ≡ true
      → Ancestor prior (last_head prior heads)
  unfolding all_safe last_head
  all_safe-Ancestor prior [] h = docs.self prior
  all_safe-Ancestor prior (x ∷ hs) h =
      docs.trans prior x (last_head x hs) (safe_move prior x (ground (arith, h)))
        (all_safe-Ancestor x hs (ground (arith, h)))

  -- A move that is recorded as a rewrite did lose the prior head.
  head_rewritten-Ancestor :
      (b h : Text) → classify_head_move b h (compare b h) ≡ head_rewritten → ¬ Ancestor b h
  unfolding classify_head_move
  head_rewritten-Ancestor b h move = elim (Bool-cases (compare b h == text "behind")) [
    | inl e ↦ docs.behind b h ((text_beq_iff (compare b h) (text "behind")).0 e)
    | inr e ↦
        docs.diverged b h ((text_beq_iff (compare b h) (text "diverged")).0 (ground (arith, e)))
  ]
