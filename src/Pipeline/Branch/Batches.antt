-- ===== src/Pipeline/Branch/Batches.antt =====
-- The slices of a backlog are the backlog.
use gh_audit.Prelude.{
  ℕ, zero, suc, ◌≤◌, ◌<◌, ◌≡◌, refl, ap, ◌∙◌, List, [], ◌∷◌, ◌++◌, arith, nat_eq, text_eq, length,
  take, drop,
}
use gh_audit.Model.{Commit}
use gh_audit.Pipeline.Branch.{batches_of, enrich_batch_size}

abbrev pub joined_up : List (List Commit) → List Commit
joined_up [] = []
joined_up (b ∷ bs) = b ++ joined_up bs

-- Each slice is neither empty nor too long.
abbrev pub AllFit : List (List Commit) → Type 0
AllFit [] = Unit {0}
AllFit (b ∷ bs) = ((0 < length b) × (length b ≤ enrich_batch_size)) × AllFit bs

take-drop : (n : ℕ) (cs : List Commit) → take n cs ++ drop n cs ≡ cs
take-drop zero cs = refl
take-drop (suc n) [] = refl
take-drop (suc n) (c ∷ cs) = ap (λ xs. c ∷ xs) (take-drop n cs)

length-take : (n : ℕ) (cs : List Commit) → length (take n cs) ≤ n
length-take zero cs = omega arith
length-take (suc n) [] = omega arith
length-take (suc n) (c ∷ cs) = omega (arith, length-take n cs)

length-drop : (n : ℕ) (cs : List Commit) → length (drop n cs) ≤ length cs
length-drop zero cs = omega arith
length-drop (suc n) [] = omega arith
length-drop (suc n) (c ∷ cs) = omega (arith, length-drop n cs)

batches_of-Fits :
    (fuel : ℕ) (cs : List Commit)
    → length cs ≤ fuel
    → (joined_up (batches_of fuel cs) ≡ cs) × AllFit (batches_of fuel cs)
unfolding batches_of
batches_of-Fits fuel [] h = (refl, tt)
batches_of-Fits zero (c ∷ cs) h = absurd (omega arith)
batches_of-Fits (suc fuel) (c ∷ cs) h =
    let (same, fit) = batches_of-Fits fuel (drop 24 cs) (omega (arith, length-drop 24 cs)) in
    (
      ap (λ xs. take 25 (c ∷ cs) ++ xs) same ∙ take-drop 25 (c ∷ cs),
      ((omega arith, omega (arith, length-take 24 cs)), fit),
    )

-- The slices that enrichInParallel hands out hold each commit of the backlog once, in its order; none
-- is empty, and none is longer than the size of a batch.
batches_of_lem :
    (cs : List Commit)
    → (joined_up (batches_of (length cs) cs) ≡ cs) × AllFit (batches_of (length cs) cs)
batches_of_lem cs = batches_of-Fits (length cs) cs (omega arith)
