-- ===== src/Prelude/Pigeonhole.antt =====
-- A list without repetition is no longer than a list that holds all its elements.
use Prim.Native.Nat.{suc, ◌≤◌}
use mathlib.Core.Path.{◌≡◌, refl, sym, ap, ◌∙◌}
use mathlib.Core.Logic.{◌≢◌}
use mathlib.Core.List.{List, [], ◌∷◌, Memᴰ}
use native.Mathlib.Omega.{arith}
use gh_audit.Prelude.Lists.{length}

module _ {ℓ} {A : Type ℓ} where
  without : {a : A} (xs : List A) → Memᴰ a xs → List A
  without [] m = []
  without (x ∷ xs) (Memᴰ.head e) = xs
  without (x ∷ xs) (Memᴰ.tail m) = x ∷ without xs m

  length-without : {a : A} (xs : List A) (m : Memᴰ a xs) → suc (length (without xs m)) ≡ length xs
  unfolding without
  length-without [] m = elim m [ ]
  length-without (x ∷ xs) (Memᴰ.head e) = refl
  length-without (x ∷ xs) (Memᴰ.tail m) = ap suc (length-without xs m)

  mem-without : {a b : A} (xs : List A) (m : Memᴰ a xs) → b ≢ a → Memᴰ b xs → Memᴰ b (without xs m)
  unfolding without
  mem-without [] m n h = elim m [ ]
  mem-without (x ∷ xs) (Memᴰ.head e) n (Memᴰ.head f) = absurd (n (f ∙ sym e))
  mem-without (x ∷ xs) (Memᴰ.head e) n (Memᴰ.tail h) = h
  mem-without (x ∷ xs) (Memᴰ.tail m) n (Memᴰ.head f) = Memᴰ.head f
  mem-without (x ∷ xs) (Memᴰ.tail m) n (Memᴰ.tail h) = Memᴰ.tail (mem-without xs m n h)

  -- No two elements that `f` takes to one value.
  abbrev pub Apart {κ} : {B : Type κ} (f : A → B) → List A → Type (ℓ ⊔ κ)
  Apart f [] = Unit
  Apart f (x ∷ xs) = ((y : A) → Memᴰ y xs → f y ≢ f x) × Apart f xs

  pub length-Apart {κ} :
      {B : Type κ} (f : A → B) (xs ys : List A)
      → Apart f xs
      → ((x : A) → Memᴰ x xs → Memᴰ x ys)
      → length xs ≤ length ys
  length-Apart f [] ys apart sub = omega arith
  length-Apart f (x ∷ xs) ys apart sub =
      let m = sub x (Memᴰ.head refl) in
      let rest : length xs ≤ length (without ys m) =
        length-Apart f xs (without ys m) apart.1
          (λ y h. mem-without ys m (λ e. apart.0 y h (ap f e)) (sub y (Memᴰ.tail h))) in
      omega (arith, rest, length-without ys m)
