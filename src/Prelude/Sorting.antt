-- ===== src/Prelude/Sorting.antt =====
-- Sorting by a total order: the result depends on the elements only, so that any routine that sorts
-- gives it.
use mathlib.Core.Path.{◌≡◌, refl, sym, ap, ◌∙◌, subst}
use mathlib.Core.Logic.{◌↔◌, inl, inr}
use mathlib.Core.Bool.{Bool, true, false}
use mathlib.Core.List.{List, [], ◌∷◌, Permᴰ}
use mathlib.Core.List.Permᴰ
use gh_audit.Prelude.Tests.{if◌then◌else◌, Bool-cases}

pub record TotalOrder {ℓ} (A : Type ℓ) : Type ℓ where
  pub leq : A → A → Bool
  pub total : (x y : A) → leq x y ≡ false → leq y x ≡ true
  pub antisym : (x y : A) → leq x y ≡ true → leq y x ≡ true → x ≡ y
  pub leq_trans : (x y z : A) → leq x y ≡ true → leq y z ≡ true → leq x z ≡ true

module _ {ℓ} {A : Type ℓ} (o : TotalOrder A) where
  unfoldable pub insert : A → List A → List A
  insert x [] = x ∷ []
  insert x (y ∷ ys) = let rest = insert x ys in if o.leq x y then x ∷ y ∷ ys else y ∷ rest

  unfoldable pub sort : List A → List A
  unfolding insert
  sort [] = []
  sort (x ∷ xs) = insert x (sort xs)

  either_first :
      (a b : A) (l : List A)
      → (if o.leq a b then a ∷ b ∷ l else b ∷ a ∷ l) ≡ (if o.leq b a then b ∷ a ∷ l else a ∷ b ∷ l)
  either_first a b l = elim (Bool-cases (o.leq a b)) [
    | inr e ↦ rw (e, o.total a b e) refl
    | inl e ↦ elim (Bool-cases (o.leq b a)) [
      | inr f ↦ rw (e, f) refl
      | inl f ↦ rw (e, f, o.antisym a b e f) refl
    ]
  ]

  later_first : (b a y : A) → o.leq a y ≡ true → o.leq b y ≡ false → o.leq b a ≡ false
  later_first b a y e f = elim (Bool-cases (o.leq b a)) [
    | inr g ↦ g
    | inl g ↦ let h : o.leq b y ≡ true = o.leq_trans b a y g e in cc
  ]

  insert_comm : (a b : A) (l : List A) → insert a (insert b l) ≡ insert b (insert a l)
  unfolding insert
  insert_comm a b [] = either_first a b []
  insert_comm a b (y ∷ l) = elim (Bool-cases (o.leq a y)) [
    | inl e ↦ elim (Bool-cases (o.leq b y)) [
      | inl f ↦ rw (e, f) (rw e (either_first a b (y ∷ l)))
      | inr f ↦ rw (e, f) (rw (e, later_first b a y e f) refl)
    ]
    | inr e ↦ elim (Bool-cases (o.leq b y)) [
      | inl f ↦ rw (e, f) (rw (e, later_first a b y f e) refl)
      | inr f ↦ rw (e, f) (rw e (ap (λ m. y ∷ m) (insert_comm a b l)))
    ]
  ]

  pub sort_congr : {xs ys : List A} → Permᴰ xs ys → sort xs ≡ sort ys
  unfolding sort
  sort_congr Permᴰ.nil = refl
  sort_congr (Permᴰ.cons {a = a} {b = b} {l₁ = xs} {l₂ = ys} e p) =
      ap (λ x. insert x (sort xs)) e ∙ ap (insert b) (sort_congr p)
  sort_congr (Permᴰ.swap {a = a} {b = b} {a' = a'} {b' = b'} {l = l} e f) =
      insert_comm a b (sort l)
      ∙ ap (λ x. insert b (insert x (sort l))) e
      ∙ ap (λ x. insert x (insert b' (sort l))) f
  sort_congr (Permᴰ.trans p q) = sort_congr p ∙ sort_congr q

  insert-Permᴰ : (x : A) (xs : List A) → Permᴰ (insert x xs) (x ∷ xs)
  unfolding insert
  insert-Permᴰ x [] = Permᴰ.refl (x ∷ [])
  insert-Permᴰ x (y ∷ ys) = elim (Bool-cases (o.leq x y)) [
    | inl e ↦ rw e (Permᴰ.refl (x ∷ y ∷ ys))
    | inr e ↦ rw e (Permᴰ.trans (Permᴰ.cons refl (insert-Permᴰ x ys)) (Permᴰ.swap refl refl))
  ]

  sort-Permᴰ : (xs : List A) → Permᴰ (sort xs) xs
  unfolding sort
  sort-Permᴰ [] = Permᴰ.nil
  sort-Permᴰ (x ∷ xs) = Permᴰ.trans (insert-Permᴰ x (sort xs)) (Permᴰ.cons refl (sort-Permᴰ xs))

  -- Two lists sort to one exactly when one is a reordering of the other.
  pub sort_iff : (xs ys : List A) → (sort xs ≡ sort ys) ↔ Permᴰ xs ys
  sort_iff xs ys = (same, sort_congr)
    where
      same : sort xs ≡ sort ys → Permᴰ xs ys
      same e =
          Permᴰ.trans (Permᴰ.symm (sort-Permᴰ xs)) (subst (λ l. Permᴰ l ys) (sym e) (sort-Permᴰ ys))
