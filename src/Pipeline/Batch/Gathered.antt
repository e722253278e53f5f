-- ===== src/Pipeline/Batch/Gathered.antt =====
-- What the loops over the batch gather: something for each id that is listed.
use gh_audit.Prelude.{
  on_if, ◌≡◌, refl, sym, subst, ◌⊎◌, inl, inr, Bool, true, List, [], ◌∷◌, ◌++◌, Memᴰ, arith,
  if◌then◌else◌, Bool-cases, Equality, ◌==◌, nat_eq, text_eq, any, any_elim,
}
use mathlib.Core.List.{flat_map}
use gh_audit.Pipeline.Batch.{gather}

pub Memᴰ-left : {A : Type 0} {x : A} (xs ys : List A) → Memᴰ x xs → Memᴰ x (xs ++ ys)
Memᴰ-left [] ys m = elim m [ ]
Memᴰ-left (z ∷ xs) ys (Memᴰ.head e) = Memᴰ.head e
Memᴰ-left (z ∷ xs) ys (Memᴰ.tail m) = Memᴰ.tail (Memᴰ-left xs ys m)

pub Memᴰ-right : {A : Type 0} {x : A} (xs ys : List A) → Memᴰ x ys → Memᴰ x (xs ++ ys)
Memᴰ-right [] ys m = m
Memᴰ-right (z ∷ xs) ys m = Memᴰ.tail (Memᴰ-right xs ys m)

Memᴰ-split : {A : Type 0} {x : A} (xs ys : List A) → Memᴰ x (xs ++ ys) → Memᴰ x xs ⊎ Memᴰ x ys
Memᴰ-split [] ys m = inr m
Memᴰ-split (z ∷ xs) ys (Memᴰ.head e) = inl (Memᴰ.head e)
Memᴰ-split (z ∷ xs) ys (Memᴰ.tail m) = elim (Memᴰ-split xs ys m) [
  | inl left ↦ inl (Memᴰ.tail left)
  | inr right ↦ inr right
]

pub flat_map-Memᴰ :
    {A B : Type 0} (f : A → List B) {a : A} {b : B} (as' : List A)
    → Memᴰ a as'
    → Memᴰ b (f a)
    → Memᴰ b (flat_map f as')
unfolding flat_map
flat_map-Memᴰ f [] m n = elim m [ ]
flat_map-Memᴰ f {b = b} (x ∷ as') (Memᴰ.head e) m =
    Memᴰ-left (f x) (flat_map f as') (subst (λ y. Memᴰ b (f y)) e m)
flat_map-Memᴰ f (x ∷ as') (Memᴰ.tail n) m =
    Memᴰ-right (f x) (flat_map f as') (flat_map-Memᴰ f as' n m)

module _ {A K : Type 0} ⦃ids : Equality K⦄ (id : A → K) where
  any-append_left : (p : A → Bool) (xs ys : List A) → any p xs ≡ true → any p (xs ++ ys) ≡ true
  any-append_left p [] ys h = cc
  any-append_left p (x ∷ xs) ys h = ground (arith, any-append_left p xs ys)

  any-append_right : (p : A → Bool) (xs ys : List A) → any p ys ≡ true → any p (xs ++ ys) ≡ true
  any-append_right p [] ys h = h
  any-append_right p (x ∷ xs) ys h = ground (arith, any-append_right p xs ys)

  abbrev step : A → List A → List A
  step x seen = if any (λ y. id y == id x) seen then seen else seen ++ x ∷ []

  step-keeps :
      (x : A) (seen : List A) (k : K)
      → any (λ y. id y == k) seen ≡ true
      → any (λ y. id y == k) (step x seen) ≡ true
  step-keeps x seen k h =
      on_if (λ l. any (λ y. id y == k) l ≡ true) _ h
        (any-append_left (λ y. id y == k) seen (x ∷ []) h)

  step-has : (x : A) (seen : List A) → any (λ y. id y == id x) (step x seen) ≡ true
  step-has x seen = elim (Bool-cases (any (λ y. id y == id x) seen)) [
    | inl old ↦ rw old old
    | inr new ↦ rw new (
        any-append_right (λ y. id y == id x) seen (x ∷ [])
          (ground (arith, (ids.same_iff (id x) (id x)).1 refl)))
  ]

  gather-keeps :
      (seen xs : List A) (k : K)
      → any (λ y. id y == k) seen ≡ true
      → any (λ y. id y == k) (gather id seen xs) ≡ true
  unfolding gather
  gather-keeps seen [] k h = h
  gather-keeps seen (x ∷ xs) k h = gather-keeps (step x seen) xs k (step-keeps x seen k h)

  gather-has :
      (seen xs : List A) {x : A} → Memᴰ x xs → any (λ y. id y == id x) (gather id seen xs) ≡ true
  unfolding gather
  gather-has seen [] m = elim m [ ]
  gather-has seen (z ∷ xs) {x} (Memᴰ.head e) =
      subst (λ y. any (λ v. id v == id y) (gather id (step z seen) xs) ≡ true) (sym e)
        (gather-keeps (step z seen) xs (id z) (step-has z seen))
  gather-has seen (z ∷ xs) (Memᴰ.tail m) = gather-has (step z seen) xs m

  gather-from : (seen xs : List A) {y : A} → Memᴰ y (gather id seen xs) → Memᴰ y seen ⊎ Memᴰ y xs
  unfolding gather
  gather-from seen [] m = inl m
  gather-from seen (x ∷ xs) {y} m = elim (gather-from (step x seen) xs m) [
    | inr later ↦ inr (Memᴰ.tail later)
    | inl now ↦
        on_if (λ l. Memᴰ y l → Memᴰ y seen ⊎ Memᴰ y (x ∷ xs)) (any (λ v. id v == id x) seen)
          (λ m. inl m)
          (λ m. elim (Memᴰ-split seen (x ∷ []) m) [
            | inl old ↦ inl old
            | inr new ↦ inr (Memᴰ-left (x ∷ []) xs new)
          ])
          now
  ]

  listed_only : (xs : List A) {y : A} → Memᴰ y [] ⊎ Memᴰ y xs → Memᴰ y xs
  listed_only xs (inl m) = elim m [ ]
  listed_only xs (inr m) = m

  -- For what is listed, something listed with its id is gathered.
  pub gather-Memᴰ :
      (xs : List A) {x : A}
      → Memᴰ x xs
      → (y : A) × Memᴰ y (gather id [] xs) × Memᴰ y xs × (id y ≡ id x)
  gather-Memᴰ xs {x} m =
      let (y, m', e) = any_elim (λ y. id y == id x) (gather id [] xs) (gather-has [] xs m) in
      (y, m', listed_only xs (gather-from [] xs m'), (ids.same_iff (id y) (id x)).0 e)
