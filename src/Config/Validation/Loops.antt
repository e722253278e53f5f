-- ===== src/Config/Validation/Loops.antt =====
-- What a loop of validate that ends without an error has shown.
use gh_audit.Prelude.{
  Apart, ℕ, suc, ◌≡◌, refl, sym, subst, ◌≢◌, ◌↔◌, Bool, false, Option, none, some, List, [], ◌∷◌,
  Memᴰ, arith, ◌==◌, nat_eq, text_beq_iff, text_eq, any,
}
use gh_audit.Text.{Text}
use gh_audit.Config.Validation.{ConfigError, then_check, each, each_new}

pub then_check_iff :
    (a b : Option ConfigError) → (then_check a b ≡ none) ↔ ((a ≡ none) × (b ≡ none))
then_check_iff none b = (λ h. (refl, h), λ h. h.1)
then_check_iff (some e) b = (λ h. cc, λ h. h.0)

module _ {ℓ} {A : Type ℓ} (Good : A → Type 0) where
  pub each_iff :
      (check : ℕ → A → Option ConfigError)
      → ((i : ℕ) (x : A) → (check i x ≡ none) ↔ Good x)
      → (i : ℕ) (xs : List A) → (each check i xs ≡ none) ↔ ((x : A) → Memᴰ x xs → Good x)
  unfolding each
  each_iff check sound i [] = (λ h x m. elim m [ ], λ h. refl)
  each_iff check sound i (x ∷ xs) =
      (there (each_iff check sound (suc i) xs), back (each_iff check sound (suc i) xs))
    where
      Rest : Type ℓ
      Rest = (each check (suc i) xs ≡ none) ↔ ((y : A) → Memᴰ y xs → Good y)

      there : Rest → each check i (x ∷ xs) ≡ none → (y : A) → Memᴰ y (x ∷ xs) → Good y
      there rest h y (Memᴰ.head e) = subst Good (sym e) ((sound i x).0 ((then_check_iff _ _).0 h).0)
      there rest h y (Memᴰ.tail m) = rest.0 ((then_check_iff _ _).0 h).1 y m

      back : Rest → ((y : A) → Memᴰ y (x ∷ xs) → Good y) → each check i (x ∷ xs) ≡ none
      back rest h =
          (then_check_iff _ _).1
            ((sound i x).1 (h x (Memᴰ.head refl)), rest.1 (λ y m. h y (Memᴰ.tail m)))

  -- Each element is good, and its key is neither that of another nor among those seen before.
  pub each_new_iff :
      (key : A → Text) (check : ℕ → Bool → A → Option ConfigError)
      → ((i : ℕ) (b : Bool) (x : A) → (check i b x ≡ none) ↔ (Good x × (b ≡ false)))
      → (i : ℕ) (seen : List Text) (xs : List A)
      → (each_new key check i seen xs ≡ none)
        ↔ (((x : A) → Memᴰ x xs → Good x × (any (λ k. k == key x) seen ≡ false)) × Apart key xs)
  unfolding each_new
  each_new_iff key check sound i seen [] = (λ h. (λ x m. elim m [ ], tt), λ h. refl)
  each_new_iff key check sound i seen (x ∷ xs) = (
    there (each_new_iff key check sound (suc i) (key x ∷ seen) xs),
    back (each_new_iff key check sound (suc i) (key x ∷ seen) xs),
  )
    where
      Is_new : List Text → A → Type 0
      Is_new ks y = any (λ k. k == key y) ks ≡ false

      All_new : List Text → List A → Type ℓ
      All_new ks ys = ((y : A) → Memᴰ y ys → Good y × Is_new ks y) × Apart key ys

      Rest : Type ℓ
      Rest = (each_new key check (suc i) (key x ∷ seen) xs ≡ none) ↔ All_new (key x ∷ seen) xs

      apart : (y : A) → Is_new (key x ∷ seen) y ↔ ((key y ≢ key x) × Is_new seen y)
      apart y = ground (arith, text_beq_iff (key x) (key y))

      member :
          check i (any (λ k. k == key x) seen) x ≡ none
          → ((y : A) → Memᴰ y xs → Good y × Is_new (key x ∷ seen) y)
          → (y : A) → Memᴰ y (x ∷ xs)
          → Good y × Is_new seen y
      member one good y (Memᴰ.head e) =
          subst (λ z. Good z × Is_new seen z) (sym e)
            ((sound i (any (λ k. k == key x) seen) x).0 one)
      member one good y (Memᴰ.tail m) = let (g, new) = good y m in (g, ((apart y).0 new).1)

      there : Rest → each_new key check i seen (x ∷ xs) ≡ none → All_new seen (x ∷ xs)
      there rest h =
          let (one, more) = (then_check_iff _ _).0 h in
          let (good, distinct) = rest.0 more in
          (λ y m. member one good y m, (λ y m. ((apart y).0 (good y m).1).0, distinct))

      back : Rest → All_new seen (x ∷ xs) → each_new key check i seen (x ∷ xs) ≡ none
      back rest (good, (differ, distinct)) = (then_check_iff _ _).1 (
        (sound i (any (λ k. k == key x) seen) x).1 (good x (Memᴰ.head refl)),
        rest.1 (
          λ y m. let (g, new) = good y (Memᴰ.tail m) in (g, (apart y).1 (differ y m, new)),
          distinct,
        ),
      )
