-- ===== src/Prelude/Lists.antt =====
-- Lists measured and searched as the program does it.
use Prim.Native.Nat.{ℕ, zero, suc}
use mathlib.Core.Path.{◌≡◌, refl, ap}
use mathlib.Core.Logic.{inl, inr}
use mathlib.Core.Bool.{Bool, true, false, ◌||◌, ◌&&◌}
use mathlib.Core.Option.{Option, none, some}
use mathlib.Core.List.{List, [], ◌∷◌, Memᴰ}
use native.Mathlib.Omega.{arith}
use gh_audit.Prelude.Tests.{if◌then◌else◌, Bool-cases}

module _ {ℓ} {A : Type ℓ} where
  abbrev pub length : List A → ℕ
  length [] = 0
  length (x ∷ xs) = suc (length xs)

  abbrev pub take : ℕ → List A → List A
  take zero xs = []
  take (suc n) [] = []
  take (suc n) (x ∷ xs) = x ∷ take n xs

  abbrev pub drop : ℕ → List A → List A
  drop zero xs = xs
  drop (suc n) [] = []
  drop (suc n) (x ∷ xs) = drop n xs

  abbrev pub get_elem? : List A → ℕ → Option A
  get_elem? [] n = none
  get_elem? (x ∷ xs) zero = some x
  get_elem? (x ∷ xs) (suc n) = get_elem? xs n

  -- A loop that returns true at the first hit.
  abbrev pub any : (A → Bool) → List A → Bool
  any p [] = false
  any p (x ∷ xs) = p x || any p xs

  -- A loop that returns false at the first miss.
  abbrev pub all : (A → Bool) → List A → Bool
  all p [] = true
  all p (x ∷ xs) = p x && all p xs

  -- A loop that skips what fails a test.
  abbrev pub select : (A → Bool) → List A → List A
  select p [] = []
  select p (x ∷ xs) = let rest = select p xs in if p x then x ∷ rest else rest

  pub any_elim : (p : A → Bool) (xs : List A) → any p xs ≡ true → (x : A) × Memᴰ x xs × (p x ≡ true)
  any_elim p [] h = cc
  any_elim p (x ∷ xs) h = elim (Bool-cases (p x)) [
    | inl e ↦ (x, Memᴰ.head refl, e)
    | inr e ↦ let (y, m, q) = any_elim p xs (ground arith) in (y, Memᴰ.tail m, q)
  ]

  pub any_intro : (p : A → Bool) {x : A} {xs : List A} → Memᴰ x xs → p x ≡ true → any p xs ≡ true
  any_intro p (Memᴰ.head e) h = rw (← e, h)
  any_intro p (Memᴰ.tail m) h = ground (arith, any_intro p m h)

  pub any_none : (p : A → Bool) {x : A} {xs : List A} → any p xs ≡ false → Memᴰ x xs → p x ≡ false
  any_none p h (Memᴰ.head {x = y} e) = rw e (ground arith)
  any_none p h (Memᴰ.tail m) = any_none p (ground arith) m

  pub all_elim : (p : A → Bool) {x : A} {xs : List A} → all p xs ≡ true → Memᴰ x xs → p x ≡ true
  all_elim p h (Memᴰ.head {x = y} e) = rw e (ground arith)
  all_elim p h (Memᴰ.tail m) = all_elim p (ground arith) m

  pub all_intro :
      (p : A → Bool) (xs : List A) → ((x : A) → Memᴰ x xs → p x ≡ true) → all p xs ≡ true
  all_intro p [] h = refl
  all_intro p (x ∷ xs) h = rw (h x (Memᴰ.head refl), all_intro p xs (λ y m. h y (Memᴰ.tail m)))

  pub not-all_elim :
      (p : A → Bool) (xs : List A) → all p xs ≡ false → (x : A) × Memᴰ x xs × (p x ≡ false)
  not-all_elim p [] h = cc
  not-all_elim p (x ∷ xs) h = elim (Bool-cases (p x)) [
    | inl e ↦ let (y, m, q) = not-all_elim p xs (ground arith) in (y, Memᴰ.tail m, q)
    | inr e ↦ (x, Memᴰ.head refl, e)
  ]

  pub select-Memᴰ :
      (p : A → Bool) {x : A} (xs : List A) → Memᴰ x xs → p x ≡ true → Memᴰ x (select p xs)
  select-Memᴰ p [] m h = elim m [ ]
  select-Memᴰ p {x} (y ∷ xs) (Memᴰ.head e) h = elim (Bool-cases (p y)) [
    | inl here ↦ rw here (Memᴰ.head e)
    | inr out ↦ absurd (ground (arith, out, h, ap p e))
  ]
  select-Memᴰ p {x} (y ∷ xs) (Memᴰ.tail m) h = elim (Bool-cases (p y)) [
    | inl here ↦ rw here (Memᴰ.tail (select-Memᴰ p xs m h))
    | inr out ↦ rw out (select-Memᴰ p xs m h)
  ]
