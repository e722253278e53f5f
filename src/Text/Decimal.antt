-- ===== src/Text/Decimal.antt =====
-- Decimal numbers: fmt's %d, and strconv.Atoi on a run of digits.
use gh_audit.Prelude.{
  ℕ, zero, suc, ◌+◌, ◌-◌, ◌*◌, ◌/◌, ◌%◌, ◌<◌, ◌≡◌, refl, Bool, true, ◌&&◌, List, [], ◌∷◌, ◌++◌, ltb,
  leb, if◌then◌else◌, arith, Bool-cases, inl, inr, all,
}

abbrev pub is_digit : ℕ → Bool
is_digit c = leb b'0' c && leb c b'9'

-- `fuel` bounds the number of digits.
unfoldable pub itoa_fuel : ℕ → ℕ → List ℕ
itoa_fuel zero n = []
itoa_fuel (suc f) n =
    let more = itoa_fuel f (n / 10) in
    if ltb n 10 then (b'0' + n) ∷ [] else more ++ (b'0' + n % 10) ∷ []

-- A number has fewer digits than one more than itself.
unfoldable pub itoa : ℕ → List ℕ
unfolding itoa_fuel
itoa n = itoa_fuel (n + 1) n

-- The value of a run of digits, from the left.
unfoldable pub atoi_from : ℕ → List ℕ → ℕ
atoi_from acc [] = acc
atoi_from acc (c ∷ s) = atoi_from (acc * 10 + (c - b'0')) s

unfoldable pub atoi : List ℕ → ℕ
unfolding atoi_from
atoi s = atoi_from 0 s

atoi_from-append :
    (a : ℕ) (s : List ℕ) (c : ℕ) → atoi_from a (s ++ c ∷ []) ≡ atoi_from a s * 10 + (c - b'0')
unfolding atoi_from
atoi_from-append a [] c = refl
atoi_from-append a (d ∷ s) c = atoi_from-append (a * 10 + (d - b'0')) s c

atoi-itoa_fuel : (f n : ℕ) → n < f → atoi_from 0 (itoa_fuel f n) ≡ n
unfolding itoa_fuel
atoi-itoa_fuel zero n h = elim h [ ]
atoi-itoa_fuel (suc f) n h = elim (Bool-cases (ltb n 10)) [
  | inl e ↦ unfold atoi_from in ground arith
  | inr e ↦
      ground (
        arith,
        atoi_from-append 0 (itoa_fuel f (n / 10)) (b'0' + n % 10),
        atoi-itoa_fuel f (n / 10),
      )
]

-- The digits that are printed for a number read back as that number.
pub atoi-itoa : (n : ℕ) → atoi (itoa n) ≡ n
unfolding atoi itoa
atoi-itoa n = atoi-itoa_fuel (n + 1) n (omega arith)

all-append :
    (s : List ℕ) (c : ℕ)
    → all is_digit s ≡ true
    → is_digit c ≡ true
    → all is_digit (s ++ c ∷ []) ≡ true
all-append [] c h k = ground arith
all-append (d ∷ s) c h k = ground (arith, all-append s c)

digits-itoa_fuel : (f n : ℕ) → all is_digit (itoa_fuel f n) ≡ true
unfolding itoa_fuel
digits-itoa_fuel zero n = refl
digits-itoa_fuel (suc f) n = elim (Bool-cases (ltb n 10)) [
  | inl e ↦ ground arith
  | inr e ↦
      ground (arith, all-append (itoa_fuel f (n / 10)) (b'0' + n % 10), digits-itoa_fuel f (n / 10))
]

pub digits-itoa : (n : ℕ) → all is_digit (itoa n) ≡ true
unfolding itoa
digits-itoa n = digits-itoa_fuel (n + 1) n

itoa_test : itoa 1207 ≡ b'1' ∷ b'2' ∷ b'0' ∷ b'7' ∷ []
unfolding itoa
itoa_test = refl
