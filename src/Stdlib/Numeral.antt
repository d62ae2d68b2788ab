-- ===== src/Stdlib/Numeral.antt =====
-- What `ulltoa` writes is the numeral of the number.
use native.Mathlib.Nat.{mod-lt}
use mathlib.Core.Path.{subst}
use au_os.Prelude.{
  some, ℕ, zero, suc, ◌+◌, ◌*◌, ◌/◌, ◌%◌, ◌^◌, ◌≤◌, ◌<◌, ◌≡◌, ap, ◌⊎◌, inl, inr, List, [], ◌∷◌,
  ◌++◌, arith, ltb, ◌==◌, Bool-cases,
}
use au_os.Stdlib.{digit_char, ulltoa}
use au_os.Stdlib.Print.{print_digits, ulltoa-print_digits}
use au_os.Stdlib.RoundTrip.{quotient, halves}

-- The characters 0 to 9 are the first ten digits, a to z the others.
abbrev pub IsDigit : (c d : ℕ) → Type 0
IsDigit c d = ((d < 10) × (c ≡ 0x30 + d)) ⊎ ((10 ≤ d) × (d < 36) × (c + 10 ≡ 0x61 + d))

-- The numerals of a base: a digit, or one behind the numeral of a number that is not 0.
pub data IsNumeral (base : ℕ) : List ℕ → ℕ → Type 0 where
  one : (c d : ℕ) → IsDigit c d → d < base → IsNumeral base (c ∷ []) d
  more :
      (xs : List ℕ) (v c d : ℕ)
      → IsNumeral base xs v
      → 0 < v
      → IsDigit c d
      → d < base
      → IsNumeral base (xs ++ c ∷ []) (v * base + d)

digit_char-IsDigit : (r : ℕ) → r < 36 → IsDigit (digit_char r) r
unfolding digit_char
digit_char-IsDigit r lt = elim (Bool-cases (ltb r 10)) [
  | inl low ↦ rw low (inl (ground arith, omega arith))
  | inr high ↦ let ge : 10 ≤ r = ground arith in rw high (inr (ge, lt, omega arith))
]

module _ (base : ℕ) (two : 2 ≤ base) (most : base ≤ 36) where
  last-IsNumeral : (v : ℕ) → v / base ≡ 0 → IsNumeral base (digit_char (v % base) ∷ []) v
  last-IsNumeral v e =
      let lt : v % base < base = mod-lt v {m = base} (omega (arith, two)) in
      let r : v % base ≡ v = omega (arith, quotient base two most v, ap (λ (q : ℕ). q * base) e) in
      subst (IsNumeral base (digit_char (v % base) ∷ [])) r (
        one (digit_char (v % base)) (v % base)
          (digit_char-IsDigit (v % base) (omega (arith, lt, most))) lt)

  print_digits-IsNumeral :
      (fuel v : ℕ) → v < 2 ^ suc fuel → IsNumeral base (print_digits (suc fuel) v base) v
  unfolding print_digits
  print_digits-IsNumeral zero v small =
      let e : v / base ≡ 0 = omega (arith, halves base two most 0 v small) in
      rw e (last-IsNumeral v e)
  print_digits-IsNumeral (suc fuel) v small = elim (Bool-cases (v / base == 0)) [
    | inl last ↦ rw last (last-IsNumeral v (ground arith))
    | inr longer ↦
        let lt : v % base < base = mod-lt v {m = base} (omega (arith, two)) in
        let ih = print_digits-IsNumeral fuel (v / base) (halves base two most (suc fuel) v small) in
        rw longer (
          subst
            (IsNumeral base (print_digits (suc fuel) (v / base) base ++ digit_char (v % base) ∷ []))
            (quotient base two most v)
            (more _ (v / base) (digit_char (v % base)) (v % base) ih (ground arith)
              (digit_char-IsDigit (v % base) (omega (arith, lt, most))) lt))
  ]

  -- In a base from 2 to 36, what `ulltoa` writes of a 64-bit number is its numeral: the characters are
  -- digits of the base, the first one the highest, they stand for the number, and no 0 is in front.
  pub ulltoa-IsNumeral :
      (v : ℕ) → v < 2 ^ 64 → (s : List ℕ) × (ulltoa v base ≡ some s) × IsNumeral base s v
  ulltoa-IsNumeral v fit =
      (print_digits 64 v base, ulltoa-print_digits v base two most, print_digits-IsNumeral 63 v fit)
