-- ===== src/Text/Laws.antt =====
-- What padding, digits and comparison give.
use au_os.Prelude.{
  ℕ, zero, suc, ◌+◌, ◌-◌, ◌%◌, ◌^◌, ◌≤◌, ◌<◌, ◌≡◌, ◌↔◌, refl, inl, inr, Bool, false, List, arith,
  ltb, ◌==◌, Bool-cases, get_or, ◌∙◌,
}
use au_os.Prelude.Words.{u32}
use au_os.Text.{
  same, compare_from, str_compare, signed, digit_to_char, char_to_digit, pad4_loop, pad4,
}

-- The loop ends by its test, once the fuel reaches the next multiple of 4.
pad4_loop_lem :
    (fuel size : ℕ)
    → size + (4 - size % 4) % 4 < 2 ^ 32
    → (4 - size % 4) % 4 ≤ fuel
    → pad4_loop fuel size ≡ size + (4 - size % 4) % 4
unfolding pad4_loop
pad4_loop_lem zero size bound enough = omega arith
pad4_loop_lem (suc fuel) size bound enough = elim (Bool-cases (size % 4 == 0)) [
  | inl done ↦ rw done (ground arith)
  | inr more ↦
      let e : u32 (size + 1) ≡ size + 1 = ground arith in
      rw (more, e) (pad4_loop_lem fuel (size + 1) (ground arith) (ground arith) ∙ ground arith)
]

-- `pad4` of a size that is not about to wrap gives the least multiple of 4 that is no smaller.
pub pad4_lem :
    (size : ℕ)
    → size + 4 < 2 ^ 32
    → (pad4 size % 4 ≡ 0) × (size ≤ pad4 size) × (pad4 size < size + 4)
unfolding pad4
pad4_lem size bound = omega (arith, pad4_loop_lem 4 size (omega arith) (omega arith))

-- A hexadecimal digit is read back as the number that it was written for.
pub char_to_digit-digit_to_char : (d : ℕ) → d < 16 → char_to_digit (digit_to_char d) ≡ d
unfolding char_to_digit digit_to_char
char_to_digit-digit_to_char d lt = ground arith

abbrev pub SameBytes : (a b : List ℕ) → (from size : ℕ) → Type 0
SameBytes a b from size = (i : ℕ) → from ≤ i → i < size → get_or a i 0 ≡ get_or b i 0

abbrev pub AreBytes : List ℕ → Type 0
AreBytes a = (i : ℕ) → get_or a i 0 < 256

module _ (a b : List ℕ) (bytes : AreBytes a) (bytes' : AreBytes b) where
  abbrev less : (x y : List ℕ) → ℕ → Bool
  less x y i = ltb (signed (get_or x i 0)) (signed (get_or y i 0))

  here_same : (i : ℕ) → less a b i ≡ false → less b a i ≡ false → get_or a i 0 ≡ get_or b i 0
  here_same i e e' = ground (arith, bytes i, bytes' i)

  compare_from-SameBytes :
      (left i : ℕ) → compare_from left a b i ≡ same → SameBytes a b i (i + left)
  unfolding compare_from
  compare_from-SameBytes zero i e = λ j le lt. absurd (omega arith)
  compare_from-SameBytes (suc left) i e = elim (Bool-cases (less a b i)) [
    | inl on ↦ absurd (ground (arith, rw on at e))
    | inr off ↦ elim (Bool-cases (less b a i)) [
      | inl on ↦ absurd (ground (arith, rw (off, on) at e))
      | inr off' ↦ λ j le lt. elim (Bool-cases (j == i)) [
        | inl first ↦ let e' : j ≡ i = ground arith in rw e' (here_same i off off')
        | inr later ↦
            compare_from-SameBytes left (i + 1) (rw (off, off') at e) j (ground arith) (omega arith)
      ]
    ]
  ]

  SameBytes-compare_from :
      (left i : ℕ) → SameBytes a b i (i + left) → compare_from left a b i ≡ same
  unfolding compare_from
  SameBytes-compare_from zero i h = refl
  SameBytes-compare_from (suc left) i h =
      let e = h i (omega arith) (omega arith) in
      let rest = SameBytes-compare_from left (i + 1) (λ j le lt. h j (omega arith) (omega arith)) in
      let off : less a b i ≡ false = ground (arith, e) in
      let off' : less b a i ≡ false = ground (arith, e) in rw (off, off') rest

-- `str_compare` gives 0 just where the first `size` bytes are the same.
pub str_compare-SameBytes :
    (a b : List ℕ) (size : ℕ)
    → AreBytes a
    → AreBytes b
    → str_compare a b size ≡ same ↔ SameBytes a b 0 size
unfolding str_compare
str_compare-SameBytes a b size bytes bytes' = (
  λ e j le lt. compare_from-SameBytes a b bytes bytes' size 0 e j le (omega arith),
  λ h. SameBytes-compare_from a b bytes bytes' size 0 (λ j le lt. h j le (omega arith)),
)
