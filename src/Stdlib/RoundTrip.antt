-- ===== src/Stdlib/RoundTrip.antt =====
-- What `ulltoa` writes, `strtoul` reads.
use native.Mathlib.Nat.{div-add-mod, mod-lt, pow-suc, le-div_iff_mul-le, div-le_self}
use mathlib.Core.List.{append_assoc, append-nil}
use au_os.Prelude.{
  some, ℕ, zero, suc, ◌+◌, ◌-◌, ◌*◌, ◌/◌, ◌%◌, ◌^◌, ◌≤◌, ◌<◌, ◌≡◌, ◌≢◌, refl, ap, sym, ◌∙◌, inl,
  inr, Bool, true, false, not, ◌&&◌, List, [], ◌∷◌, ◌++◌, arith, ltb, ◌==◌, if◌then◌else◌,
  Bool-cases, ==_iff,
}
use au_os.Prelude.Words.{u64}
use au_os.Ctype.{isspace, isdigit, toupper, tolower}
use au_os.Ctype.Classes.{all_below, all_below_sound}
use au_os.Stdlib.{
  skip_space, digit_of, ulong_max, Parsed, parse_digits, skip_prefix, strtoul, digit_char, ulltoa,
}
use au_os.Stdlib.Print.{print_digits, ulltoa-print_digits}

value_table : all_below 36 (λ r. digit_of (digit_char r) == r) ≡ true
unfolding digit_of digit_char toupper isdigit
value_table = refl

digit_of-digit_char : (r : ℕ) → r < 36 → digit_of (digit_char r) ≡ r
digit_of-digit_char r lt =
    (==_iff (digit_of (digit_char r)) r).0
      (all_below_sound 36 (λ x. digit_of (digit_char x) == x) r value_table lt)

abbrev plain : ℕ → Bool
plain c = isspace c == 0 && (not (c == 0x2d) && not (c == 0x2b))

plain_table : all_below 36 (λ r. plain (digit_char r)) ≡ true
unfolding digit_char isspace
plain_table = refl

digit_char-plain : (r : ℕ) → r < 36 → plain (digit_char r) ≡ true
digit_char-plain r lt = all_below_sound 36 (λ x. plain (digit_char x)) r plain_table lt

digit_char-zero : (r : ℕ) → (digit_char r == 0x30) ≡ (r == 0)
unfolding digit_char
digit_char-zero r = ground arith

module _ (base : ℕ) (two : 2 ≤ base) (most : base ≤ 36) where
  -- One digit is read, where the number stays below 2 ^ 64.
  parse_digits-digit :
      (q r : ℕ) (rest : List ℕ) (consumed : Bool)
      → r < base
      → q * base + r < 2 ^ 64
      → parse_digits base (digit_char r ∷ rest) q consumed
        ≡ parse_digits base rest (q * base + r) true
  unfolding parse_digits
  parse_digits-digit q r rest consumed lt fit =
      let d = digit_of-digit_char r (omega arith) in
      let e : u64 (ulong_max + 2 ^ 64 - r) ≡ ulong_max - r = omega arith in
      let room : q ≤ (ulong_max - r) / base =
        (le-div_iff_mul-le {k = base} {x = q} {y = ulong_max - r} (omega arith)).1 (omega arith) in
      let no_overflow : ltb ((ulong_max - r) / base) q ≡ false = ground arith in
      let e' : u64 (q * base + r) ≡ q * base + r = omega arith in rw (d, e, no_overflow, e') refl

  pub quotient : (v : ℕ) → v / base * base + v % base ≡ v
  quotient v = omega (arith, div-add-mod v base)

  pub halves : (fuel v : ℕ) → v < 2 ^ suc fuel → v / base < 2 ^ fuel
  halves fuel v small = grind (arith, pow-suc 2 fuel, div-add-mod v base)

  last_digit :
      (v : ℕ) (rest : List ℕ) (consumed : Bool)
      → v / base ≡ 0
      → v < 2 ^ 64
      → parse_digits base (digit_char (v % base) ∷ rest) 0 consumed ≡ parse_digits base rest v true
  last_digit v rest consumed e fit =
      let r : v % base ≡ v = omega (arith, quotient v, ap (λ (q : ℕ). q * base) e) in
      let e' : 0 * base + v ≡ v = omega arith in
      rw r (
        parse_digits-digit 0 v rest consumed (omega (arith, mod-lt v {m = base} (omega arith)))
          (omega arith)
        ∙ ap (λ n. parse_digits base rest n true) e')

  -- Printing a number and reading it on.
  parse_digits-print_digits :
      (fuel v : ℕ) (rest : List ℕ) (consumed : Bool)
      → v < 2 ^ suc fuel
      → v < 2 ^ 64
      → parse_digits base (print_digits (suc fuel) v base ++ rest) 0 consumed
        ≡ parse_digits base rest v true
  unfolding print_digits
  parse_digits-print_digits zero v rest consumed small fit =
      let e : v / base ≡ 0 = omega (arith, halves 0 v small) in
      rw e (last_digit v rest consumed e fit)
  parse_digits-print_digits (suc fuel) v rest consumed small fit =
      elim (Bool-cases (v / base == 0)) [
        | inl last ↦ rw last (last_digit v rest consumed (ground arith) fit)
        | inr more ↦
            let q = v / base in
            let front = print_digits (suc fuel) q base in
            let ih =
              parse_digits-print_digits fuel q (digit_char (v % base) ∷ rest) consumed
                (halves (suc fuel) v small) (omega (arith, div-le_self v base)) in
            rw more (
              ap (λ xs. parse_digits base xs 0 consumed)
                (append_assoc front (digit_char (v % base) ∷ []) rest)
              ∙ ih
              ∙ parse_digits-digit q (v % base) rest true (mod-lt v {m = base} (omega arith))
                  (omega (arith, quotient v))
              ∙ ap (λ n. parse_digits base rest n true) (quotient v))
      ]

  -- How the text of a number begins: with a digit, that is 0 for the number 0 only.
  abbrev Begins : ℕ → List ℕ → Type 0
  Begins v s =
      (r : ℕ) × (tail : List ℕ) × (s ≡ digit_char r ∷ tail)
      × (r < base)
      × (r ≡ 0 → (v ≡ 0) × (tail ≡ []))

  one_digit : (v : ℕ) → v / base ≡ 0 → Begins v (digit_char (v % base) ∷ [])
  one_digit v e = (
    v % base,
    [],
    refl,
    mod-lt v {m = base} (omega arith),
    λ z. (omega (arith, quotient v, ap (λ (q : ℕ). q * base) e), refl),
  )

  print_digits-Begins : (fuel v : ℕ) → v < 2 ^ suc fuel → Begins v (print_digits (suc fuel) v base)
  unfolding print_digits
  print_digits-Begins zero v small =
      let e : v / base ≡ 0 = omega (arith, halves 0 v small) in rw e (one_digit v e)
  print_digits-Begins (suc fuel) v small = elim (Bool-cases (v / base == 0)) [
    | inl last ↦ rw last (one_digit v (ground arith))
    | inr more ↦
        let (r, tail, e, lt, zero_only) =
          print_digits-Begins fuel (v / base) (halves (suc fuel) v small) in
        rw more (
          r,
          tail ++ digit_char (v % base) ∷ [],
          ap (λ xs. xs ++ digit_char (v % base) ∷ []) e,
          lt,
          λ z. absurd (ground (arith, zero_only z)),
        )
  ]

  -- Before the digits there is no space and no sign.
  strtoul-digits :
      (r : ℕ) (tail : List ℕ)
      → r < base
      → let s = digit_char r ∷ tail in
        let p = parse_digits base (skip_prefix base s) 0 false in
        strtoul s base ≡ (p.ret, if p.consumed then p.ptr else s)
  unfolding strtoul skip_space
  strtoul-digits r tail lt =
      let is_plain = digit_char-plain r (omega arith) in
      let no_space : (isspace (digit_char r) == 0) ≡ true = ground (arith, is_plain) in
      let no_minus : (digit_char r == 0x2d) ≡ false = ground (arith, is_plain) in
      let no_plus : (digit_char r == 0x2b) ≡ false = ground (arith, is_plain) in
      let given : (base == 0) ≡ false = ground arith in rw (no_space, no_minus, no_plus, given) refl

  skip_prefix-nonzero :
      (r : ℕ) (tail : List ℕ) → r ≢ 0 → skip_prefix base (digit_char r ∷ tail) ≡ digit_char r ∷ tail
  unfolding skip_prefix
  skip_prefix-nonzero r tail ne =
      let e : (digit_char r == 0x30) ≡ false = digit_char-zero r ∙ ground arith in
      rw e (ground arith)

  prefix_of_zero :
      skip_prefix base (digit_char 0 ∷ []) ≡ (if base == 8 then [] else digit_char 0 ∷ [])
  unfolding skip_prefix digit_char tolower
  prefix_of_zero = elim (Bool-cases (base == 8)) [
    | inl eight ↦ elim (Bool-cases (base == 16)) [
      | inl e ↦ rw (eight, e) refl
      | inr e ↦ rw (eight, e) refl
    ]
    | inr other ↦ elim (Bool-cases (base == 16)) [
      | inl e ↦ rw (other, e) refl
      | inr e ↦ rw (other, e) refl
    ]
  ]

  -- The text of 0, of which base 8 leaves nothing to read.
  read_zero : (parse_digits base (skip_prefix base (digit_char 0 ∷ [])) 0 false).ret ≡ 0
  unfolding parse_digits
  read_zero = elim (Bool-cases (base == 8)) [
    | inl eight ↦ rw (prefix_of_zero, eight) refl
    | inr other ↦
        rw (prefix_of_zero, other)
          (ap (λ (p : Parsed). p.ret) (parse_digits-digit 0 0 [] false (omega arith) (omega arith))
            ∙ omega arith)
  ]

  -- The text of any other number, all of which is read.
  read_nonzero :
      (v : ℕ)
      → v < 2 ^ 64
      → parse_digits base (print_digits 64 v base) 0 false
        ≡ record { ret = v; ptr = []; consumed = true }
  unfolding parse_digits
  read_nonzero v fit =
      ap (λ xs. parse_digits base xs 0 false) (sym (append-nil (print_digits 64 v base)))
      ∙ parse_digits-print_digits 63 v [] false fit fit

  -- In each base from 2 to 36, `ulltoa` writes a text for a 64-bit number, and `strtoul` reads the
  -- number back from it; of a number that is not 0 it reads all the text.
  pub strtoul-ulltoa :
      (v : ℕ)
      → v < 2 ^ 64
      → (s : List ℕ) × (ulltoa v base ≡ some s)
        × ((strtoul s base).0 ≡ v)
        × (v ≢ 0 → (strtoul s base).1 ≡ [])
  strtoul-ulltoa v fit =
      let (r, tail, e, lt, zero_only) = print_digits-Begins 63 v fit in
      let text = digit_char r ∷ tail in
      let read : ((strtoul text base).0 ≡ v) × (v ≢ 0 → (strtoul text base).1 ≡ []) =
        rw (strtoul-digits r tail lt) (elim (Bool-cases (r == 0)) [
          | inl z ↦
              let r_zero : r ≡ 0 = ground arith in
              let (v_zero, tail_nil) = zero_only r_zero in
              (rw (r_zero, tail_nil, v_zero) read_zero, λ ne. absurd (ne v_zero))
          | inr nz ↦
              let all =
                ap (λ xs. parse_digits base xs 0 false)
                  (skip_prefix-nonzero r tail (λ z. ground arith) ∙ sym e)
                ∙ read_nonzero v fit in
              rw all (refl, λ _. refl)
        ]) in
      (text, ulltoa-print_digits v base two most ∙ ap some e, read.0, read.1)
