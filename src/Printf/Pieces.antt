-- ===== src/Printf/Pieces.antt =====
-- The formats: each takes a character at least, so the loop ends.
use au_os.Prelude.{
  ℕ, zero, suc, ◌+◌, ◌≤◌, ◌≡◌, refl, ap, inl, inr, ◌||◌, Option, none, some, List, [], ◌∷◌, arith,
  ◌==◌, Bool-cases, length, if◌then◌else◌, ltb, ◌^◌,
}
use au_os.Ctype.{isdigit}
use au_os.Stdlib.{char_at, next}
use au_os.Printf.{
  FormatType, fmt_none, skip_flag, skip_digits, skip_precision, decode_length, decode_conversion,
  decode_directive, is_invalid, decode_from, decode_format, Outcome, Piece, prints, invalid, strays,
  Arg, after_out, print_piece, piece, strayed, start_of, vprintf_loop, vprintf_with,
}

next-length : (fmt : List ℕ) → length (next fmt) ≤ length fmt
next-length [] = omega arith
next-length (c ∷ cs) = omega arith

skip_flag-length : (fmt : List ℕ) → length (skip_flag fmt) ≤ length fmt
unfolding skip_flag
skip_flag-length fmt =
    let c = char_at fmt in
    elim (Bool-cases (c == 0x2d || (c == 0x2b || (c == 0x20 || (c == 0x23 || c == 0x30))))) [
      | inl flag ↦ rw flag (next-length fmt)
      | inr other ↦ rw other (omega arith)
    ]

skip_digits-length : (fmt : List ℕ) → length (skip_digits fmt) ≤ length fmt
unfolding skip_digits
skip_digits-length [] = omega arith
skip_digits-length (c ∷ cs) = elim (Bool-cases (isdigit c == 0)) [
  | inl stop ↦ rw stop (omega arith)
  | inr digit ↦ rw digit (omega (arith, skip_digits-length cs))
]

skip_precision-length : (fmt : List ℕ) → length (skip_precision fmt) ≤ length fmt
unfolding skip_precision
skip_precision-length fmt = elim (Bool-cases (char_at fmt == 0x2e)) [
  | inl dot ↦ rw dot (omega (arith, skip_digits-length (next fmt), next-length fmt))
  | inr other ↦ rw other (omega arith)
]

decode_length-length : (fmt : List ℕ) → length (decode_length fmt).1 ≤ length fmt
unfolding decode_length
decode_length-length fmt =
    let one = next-length fmt in
    let two = next-length (next fmt) in
    elim (Bool-cases (char_at fmt == 0x6c)) [
      | inl l ↦ elim (Bool-cases (char_at (next fmt) == 0x6c)) [
        | inl ll ↦ rw (l, ll) (omega (arith, one, two))
        | inr other ↦ rw (l, other) one
      ]
      | inr no_l ↦ elim (Bool-cases (char_at fmt == 0x68)) [
        | inl h ↦ elim (Bool-cases (char_at (next fmt) == 0x68)) [
          | inl hh ↦ rw (no_l, h, hh) (omega (arith, one, two))
          | inr other ↦ rw (no_l, h, other) one
        ]
        | inr no_h ↦ rw (no_l, no_h) (omega arith)
      ]
    ]

decode_conversion-rest : (c spec : ℕ) (fmt : List ℕ) → (decode_conversion c spec fmt).rest ≡ fmt
unfolding decode_conversion
decode_conversion-rest c spec fmt =
    elim (Bool-cases (c == 0x70 || (c == 0x78 || (c == 0x58 || c == 0x6f)))) [
      | inl on ↦ rw on refl
      | inr off ↦ elim (Bool-cases (c == 0x75)) [
        | inl on ↦ rw (off, on) refl
        | inr off₁ ↦ elim (Bool-cases (c == 0x64 || c == 0x69)) [
          | inl on ↦ rw (off, off₁, on) refl
          | inr off₂ ↦ elim (Bool-cases (c == 0x73)) [
            | inl on ↦ rw (off, off₁, off₂, on) refl
            | inr off₃ ↦ elim (Bool-cases (c == 0x63)) [
              | inl on ↦ rw (off, off₁, off₂, off₃, on) refl
              | inr off₄ ↦ elim (Bool-cases (c == 0x25)) [
                | inl on ↦ rw (off, off₁, off₂, off₃, off₄, on) refl
                | inr off₅ ↦ rw (off, off₁, off₂, off₃, off₄, off₅) refl
              ]
            ]
          ]
        ]
      ]
    ]

decode_directive-length : (fmt : List ℕ) → length (decode_directive fmt).rest ≤ length fmt
unfolding decode_directive
decode_directive-length fmt =
    let a = skip_flag fmt in
    let b = skip_digits a in
    let c = skip_precision b in
    let r = (decode_length c).1 in
    omega (
      arith,
      ap (length {A = ℕ}) (decode_conversion-rest (char_at r) (decode_length c).0 (next r)),
      next-length r,
      decode_length-length c,
      skip_precision-length b,
      skip_digits-length a,
      skip_flag-length fmt,
    )

decode_from-length : (t : FormatType) (fmt : List ℕ) → length (decode_from t fmt).rest ≤ length fmt
unfolding decode_from
decode_from-length t [] = omega arith
decode_from-length t (c ∷ cs) = elim (Bool-cases (c == 0x25)) [
  | inl percent ↦ elim (Bool-cases (is_invalid t)) [
    | inl first ↦ rw (percent, first) (omega (arith, decode_directive-length cs))
    | inr later ↦ rw (percent, later) (omega arith)
  ]
  | inr plain ↦ rw plain (omega (arith, decode_from-length fmt_none cs))
]

-- A format takes a character at least.
decode_format-length : (c : ℕ) (cs : List ℕ) → length (decode_format (c ∷ cs)).rest ≤ length cs
unfolding decode_format decode_from
decode_format-length c cs = elim (Bool-cases (c == 0x25)) [
  | inl percent ↦ rw percent (decode_directive-length cs)
  | inr plain ↦ rw plain (decode_from-length fmt_none cs)
]

module _ {ℓ} {S : Type ℓ} (out : S → ℕ → List ℕ → Option S) where
  after_out-cong :
      (s : S) (k k' : S → Outcome S) (o : Option S)
      → ((s' : S) → k s' ≡ k' s')
      → after_out s k o ≡ after_out s k' o
  after_out-cong s k k' none h = refl
  after_out-cong s k k' (some s') h = h s'

  print_piece-cong :
      (k k' : S → ℕ → List Arg → Outcome S) (s : S) (w : ℕ) (p : Piece)
      → ((s' : S) (w' : ℕ) (args : List Arg) → k s' w' args ≡ k' s' w' args)
      → print_piece out k s w p ≡ print_piece out k' s w p
  unfolding print_piece
  print_piece-cong k k' s w (prints buf args) h =
      ap (λ o. if ltb (w + length buf) (2 ^ 31) then o else strayed)
        (after_out-cong s (λ s'. k s' (w + length buf) args) (λ s'. k' s' (w + length buf) args)
          (out s w buf) (λ s'. h s' (w + length buf) args))
  print_piece-cong k k' s w invalid h = refl
  print_piece-cong k k' s w strays h = refl

  -- Two amounts of fuel that are both enough.
  fuel_enough :
      (fuel fuel' : ℕ) (s : S) (w : ℕ) (fmt : List ℕ) (args : List Arg)
      → length fmt ≤ fuel
      → length fmt ≤ fuel'
      → vprintf_loop fuel out s w fmt args ≡ vprintf_loop fuel' out s w fmt args
  unfolding vprintf_loop
  fuel_enough zero zero s w fmt args le le' = refl
  fuel_enough zero (suc fuel') s w [] args le le' = refl
  fuel_enough zero (suc fuel') s w (c ∷ cs) args le le' = absurd (omega arith)
  fuel_enough (suc fuel) zero s w [] args le le' = refl
  fuel_enough (suc fuel) zero s w (c ∷ cs) args le le' = absurd (omega arith)
  fuel_enough (suc fuel) (suc fuel') s w [] args le le' = refl
  fuel_enough (suc fuel) (suc fuel') s w (c ∷ cs) args le le' =
      let f = decode_format (c ∷ cs) in
      let shorter = decode_format-length c cs in
      print_piece-cong (λ s' w' args'. vprintf_loop fuel out s' w' f.rest args')
        (λ s' w' args'. vprintf_loop fuel' out s' w' f.rest args') s w
        (piece f.type_of f.spec (start_of (c ∷ cs) f.rest) args)
        (λ s' w' args'. fuel_enough fuel fuel' s' w' f.rest args' (omega arith) (omega arith))

  -- The loop of `__vprintf` comes to its end within as many rounds as the format has characters: more
  -- fuel gives the same outcome.
  pub vprintf_loop-fuel :
      (fuel : ℕ) (s : S) (fmt : List ℕ) (args : List Arg)
      → length fmt ≤ fuel
      → vprintf_loop fuel out s 0 fmt args ≡ vprintf_with out s fmt args
  unfolding vprintf_with
  vprintf_loop-fuel fuel s fmt args le = fuel_enough fuel (length fmt) s 0 fmt args le (omega arith)
